-- ===== src/Proxy/Repair.antt =====
-- The repair round of the peer mode, `re_to_re`: what is multicast, what a receiver is asked to
-- send to another, and what the proxy sends itself.
pub mod Blocks
pub mod Missing
pub mod Plan
pub mod Dispatch
pub mod Round
