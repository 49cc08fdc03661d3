-- ===== src/Protocol/Control.antt =====
-- The TCP control messages, by the link that they travel on.
pub mod Header
pub mod Receiver
pub mod Proxy
pub mod Backfill
pub mod Central
pub mod Message
