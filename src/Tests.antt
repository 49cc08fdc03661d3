-- ===== src/Tests.antt =====
-- Concrete runs of the modelled code, and each theorem applied at one.
mod ReceiverMessages
mod ProxyMessages
mod BackfillMessages
mod CentralMessages
mod Packets
mod Files
mod Sections
mod States
mod Receiver
mod Proxy
mod Streams
mod Machines
