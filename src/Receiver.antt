-- ===== src/Receiver.antt =====
-- src/receiver.cpp: the state of one receiver process and what its event loop does with it. Each
-- child models one source of events.
pub mod State
pub mod Drain
pub mod Datagram
pub mod Missing
pub mod Machine
pub mod Report
pub mod PeerRepair
pub mod Backfill
pub mod Start
pub mod Control
pub mod Loop
pub mod StateFile
