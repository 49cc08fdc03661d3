-- ===== src/Proxy.antt =====
-- src/sender.cpp: the proxy of a site. Each child models one part of it.
pub mod Connection
pub mod Status
pub mod Repair
