-- ===== src/Protocol.antt =====
-- include/protocol.hpp: the wire format of the UDP packets and of the TCP control messages, and the
-- section and bitmap arithmetic that the three programs share.
pub mod Bytes
pub mod Packet
pub mod Control
pub mod Section
pub mod Bitmap
