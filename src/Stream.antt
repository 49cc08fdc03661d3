-- ===== src/Stream.antt =====
-- include/control_io.hpp and `ControlStreamReader` of src/receiver.cpp: control frames on a TCP
-- stream, each behind its length. A stream is the list of its bytes.

pub mod Frames
pub mod Reader
