-- ===== src/Lib.antt =====
-- SiteRepairCast sends files from a central site through a proxy to many receivers. The proxy
-- multicasts each section of a file over UDP, collects a bitmap of missing blocks from every
-- receiver over TCP, and repairs what is missing: by multicast, by asking one receiver to send to
-- another, or by unicast. This library models the wire protocol, the receiver process with its
-- directory and its event loop, and the proxy's repair round.
--
-- Which file models which part:
--   Common      helpers: tests on numbers, lists, and results that carry an error
--   Protocol    include/protocol.hpp. Protocol.Bytes is PacketWriter and PacketReader: a writer is
--               the list of the bytes of its calls, a reader a function from the bytes that are left
--               to a value and the rest. Protocol.Packet is the UDP packets, Protocol.Control the
--               frames of the TCP control connections (one file for each direction, and
--               Control.Message for all kinds), and Protocol.Section and Protocol.Bitmap are the
--               arithmetic of sections and bitmaps
--   Checksum    crc32 of src/checksum.cpp, with its table
--   FileIo      read_block and write_all_at of include/file_io.hpp, on files as functions from
--               offsets to bytes; FileIo.Transfers is their loops over pread and pwrite
--   Stream      ControlStreamReader of src/receiver.cpp, which cuts the byte stream of a control
--               connection into frames, and send_control_frame of include/control_io.hpp
--   Receiver    src/receiver.cpp. Receiver.State is TransferState and the variables of the event
--               loop, Receiver.Datagram is process_udp_ready for one datagram, Receiver.Drain is
--               begin_drain_for_round and its timer, Receiver.Missing is make_missing_bitmap.
--               Receiver.Machine is the state of the process with its directory, and the functions
--               that call the system; Receiver.Start is FILE_META (initialize_transfer and
--               load_receiver_state), Receiver.Report is finish_drain_and_report and
--               finalize_transfer, Receiver.PeerRepair is execute_peer_repair_task,
--               Receiver.Backfill the messages of the TCP backfill and of the end of a transfer,
--               Receiver.Control is handle_control_message, Receiver.Loop the event loop of main
--   Proxy       src/sender.cpp. Proxy.Connection is ReceiverConnection, Proxy.Status is
--               validate_missing_bitmap, Proxy.Repair is aggregate_missing_blocks and re_to_re:
--               Repair.Plan its planning loop, Repair.Dispatch its dispatch loop, Repair.Round the
--               whole
--   Tests       runs on concrete values
--
-- How the parts meet: the frames that Stream cuts are handled by Receiver.Control, one after the
-- other. A receiver's bitmap (Receiver.Missing) is checked by the proxy (Proxy.Status)
-- and read by the repair round (Proxy.Repair), whose packets come back to the receiver
-- (Receiver.Datagram).
--
-- Conventions. Numbers are natural numbers; where the C++ type can wrap, the reduction is written
-- out. A thrown std::runtime_error is a value of Error. Times count nanoseconds. Descriptors are
-- left out: a control connection is open or not. Bytes are numbers, and a theorem asks for their
-- range where it needs it.
--
-- Fuel: the loop over the chunks of a repair task (Repair.Dispatch) has the number of blocks as its
-- bound, and every round takes at least one block, so the bound is not reached before the end. The
-- other loops run over a list or a count.
--
-- The system under a receiver. Every call that can fail takes the next number, and System.fails says
-- which numbers fail; a failing call throws as in the source and leaves the state that the code has
-- built up. A file has its contents and what is on the disk since the last sync. A path is the name
-- and the transfer that it is made of, so that two files are never taken for one because a file name
-- looks like a temporary one. A name with a NUL byte, which the code accepts and cuts at the NUL
-- where it opens and renames, is taken whole here. The text of a state file is the record of what it
-- says, and a state of no marks is not read back; of the text itself only the hexadecimal form of
-- the marks is modelled (Receiver.StateFile). A temporary file that is open belongs to the transfer,
-- and goes back to the directory when it is closed.
--
-- Parameters: which system calls fail, and of the proxy's repair round which reads of the file and
-- datagrams; SHA-256, which is OpenSSL's, as any function of the bytes; whether a control connection
-- takes a frame (`delivers`), the arrival times and the datagrams of a
-- receiver, the contents of the file that is sent, and the answers of recv, pread and pwrite, which
-- move at most what they are asked for. Whether the output directory has room is one of the calls
-- that may fail. Nothing is assumed of the network; where a theorem is on the bytes of the file it
-- says so: a datagram or a BACKFILL_DATA frame that passes its CRC carries bytes of the file.
--
-- Not modelled: sockets, epoll and threads; the rest of a state file's text, the text of options
-- and of log lines;
-- a pwrite that fails after a part of its bytes; a frame that is sent in part; the receive_control_frame
-- side of include/control_io.hpp; the proxy's cache and queue of files from the central site, its
-- connections, its waiting for reports, the retries and the backfill over TCP;
-- src/central_sender.cpp; the scripts under real_test.
pub mod Common
pub mod Protocol
pub mod Checksum
pub mod FileIo
pub mod Stream
pub mod Receiver
pub mod Proxy
pub mod Tests
