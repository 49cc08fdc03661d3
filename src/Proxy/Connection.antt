-- ===== src/Proxy/Connection.antt =====
-- `ReceiverConnection`: what the proxy knows of one receiver. `control_open` is that the control
-- descriptor is not -1; an address is a pair of IPv4 and port in host order.
use site_repair_cast.Common.{Option, ◌||◌, List, not, Bool, ℕ}
use site_repair_cast.Protocol.Control.Proxy.{FileMetaMessage}
use site_repair_cast.Protocol.Control.Receiver.{SectionStatusMessage, ReceiverState}

pub record Address : Type 0 where
  pub ipv4 : ℕ
  pub port : ℕ

pub record ReceiverConnection : Type 0 where
  pub control_open : Bool
  pub udp_destination : Address
  pub peer_destination : Address
  pub meta_ready : Bool
  pub status_received : Bool
  pub complete_received : Bool
  pub completed : Bool
  pub ready_for_next_transfer : Bool
  pub isolated : Bool
  pub abandoned : Bool
  pub recovery_state : ReceiverState
  pub recovery_transfer_id : ℕ
  pub backfill_blocks : List ℕ
  pub status : Option SectionStatusMessage
  pub active_meta : Option FileMetaMessage

-- The receivers that a section's round still waits for or repairs.
abbrev pub is_active : ReceiverConnection → Bool
is_active r = not (r.completed || r.isolated || r.abandoned)
