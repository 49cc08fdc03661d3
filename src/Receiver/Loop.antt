-- ===== src/Receiver/Loop.antt =====
-- The event loop of `main` and `reconnect_proxy`. Each event is what one wake-up brings from one
-- source, in the order in which the loop looks at them.
pub mod Validity
use site_repair_cast.Common.{
  ◌+◌, [], ◌||◌, ◌==◌, ◌++◌, ◌∷◌, err, ◌&&◌, not, false, ok, Bool, map, if◌then◌else◌, List, Result,
  Option, ℕ, none, some, true,
}
use site_repair_cast.Protocol.Control.Receiver.{
  encode_register, RegisterMessage, idle, receiving, completed,
}
use site_repair_cast.Receiver.Control.{handle_control_message}
use site_repair_cast.Receiver.Datagram.{process_datagram}
use site_repair_cast.Receiver.Machine.{return, Action, System, Machine, ◌>>◌}
use site_repair_cast.Receiver.Report.{finish_drain_and_report}
use site_repair_cast.Receiver.State.{DrainState, reject, TransferState}

-- The ports that REGISTER announces, and SRCAST_DROP_INITIAL_BLOCKS.
pub record LoopConfig : Type 0 where
  pub udp_port : ℕ
  pub peer_udp_port : ℕ
  pub initial_drop_blocks : List ℕ

pub data Event : Type 0 where
  datagram : ℕ → List ℕ → Event
  timer : Event
  frames : ℕ → List (List ℕ) → Event
  hangup : Event

unfoldable pub make_registration : LoopConfig → Option TransferState → RegisterMessage
make_registration config none = record {
  current_transfer_id = 0;
  udp_port = config.udp_port;
  peer_udp_port = config.peer_udp_port;
  state = idle;
}
make_registration config (some s) = record {
  current_transfer_id = s.meta.common.transfer_id;
  udp_port = config.udp_port;
  peer_udp_port = config.peer_udp_port;
  state = if s.awaiting_complete_ack then completed else receiving;
}

abbrev pub forget_rounds : Option TransferState → Option TransferState
forget_rounds none = none
forget_rounds (some s) = some (
    if s.awaiting_complete_ack
    then s
    else record s { active_section_id = none; last_end_round = none; last_reported_round = none })

-- `connect_and_register` goes on until REGISTER is sent.
unfoldable pub reconnect_proxy : LoopConfig → Machine → Machine
unfolding make_registration
reconnect_proxy config w =
    let transfer' = forget_rounds w.transfer in
    record w {
      transfer = transfer';
      drain = record (w.drain) { draining = false; drain_timer = none };
      sent = w.sent ++ (encode_register (make_registration config transfer') ∷ []);
    }

-- Whether a datagram writes a block, and the count of a write that fails.
abbrev pub writes : TransferState → TransferState → Bool
writes s s' = not (s'.received_count == s.received_count)

unfoldable pub after_datagram :
    System → TransferState → Machine → Option TransferState × DrainState → Machine
after_datagram sys s w (none, d') = w
after_datagram sys s w (some s', d') =
    if writes s s' && (not w.output_open || sys.fails w.calls)
    then record w { transfer = some (reject s); calls = w.calls + 1 }
    else record w { transfer = some s'; drain = d'; calls = w.calls + 1 }

unfoldable pub on_datagram :
    LoopConfig → System → ℕ → List ℕ → Option TransferState → Machine → Machine
unfolding process_datagram after_datagram
on_datagram config sys now bytes none w = w
on_datagram config sys now bytes (some s) w =
    after_datagram sys s w (process_datagram config.initial_drop_blocks now (some s) w.drain bytes)

-- An action whose exceptions lead to `reconnect_proxy`.
abbrev pub or_reconnect : LoopConfig → Result (Unit {0}) × Machine → Machine
or_reconnect config (ok _, w) = w
or_reconnect config (err _, w) = reconnect_proxy config w

abbrev pub expire_timer : Machine → Machine
expire_timer w = record w { drain = record (w.drain) { drain_timer = none } }

-- With the value of `draining`.
unfoldable pub end_of_drain : LoopConfig → System → TransferState → Machine → Bool → Machine
unfolding finish_drain_and_report reconnect_proxy
end_of_drain config sys s w true = or_reconnect config (
    finish_drain_and_report sys s w.drain.draining_round
      (record w { drain = record (w.drain) { draining = false } }))
end_of_drain config sys s w false = w

unfoldable pub on_timer : LoopConfig → System → Option TransferState → Machine → Machine
unfolding end_of_drain
on_timer config sys none w = expire_timer w
on_timer config sys (some s) w = end_of_drain config sys s (expire_timer w) w.drain.draining

unfoldable pub handle_frames : System → ℕ → List (List ℕ) → Action (Unit {0})
unfolding handle_control_message
handle_frames sys now [] = return tt
handle_frames sys now (frame ∷ later) = do
  handle_control_message sys now frame
  handle_frames sys now later

-- A thrown exception reconnects unless SESSION_END has come before it.
abbrev pub after_frames : LoopConfig → Result (Unit {0}) × Machine → Machine
after_frames config (ok _, w) = w
after_frames config (err _, w) = if w.stop_requested then w else reconnect_proxy config w

unfoldable pub step : LoopConfig → System → Event → Machine → Machine
unfolding on_datagram on_timer handle_frames reconnect_proxy
step config sys (datagram now bytes) w = on_datagram config sys now bytes w.transfer w
step config sys timer w = on_timer config sys w.transfer w
step config sys (frames now list) w = after_frames config (handle_frames sys now list w)
step config sys hangup w = reconnect_proxy config w

-- `while(!stop_requested)`.
unfoldable pub run : LoopConfig → System → List Event → Machine → Machine
unfolding step
run config sys [] w = w
run config sys (event ∷ events) w =
    let rest = run config sys events (step config sys event w) in
    if w.stop_requested then w else rest
