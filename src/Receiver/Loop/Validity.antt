-- ===== src/Receiver/Loop/Validity.antt =====
-- The validity of the open transfer and of the saved states over the event loop.
use site_repair_cast.Common.{
  if-both, ◌||◌, not, ◌&&◌, Bool, [], err, ok, ◌∷◌, List, ℕ, Result, All, Option, none, some, true,
  false,
}
use site_repair_cast.Receiver.Control.Validity.{handle_control_message-IsWellFormed, SmallFile}
use site_repair_cast.Receiver.Datagram.Validity.{process_datagram-IsValid, IsValid, Open}
use site_repair_cast.Receiver.Loop.{
  writes, end_of_drain, after_datagram, timer, datagram, after_frames, or_reconnect, forget_rounds,
  run, step, handle_frames, on_timer, on_datagram, reconnect_proxy, frames, LoopConfig, Event,
  hangup,
}
use site_repair_cast.Receiver.Machine.{Machine, System}
use site_repair_cast.Receiver.Machine.Keeps.{Keeps, bind-Keeps, lift-Keeps}
use site_repair_cast.Receiver.Report.Validity.{finish_drain-Keeps, IsWellFormed}
use site_repair_cast.Receiver.State.{DrainState, TransferState}

-- What is assumed of the frames of an event.
abbrev pub SmallFiles : Event → Type 0
SmallFiles (frames now list) = All SmallFile list
SmallFiles _ = Unit {0}

forget_rounds-IsValid :
    (transfer : Option TransferState)
    → Open IsValid transfer
    → Open IsValid (forget_rounds transfer)
forget_rounds-IsValid none v = v
forget_rounds-IsValid (some s) v =
    if-both IsValid s.awaiting_complete_ack v (record {
      consistent = v.consistent;
      mapped = v.mapped;
      flags = v.flags;
      counted = v.counted;
    })

module _ (config : LoopConfig) (sys : System) where
  reconnect_proxy-IsWellFormed :
      (w : Machine) → IsWellFormed w → IsWellFormed (reconnect_proxy config w)
  unfolding reconnect_proxy
  reconnect_proxy-IsWellFormed w h = (forget_rounds-IsValid w.transfer h.0, h.1)

  after_datagram-IsWellFormed :
      (s : TransferState) (w : Machine) (after : Option TransferState × DrainState)
      → IsValid s
      → Open IsValid after.0
      → IsWellFormed w
      → IsWellFormed (after_datagram sys s w after)
  unfolding after_datagram
  after_datagram-IsWellFormed s w (none, d') v v' h = h
  after_datagram-IsWellFormed s w (some s', d') v v' h =
      if-both IsWellFormed (writes s s' && (not w.output_open || sys.fails w.calls))
        (
          record {
            consistent = v.consistent;
            mapped = v.mapped;
            flags = v.flags;
            counted = v.counted;
          },
          h.1,
        )
        (v', h.1)

  on_datagram-IsWellFormed :
      (now : ℕ) (bytes : List ℕ) (transfer : Option TransferState) (w : Machine)
      → Open IsValid transfer
      → IsWellFormed w
      → IsWellFormed (on_datagram config sys now bytes transfer w)
  unfolding on_datagram
  on_datagram-IsWellFormed now bytes none w v h = h
  on_datagram-IsWellFormed now bytes (some s) w v h =
      after_datagram-IsWellFormed s w _ v
        (process_datagram-IsValid config.initial_drop_blocks now (some s) w.drain bytes v) h

  or_reconnect-IsWellFormed :
      (r : Result (Unit {0})) (w : Machine)
      → IsWellFormed w
      → IsWellFormed (or_reconnect config (r, w))
  or_reconnect-IsWellFormed (ok _) w h = h
  or_reconnect-IsWellFormed (err _) w h = reconnect_proxy-IsWellFormed w h

  end_of_drain-IsWellFormed :
      (s : TransferState) (w : Machine) (draining : Bool)
      → IsValid s
      → IsWellFormed w
      → IsWellFormed (end_of_drain config sys s w draining)
  unfolding end_of_drain
  end_of_drain-IsWellFormed s w false v h = h
  end_of_drain-IsWellFormed s w true v h =
      or_reconnect-IsWellFormed _ _ ((finish_drain-Keeps sys s w.drain.draining_round v).keep _ h)

  on_timer-IsWellFormed :
      (transfer : Option TransferState) (w : Machine)
      → Open IsValid transfer
      → IsWellFormed w
      → IsWellFormed (on_timer config sys transfer w)
  unfolding on_timer
  on_timer-IsWellFormed none w v h = h
  on_timer-IsWellFormed (some s) w v h = end_of_drain-IsWellFormed s _ w.drain.draining v h

  handle_frames-Keeps :
      (now : ℕ) (list : List (List ℕ))
      → All SmallFile list
      → Keeps IsWellFormed (handle_frames sys now list)
  unfolding handle_frames
  handle_frames-Keeps now [] small = lift-Keeps _
  handle_frames-Keeps now (frame ∷ later) small =
      bind-Keeps
        (record { keep = λ w h. handle_control_message-IsWellFormed sys now frame w small.0 h })
        (λ _. handle_frames-Keeps now later small.1)

  after_frames-IsWellFormed :
      (r : Result (Unit {0})) (w : Machine)
      → IsWellFormed w
      → IsWellFormed (after_frames config (r, w))
  after_frames-IsWellFormed (ok _) w h = h
  after_frames-IsWellFormed (err _) w h =
      if-both IsWellFormed w.stop_requested h (reconnect_proxy-IsWellFormed w h)

  step-IsWellFormed :
      (event : Event) (w : Machine)
      → SmallFiles event
      → IsWellFormed w
      → IsWellFormed (step config sys event w)
  unfolding step
  step-IsWellFormed (datagram now bytes) w small h =
      on_datagram-IsWellFormed now bytes w.transfer w h.0 h
  step-IsWellFormed timer w small h = on_timer-IsWellFormed w.transfer w h.0 h
  step-IsWellFormed (frames now list) w small h =
      after_frames-IsWellFormed (handle_frames sys now list w).0 (handle_frames sys now list w).1
        ((handle_frames-Keeps now list small).keep w h)
  step-IsWellFormed hangup w small h = reconnect_proxy-IsWellFormed w h

  -- As long as no FILE_META announces 2^63 bytes or more, whatever events come in whatever order
  -- and whatever system calls fail, the receiver stays well formed: the open transfer is valid,
  -- with one mark of 0 or 1 for each block and the count their sum, and the marks in every state
  -- file are 0 or 1.
  pub run-IsWellFormed :
      (events : List Event) (w : Machine)
      → All SmallFiles events
      → IsWellFormed w
      → IsWellFormed (run config sys events w)
  unfolding run
  run-IsWellFormed [] w small h = h
  run-IsWellFormed (event ∷ events) w small h = if-both IsWellFormed w.stop_requested h (
      run-IsWellFormed events (step config sys event w) small.1
        (step-IsWellFormed event w small.0 h))
