-- ===== src/Receiver/Control/CrashSafe.antt =====
-- The state file and the bytes on the disk over `handle_control_message`.
use mathlib.Core.Path.{subst}
use site_repair_cast.Common.{
  if-both, if-cases, refl, read_failed, sym, ◌||◌, ◌==◌, [], Option, Result, ◌∷◌, not, List, ◌≡◌, ℕ,
  some, ok, err,
}
use site_repair_cast.FileIo.{Contents}
use site_repair_cast.Protocol.Control.Backfill.{
  decode_backfill_end, decode_backfill_data, decode_backfill_begin, decode_peer_repair_task,
  PeerRepairTaskMessage,
}
use site_repair_cast.Protocol.Control.Header.{
  peek_control_type, ControlType, session_end, file_meta, section_end, repair_begin,
  peer_repair_task, backfill_begin, backfill_data, backfill_end, complete_ack, transfer_result,
}
use site_repair_cast.Protocol.Control.Proxy.{
  decode_transfer_result, decode_complete_ack, decode_repair_begin, decode_section_end,
  decode_file_meta, decode_session_end, SectionEndMessage, FileMetaMessage,
}
use site_repair_cast.Protocol.Packet.{payload_limit}
use site_repair_cast.Receiver.Backfill.{on_complete_ack, on_backfill_end, on_backfill_data}
use site_repair_cast.Receiver.Control.{
  answer_result, for_transfer, handle_kind, on_section_end, handle_control_message,
}
use site_repair_cast.Receiver.Control.Durable.{
  transfer_result-At, complete_ack-At, backfill_end-At, payload_size-decode_backfill_data,
  on_backfill_data-IsCrashSafe, begin_drain_for_round-SameFile, HonestBackfill,
}
use site_repair_cast.Receiver.Datagram.Integrity.{Agrees}
use site_repair_cast.Receiver.Datagram.Validity.{IsConsistent, Open, IsValid}
use site_repair_cast.Receiver.Drain.{begin_drain_for_round}
use site_repair_cast.Receiver.Machine.{lift, same_name, Action, Machine, System, ◌>>=◌}
use site_repair_cast.Receiver.Machine.Keeps.{Keeps, if-Keeps, lift-Keeps, bind-Keeps}
use site_repair_cast.Receiver.PeerRepair.{
  has_section, may_send, send_peer_udp_packet, execute_peer_repair_task, send_peer_blocks,
  send_peer_block,
}
use site_repair_cast.Receiver.Report.CrashSafe.{complete-At}
use site_repair_cast.Receiver.Report.Durable.{
  SameFile-IsCrashSafe, SameFile, At-IsCrashSafe, send_frame-At, SavedIsDurable, call_output-At,
  IsCrashSafe, At,
}
use site_repair_cast.Receiver.Start.{
  safe_received_file_name, blocks_match, answer_file_meta, on_file_meta, repeat_file_meta,
}
use site_repair_cast.Receiver.State.{TransferState}

module _ (sys : System) (source : Contents) where
  peer_block-At :
      (s : TransferState) (task : PeerRepairTaskMessage) (block_id : ℕ)
      → Keeps (At source s) (send_peer_block sys s task block_id)
  unfolding send_peer_block send_peer_udp_packet
  peer_block-At s task block_id =
      if-Keeps (not (may_send s task block_id)) (λ _. lift-Keeps _)
        (λ _. bind-Keeps (call_output-At sys source s read_failed) (λ _.
          bind-Keeps (lift-Keeps _)
            (λ packet. record { keep = λ w h. if-both (At source s) (sys.fails w.calls) h h })))

  peer_blocks-At :
      (s : TransferState) (task : PeerRepairTaskMessage) (block_ids : List ℕ)
      → Keeps (At source s) (send_peer_blocks sys s task block_ids)
  unfolding send_peer_blocks
  peer_blocks-At s task [] = lift-Keeps _
  peer_blocks-At s task (block_id ∷ block_ids) =
      bind-Keeps (peer_block-At s task block_id) (λ _. peer_blocks-At s task block_ids)

  peer_task-At :
      (s : TransferState) (task : PeerRepairTaskMessage)
      → Keeps (At source s) (execute_peer_repair_task sys s task)
  unfolding execute_peer_repair_task
  peer_task-At s task =
      if-Keeps
        (not (task.transfer_id == s.meta.common.transfer_id)
          || s.awaiting_complete_ack
          || s.final_sha_failed
          || task.target_port == 0
          || not (has_section s task.section_id))
        (λ _. lift-Keeps _) (λ _. peer_blocks-At s task task.block_ids)

  repeat-At :
      (s : TransferState) (message : FileMetaMessage) (safe_name : List ℕ)
      → Keeps (At source s) (repeat_file_meta sys s message safe_name)
  unfolding repeat_file_meta
  repeat-At s message safe_name =
      if-Keeps (not (s.meta.common.transfer_id == message.transfer_id)) (λ _. lift-Keeps _)
        (λ _.
          if-Keeps (not (same_name s.meta.file_name safe_name)) (λ _. lift-Keeps _)
            (λ _.
              if-Keeps s.awaiting_complete_ack (λ _. complete-At sys source s _ _ _)
                (λ _. send_frame-At sys source s _)))

  -- A decoder first, and then a message for the transfer that is open.
  module _ (w : Machine) (s : TransferState) (open' : w.transfer ≡ some s)
      (still : IsCrashSafe source w) where
    after_decode :
        {M : Type 0} (r : Result M) (next : M → Action (Unit {0}))
        → ((m : M) → r ≡ ok m → IsCrashSafe source (next m w).1)
        → IsCrashSafe source ((lift r >>= next) w).1
    unfolding ◌>>=◌
    after_decode (ok m) next each = each m refl
    after_decode (err e) next each = still

    for_open :
        (act : Option TransferState → Action (Unit {0}))
        → IsCrashSafe source (act (some s) w).1
        → IsCrashSafe source (act w.transfer w).1
    for_open act h =
        subst (λ (t : Option TransferState). IsCrashSafe source (act t w).1) (sym open') h

    kept :
        Agrees source s
        → At source s w
        → {act : Action (Unit {0})} → Keeps (At source s) act
        → IsCrashSafe source (act w).1
    kept a h {act = act} k = At-IsCrashSafe source s (act w).1 a (k.keep w h)

    section_end-IsCrashSafe :
        (now : ℕ) (message : SectionEndMessage)
        → Agrees source s
        → At source s w
        → IsCrashSafe source (on_section_end now s message w).1
    unfolding on_section_end
    section_end-IsCrashSafe now message a h =
        if-cases (λ (r : Result (Unit {0}) × Machine). IsCrashSafe source r.1)
          (not (message.transfer_id == s.meta.common.transfer_id)) (λ _. still)
          (λ _.
            SameFile-IsCrashSafe source s
              (begin_drain_for_round now s w.drain message.section_id message.round_id
                message.total_blocks).0
              w
              (begin_drain_for_round-SameFile now s w.drain message.section_id message.round_id
                message.total_blocks)
              a h.1)

    file_meta-IsCrashSafe :
        (message : FileMetaMessage)
        → Agrees source s
        → At source s w
        → IsCrashSafe source (on_file_meta sys message w).1
    unfolding on_file_meta answer_file_meta
    file_meta-IsCrashSafe message a h =
        let Safe : Action (Unit {0}) → Type 0 = (λ act. IsCrashSafe source (act w).1) in
        if-cases Safe (not (message.section_id == 0)) (λ _. still)
          (λ _.
            if-cases Safe (not (message.block_size == payload_limit)) (λ _. still)
              (λ _.
                if-cases Safe
                  (not (blocks_match message.file_size message.block_size message.total_blocks))
                  (λ _. still)
                  (λ _.
                    after_decode (safe_received_file_name message.file_name)
                      (λ safe_name w. answer_file_meta sys message safe_name w.transfer w)
                      (λ safe_name _.
                        for_open (answer_file_meta sys message safe_name)
                          (kept a h (repeat-At s message safe_name))))))

    handle_kind-IsCrashSafe :
        (now : ℕ) (frame : List ℕ) (type : ControlType)
        → IsConsistent s.meta
        → HonestBackfill source frame
        → Agrees source s
        → At source s w
        → IsCrashSafe source (handle_kind sys now frame type w).1
    unfolding handle_kind for_transfer answer_result
    handle_kind-IsCrashSafe now frame session_end c honest a h =
        after_decode (decode_session_end frame) _ (λ _ _. still)
    handle_kind-IsCrashSafe now frame file_meta c honest a h =
        after_decode (decode_file_meta frame) _ (λ message _. file_meta-IsCrashSafe message a h)
    handle_kind-IsCrashSafe now frame section_end c honest a h =
        after_decode (decode_section_end frame) _ (λ message _.
          for_open (for_transfer (λ s. on_section_end now s message))
            (section_end-IsCrashSafe now message a h))
    handle_kind-IsCrashSafe now frame repair_begin c honest a h =
        after_decode (decode_repair_begin frame) _ (λ _ _. still)
    handle_kind-IsCrashSafe now frame peer_repair_task c honest a h =
        after_decode (decode_peer_repair_task frame) _ (λ message _.
          for_open (for_transfer (λ s. execute_peer_repair_task sys s message))
            (kept a h (peer_task-At s message)))
    handle_kind-IsCrashSafe now frame backfill_begin c honest a h =
        after_decode (decode_backfill_begin frame) _ (λ _ _. still)
    handle_kind-IsCrashSafe now frame backfill_data c honest a h =
        after_decode (decode_backfill_data frame) _ (λ m e.
          for_open (for_transfer (λ s. on_backfill_data sys s m)) (
            on_backfill_data-IsCrashSafe sys source s m w c
              (payload_size-decode_backfill_data frame m e) (honest m e) a h))
    handle_kind-IsCrashSafe now frame backfill_end c honest a h =
        after_decode (decode_backfill_end frame) _ (λ message _.
          for_open (for_transfer (λ s. on_backfill_end sys s message))
            (kept a h (backfill_end-At sys source s message a)))
    handle_kind-IsCrashSafe now frame complete_ack c honest a h =
        after_decode (decode_complete_ack frame) _ (λ message _.
          for_open (for_transfer (λ s. on_complete_ack sys s message))
            (kept a h (complete_ack-At sys source s message)))
    handle_kind-IsCrashSafe now frame transfer_result c honest a h =
        after_decode (decode_transfer_result frame) _ (λ message _.
          for_open (answer_result sys message) (kept a h (transfer_result-At sys source s message)))
    handle_kind-IsCrashSafe now frame _ c honest a h = still

  -- Let a valid transfer be open, and let a BACKFILL_DATA frame that passes its CRC carry bytes of
  -- `source`. If every marked block of the output holds the bytes of `source`, and every block that
  -- the state file of the transfer marks is marked in memory and has these bytes on the disk since
  -- the last sync, be the file open or closed, under its temporary or its final name, then so it is
  -- after any control message, whatever system calls fail, or no transfer is in memory.
  pub handle_control_message-IsCrashSafe :
      (now : ℕ) (frame : List ℕ) (w : Machine) (s : TransferState)
      → w.transfer ≡ some s
      → IsValid s
      → HonestBackfill source frame
      → IsCrashSafe source w
      → IsCrashSafe source (handle_control_message sys now frame w).1
  unfolding handle_control_message
  handle_control_message-IsCrashSafe now frame w s open' v honest still =
      let (a, d) =
        subst
          (λ (t : Option TransferState). Open (λ s. Agrees source s × SavedIsDurable source s w) t)
          open' still in
      let same : Open (SameFile s) w.transfer =
        subst (λ (t : Option TransferState). Open (SameFile s) t) (sym open') (refl, refl, refl) in
      after_decode w s open' still (peek_control_type frame) (handle_kind sys now frame) (λ type _.
        handle_kind-IsCrashSafe w s open' still now frame type v.consistent honest a (same, d))
