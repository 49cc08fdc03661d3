-- ===== src/Receiver/Control/Durable.antt =====
-- The state file and the bytes on the disk over the messages for an open transfer.
use site_repair_cast.Checksum.{crc32}
use site_repair_cast.Common.{
  if-cases, write_failed, ltb, [], ◌∷◌, ◌||◌, ◌*◌, ◌==◌, ap, not, Option, set, get_or, refl, length,
  arith, ok, ◌<◌, ◌≡◌, ℕ, List, true, none, some, zero, suc,
}
use site_repair_cast.FileIo.{slice, Contents}
use site_repair_cast.Protocol.Bytes.Laws.{length-get_bytes}
use site_repair_cast.Protocol.Control.Backfill.{
  BackfillEndMessage, BackfillDataMessage, decode_backfill_data,
}
use site_repair_cast.Protocol.Control.Proxy.{
  CompleteAckMessage, TransferResultMessage, TransferResultCode, completed, failed,
}
use site_repair_cast.Receiver.Backfill.{
  on_backfill_data, store_backfill, is_closed, commit_marks, on_backfill_end, backfill_outcome,
  on_complete_ack, on_transfer_result, end_if_failed, end_transfer,
}
use site_repair_cast.Receiver.Datagram.{payload_matches, store_block}
use site_repair_cast.Receiver.Datagram.Integrity.{store_block-Agrees, Agrees}
use site_repair_cast.Receiver.Datagram.Validity.{IsConsistent}
use site_repair_cast.Receiver.Drain.{begin_drain_for_round}
use site_repair_cast.Receiver.Machine.{Action, same_name, Machine, System, ◌>>=◌}
use site_repair_cast.Receiver.Machine.Keeps.{Keeps, if-Keeps, lift-Keeps, bind-Keeps}
use site_repair_cast.Receiver.Machine.Leads.{to-Leads, from-Leads, Leads, bind-Leads, kept-Leads}
use site_repair_cast.Receiver.Report.Closing.{close-At}
use site_repair_cast.Receiver.Report.CrashSafe.{complete-At, put_flags-At, finalize-At, status-At}
use site_repair_cast.Receiver.Report.Durable.{
  call_output-At, sync_save-At, At-IsCrashSafe, IsCrashSafe, SavedIsDurable, send_frame-At,
  SameFile, At,
}
use site_repair_cast.Receiver.State.{DrainState, TransferState}

-- The payload of a BACKFILL_DATA that passes its CRC is what `source` has at its offset.
abbrev pub HonestBackfill : Contents → List ℕ → Type 0
HonestBackfill source frame =
    (m : BackfillDataMessage)
    → decode_backfill_data frame ≡ ok m
    → crc32 m.payload ≡ m.crc32
    → m.payload ≡ slice source m.offset (length m.payload)

pub payload_size-decode_backfill_data :
    (frame : List ℕ) (m : BackfillDataMessage)
    → decode_backfill_data frame ≡ ok m
    → m.payload_size ≡ length m.payload
unfolding decode_backfill_data
payload_size-decode_backfill_data frame m h = grind (arith, length-get_bytes)

pub begin_drain_for_round-SameFile :
    (now : ℕ) (s : TransferState) (d : DrainState) (section_id round_id total_blocks : ℕ)
    → SameFile s (begin_drain_for_round now s d section_id round_id total_blocks).0
unfolding begin_drain_for_round
begin_drain_for_round-SameFile now s d section_id round_id total_blocks =
    (ground arith, ground arith, ground arith)

set_marks : (rs : List ℕ) (i b : ℕ) → get_or (set rs i 1) b 0 ≡ 0 → get_or rs b 0 ≡ 0
set_marks [] i b h = h
set_marks (r ∷ rs) zero zero h = absurd (omega arith)
set_marks (r ∷ rs) zero (suc b) h = h
set_marks (r ∷ rs) (suc i) zero h = h
set_marks (r ∷ rs) (suc i) (suc b) h = set_marks rs i b h

-- A stored block marks one block more.
At-store_block :
    (source : Contents) (s : TransferState) (block_id : ℕ) (payload : List ℕ) (offset : ℕ)
    (w : Machine)
    → SavedIsDurable source s w
    → At source
        (store_block s block_id payload offset)
        (record w { transfer = some (store_block s block_id payload offset) })
At-store_block source s block_id payload offset w d = (
  (refl, refl, refl),
  (λ saved e b marked.
      let (mine, there) = d saved e b marked in
      ((λ e'. mine (set_marks s.received block_id b e')), there)),
)

-- The file with a block of BACKFILL_DATA that passed the checks.
store_backfill-Agrees :
    (source : Contents) (s : TransferState) (m : BackfillDataMessage)
    → IsConsistent s.meta
    → m.payload_size ≡ length m.payload
    → (crc32 m.payload ≡ m.crc32 → m.payload ≡ slice source m.offset (length m.payload))
    → m.block_id < s.meta.total_blocks
    → payload_matches s.meta m.block_id m.offset m.payload_size m.crc32 m.payload ≡ true
    → Agrees source s
    → Agrees source (store_block s m.block_id m.payload m.offset)
unfolding payload_matches
store_backfill-Agrees source s m c size genuine inside matches a =
    store_block-Agrees source s
      (record {
        common = s.meta.common;
        section_id = 0;
        block_id = m.block_id;
        offset = m.offset;
        payload_size = m.payload_size;
        crc32 = m.crc32;
        payload = m.payload;
      })
      (ground (arith, ap (λ (t : ℕ). m.block_id * t) c.blocks)) size genuine a

module _ (sys : System) (source : Contents) where
  end_transfer-At : (s : TransferState) → Keeps (At source s) (end_transfer sys s)
  unfolding end_transfer
  end_transfer-At s =
      bind-Keeps (record { keep = λ w h. (tt, (close-At sys source s w h).1) })
        (λ _. bind-Keeps (record { keep = λ w h. h }) (λ _. send_frame-At sys source s _))

  end_if_failed-At :
      (s : TransferState) (code : TransferResultCode)
      → Keeps (At source s) (end_if_failed sys s code)
  unfolding end_if_failed
  end_if_failed-At s failed = end_transfer-At s
  end_if_failed-At s completed = lift-Keeps _

  pub transfer_result-At :
      (s : TransferState) (message : TransferResultMessage)
      → Keeps (At source s) (on_transfer_result sys s message)
  unfolding on_transfer_result
  transfer_result-At s message =
      if-Keeps (not (message.transfer_id == s.meta.common.transfer_id)) (λ _. lift-Keeps _)
        (λ _. end_if_failed-At s message.result)

  pub complete_ack-At :
      (s : TransferState) (message : CompleteAckMessage)
      → Keeps (At source s) (on_complete_ack sys s message)
  unfolding on_complete_ack
  complete_ack-At s message =
      if-Keeps
        (not (message.transfer_id == s.meta.common.transfer_id) || not s.awaiting_complete_ack)
        (λ _. lift-Keeps _) (λ _. end_transfer-At s)

  backfill_outcome-At :
      (s : TransferState) (outcome : Option (List ℕ))
      → Keeps (At source s) (backfill_outcome sys s outcome)
  unfolding backfill_outcome
  backfill_outcome-At s none =
      bind-Keeps
        (status-At sys source s
          (record s { final_sha_failed = s.received_count == s.meta.total_blocks }) _ _ _ _ _)
        (λ _. put_flags-At sys source s _ _ _)
  backfill_outcome-At s (some digest) =
      bind-Keeps (put_flags-At sys source s _ _ _) (λ _. complete-At sys source s _ _ _)

  pub backfill_end-At :
      (s : TransferState) (message : BackfillEndMessage)
      → Agrees source s
      → Keeps (At source s) (on_backfill_end sys s message)
  unfolding on_backfill_end
  backfill_end-At s message a =
      if-Keeps
        (not (message.transfer_id == s.meta.common.transfer_id)
          || not (message.file_size == s.meta.file_size)
          || not (message.total_blocks == s.meta.total_blocks)
          || not (same_name message.sha256 s.meta.sha256)
          || is_closed s)
        (λ _. lift-Keeps _)
        (λ _. bind-Keeps (finalize-At sys source s a) (λ outcome. backfill_outcome-At s outcome))

  -- The mark and the block reach the disk before the state file.
  commit_marks-IsCrashSafe :
      (s : TransferState) (w : Machine)
      → Agrees source s
      → At source s (record w { transfer = some s })
      → IsCrashSafe source (commit_marks sys s w).1
  unfolding commit_marks ◌>>=◌
  commit_marks-IsCrashSafe s w a h =
      At-IsCrashSafe source s (commit_marks sys s w).1 a
        ((sync_save-At sys source s a).keep (record w { transfer = some s }) h)

  store_backfill-IsCrashSafe :
      (s : TransferState) (m : BackfillDataMessage)
      → Agrees source s
      → Agrees source (store_block s m.block_id m.payload m.offset)
      → Leads (At source s) (IsCrashSafe source) (IsCrashSafe source) (store_backfill sys s m)
  unfolding store_backfill
  store_backfill-IsCrashSafe s m a a' =
      bind-Leads
        (kept-Leads (call_output-At sys source s write_failed)
          (λ w h. At-IsCrashSafe source s w a h))
        (λ _. from-Leads (λ w h.
          commit_marks-IsCrashSafe (store_block s m.block_id m.payload m.offset) w a'
            (At-store_block source s m.block_id m.payload m.offset w h.1)))

  pub on_backfill_data-IsCrashSafe :
      (s : TransferState) (m : BackfillDataMessage) (w : Machine)
      → IsConsistent s.meta
      → m.payload_size ≡ length m.payload
      → (crc32 m.payload ≡ m.crc32 → m.payload ≡ slice source m.offset (length m.payload))
      → Agrees source s
      → At source s w
      → IsCrashSafe source (on_backfill_data sys s m w).1
  unfolding on_backfill_data
  on_backfill_data-IsCrashSafe s m w c size genuine a h =
      let Safe : Action (Unit {0}) → Type 0 = (λ act. IsCrashSafe source (act w).1) in
      let still = At-IsCrashSafe source s w a h in
      if-cases Safe
        (not (m.transfer_id == s.meta.common.transfer_id)
          || is_closed s
          || not (ltb m.block_id s.meta.total_blocks))
        (λ _. still)
        (λ mine.
          if-cases Safe
            (not (payload_matches s.meta m.block_id m.offset m.payload_size m.crc32 m.payload))
            (λ _. (a, h.1))
            (λ right.
              if-cases Safe (not (get_or s.received m.block_id 0 == 0)) (λ _. still)
                (λ free.
                  to-Leads
                    (store_backfill-IsCrashSafe s m a (
                      store_backfill-Agrees source s m c size genuine (ground arith) (ground arith)
                        a))
                    w h)))
