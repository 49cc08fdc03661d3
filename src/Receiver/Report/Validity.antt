-- ===== src/Receiver/Report/Validity.antt =====
-- The validity of the open transfer and of the saved states over the reports.
use mathlib.Core.Path.{subst}
use site_repair_cast.Common.{
  if-both, not, none, some, Bool, read_failed, rename_failed, inr, inl, ◌==◌, ◌&&◌, Bool-cases,
  sync_failed, Option, send_failed, save_failed, ◌≡◌, ℕ, List, Error, ◌≤◌, All,
}
use site_repair_cast.Protocol.Control.Receiver.{SectionStatusCode}
use site_repair_cast.Receiver.Datagram.Validity.{IsValid, Open}
use site_repair_cast.Receiver.Machine.{
  close_output, same_name, saved_of, at_transfer, sync_output, put_transfer, call_output,
  save_receiver_state, send_frame, call, System, Machine, SavedState,
}
use site_repair_cast.Receiver.Machine.Keeps.{if-Keeps, lift-Keeps, bind-Keeps, Keeps}
use site_repair_cast.Receiver.Report.{
  report_active, digest_of, finish_drain_and_report, report_section, report_missing,
  report_finalized, send_receiver_complete, send_section_status, finalize_transfer, publish,
}
use site_repair_cast.Receiver.State.{TransferState}

abbrev pub Marked : SavedState → Type 0
Marked saved = All (λ r. r ≤ 1) saved.received

abbrev pub IsWellFormed : Machine → Type 0
IsWellFormed w =
    Open IsValid w.transfer
    × ((name : List ℕ) (id : ℕ) (saved : SavedState) → w.states name id ≡ some saved → Marked saved)

-- Saved marks after a state is saved.
Marked-saved :
    (s : TransferState) (states : List ℕ → ℕ → Option SavedState)
    → IsValid s
    → ((name : List ℕ) (id : ℕ) (saved : SavedState) → states name id ≡ some saved → Marked saved)
    → (name : List ℕ) (id : ℕ) (saved : SavedState)
    → at_transfer s.meta.file_name s.meta.common.transfer_id (some (saved_of s)) states name id
      ≡ some saved
    → Marked saved
Marked-saved s states v each name id saved e =
    elim (Bool-cases (same_name s.meta.file_name name && s.meta.common.transfer_id == id)) [
      | inl this ↦
          let same : some (saved_of s) ≡ some saved = (rw this at e) in
          let same' : saved_of s ≡ saved = cc in subst (λ saved. Marked saved) same' v.flags
      | inr other ↦ each name id saved (rw other at e)
    ]

Marked-removed :
    (s : TransferState) (states : List ℕ → ℕ → Option SavedState)
    → ((name : List ℕ) (id : ℕ) (saved : SavedState) → states name id ≡ some saved → Marked saved)
    → (name : List ℕ) (id : ℕ) (saved : SavedState)
    → at_transfer s.meta.file_name s.meta.common.transfer_id none states name id ≡ some saved
    → Marked saved
Marked-removed s states each name id saved e =
    elim (Bool-cases (same_name s.meta.file_name name && s.meta.common.transfer_id == id)) [
      | inl this ↦
          let gone : ◌≡◌ {A = Option SavedState} none (some saved) = (rw this at e) in absurd cc
      | inr other ↦ each name id saved (rw other at e)
    ]

pub close_output-IsWellFormed :
    (s : TransferState) (w : Machine) → IsWellFormed w → IsWellFormed (close_output s w)
close_output-IsWellFormed s w h = elim (Bool-cases w.output_open) [
  | inl opened ↦ rw opened h
  | inr closed ↦ rw closed h
]

module _ (sys : System) where
  pub call-Keeps : (e : Error) → Keeps IsWellFormed (call sys e)
  unfolding call
  call-Keeps e = record { keep = λ w h. h }

  pub call_output-Keeps : (e : Error) → Keeps IsWellFormed (call_output sys e)
  unfolding call_output
  call_output-Keeps e = record { keep = λ w h. h }

  pub put-Keeps : (s : TransferState) → IsValid s → Keeps IsWellFormed (put_transfer s)
  put-Keeps s v = record { keep = λ w h. (v, h.1) }

  -- The fields that a report changes.
  pub put_flags-Keeps :
      (s : TransferState) (reported : Option ℕ) (awaiting sha_failed : Bool)
      → IsValid s
      → Keeps IsWellFormed (
          put_transfer (record s {
            last_reported_round = reported;
            awaiting_complete_ack = awaiting;
            final_sha_failed = sha_failed;
          }))
  put_flags-Keeps s reported awaiting sha_failed v = put-Keeps _ (record {
    consistent = v.consistent;
    mapped = v.mapped;
    flags = v.flags;
    counted = v.counted;
  })

  pub send_frame-Keeps : (frame : List ℕ) → Keeps IsWellFormed (send_frame sys frame)
  unfolding send_frame
  send_frame-Keeps frame =
      bind-Keeps (lift-Keeps _)
        (λ _. bind-Keeps (call-Keeps send_failed) (λ _. record { keep = λ w h. h }))

  pub save-Keeps : (s : TransferState) → IsValid s → Keeps IsWellFormed (save_receiver_state sys s)
  unfolding save_receiver_state
  save-Keeps s v = bind-Keeps (call-Keeps save_failed) (λ _.
      bind-Keeps (call-Keeps save_failed)
        (λ _. record { keep = λ w h. (h.0, Marked-saved s w.states v h.1) }))

  pub sync-Keeps : (s : TransferState) → Keeps IsWellFormed (sync_output sys s)
  unfolding sync_output
  sync-Keeps s = bind-Keeps (call_output-Keeps sync_failed) (λ _. record { keep = λ w h. h })

  publish-Keeps : (s : TransferState) → Keeps IsWellFormed (publish sys s)
  unfolding publish
  publish-Keeps s =
      bind-Keeps (record { keep = λ w h. close_output-IsWellFormed s w h })
        (λ _. bind-Keeps (call-Keeps rename_failed) (λ _.
          bind-Keeps (record { keep = λ w h. h })
            (λ _. record {
              keep = λ w h.
                  if-both IsWellFormed (sys.fails w.calls) h (h.0, Marked-removed s w.states h.1);
            })))

  pub finalize-Keeps :
      (s : TransferState) → IsValid s → Keeps IsWellFormed (finalize_transfer sys s)
  unfolding finalize_transfer
  finalize-Keeps s v =
      if-Keeps (not (s.received_count == s.meta.total_blocks)) (λ _. lift-Keeps _)
        (λ _. bind-Keeps (sync-Keeps s) (λ _. bind-Keeps (call-Keeps read_failed) (λ _.
          if-Keeps (not (same_name (digest_of sys s) s.meta.sha256))
            (λ _. bind-Keeps (put_flags-Keeps s _ _ _ v) (λ _. lift-Keeps _))
            (λ _. bind-Keeps (publish-Keeps s) (λ _. lift-Keeps _)))))

  pub status-Keeps :
      (s : TransferState) (section_id round_id : ℕ) (status : SectionStatusCode) (count : ℕ)
      (bitmap : List ℕ)
      → Keeps IsWellFormed (send_section_status sys s section_id round_id status count bitmap)
  unfolding send_section_status
  status-Keeps s section_id round_id status count bitmap =
      bind-Keeps (lift-Keeps _) (λ _. send_frame-Keeps _)

  pub complete-Keeps :
      (id size : ℕ) (digest : List ℕ)
      → Keeps IsWellFormed (send_receiver_complete sys id size digest)
  unfolding send_receiver_complete
  complete-Keeps id size digest = send_frame-Keeps _

  report_finalized-Keeps :
      (s : TransferState) (section_id round_id : ℕ) (outcome : Option (List ℕ))
      → IsValid s
      → Keeps IsWellFormed (report_finalized sys s section_id round_id outcome)
  unfolding report_finalized
  report_finalized-Keeps s section_id round_id none v =
      if-Keeps (not (s.received_count == s.meta.total_blocks))
        (λ _. bind-Keeps (status-Keeps s _ _ _ _ _) (λ _. put_flags-Keeps s _ _ _ v))
        (λ _. bind-Keeps (status-Keeps s _ _ _ _ _) (λ _. put_flags-Keeps s _ _ _ v))
  report_finalized-Keeps s section_id round_id (some digest) v =
      bind-Keeps (put_flags-Keeps s _ _ _ v)
        (λ _. bind-Keeps (status-Keeps s _ _ _ _ _) (λ _. complete-Keeps _ _ _))

  report_missing-Keeps :
      (s : TransferState) (section_id round_id count : ℕ) (bitmap : List ℕ)
      → IsValid s
      → Keeps IsWellFormed (report_missing sys s section_id round_id count bitmap)
  unfolding report_missing
  report_missing-Keeps s section_id round_id count bitmap v =
      bind-Keeps (status-Keeps s _ _ _ _ _) (λ _. put_flags-Keeps s _ _ _ v)

  report_whole-Keeps :
      (s : TransferState) (section_id round_id : ℕ) (result : List ℕ × ℕ)
      → IsValid s
      → Keeps IsWellFormed (report_section sys s section_id round_id result)
  unfolding report_section
  report_whole-Keeps s section_id round_id (bitmap, count) v =
      if-Keeps (not (count == 0)) (λ _. report_missing-Keeps s section_id round_id count bitmap v)
        (λ _. bind-Keeps (sync-Keeps s) (λ _. bind-Keeps (save-Keeps s v) (λ _.
          bind-Keeps (finalize-Keeps s v)
            (λ outcome. report_finalized-Keeps s section_id round_id outcome v))))

  report_active-Keeps :
      (s : TransferState) (round_id : ℕ) (active : Option ℕ)
      → IsValid s
      → Keeps IsWellFormed (report_active sys s round_id active)
  unfolding report_active
  report_active-Keeps s round_id none v = lift-Keeps _
  report_active-Keeps s round_id (some section_id) v =
      bind-Keeps (lift-Keeps _) (λ result. report_whole-Keeps s section_id round_id result v)

  pub finish_drain-Keeps :
      (s : TransferState) (round_id : ℕ)
      → IsValid s
      → Keeps IsWellFormed (finish_drain_and_report sys s round_id)
  unfolding finish_drain_and_report
  finish_drain-Keeps s round_id v = report_active-Keeps s round_id s.active_section_id v
