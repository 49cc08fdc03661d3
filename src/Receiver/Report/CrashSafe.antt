-- ===== src/Receiver/Report/CrashSafe.antt =====
-- `finalize_transfer` and `finish_drain_and_report`, with the state file and the bytes on the disk.
use site_repair_cast.Common.{
  if-cases, ◌≡◌, refl, Bool, ◌==◌, not, Option, ℕ, List, true, none, some,
}
use site_repair_cast.FileIo.{Contents}
use site_repair_cast.Protocol.Control.Receiver.{SectionStatusCode}
use site_repair_cast.Receiver.Datagram.Integrity.{Agrees}
use site_repair_cast.Receiver.Machine.{◌>>=◌, call, same_name, put_transfer, Machine, System}
use site_repair_cast.Receiver.Machine.Keeps.{Keeps, if-Keeps, lift-Keeps, bind-Keeps}
use site_repair_cast.Receiver.Machine.Leads.{
  from-Leads, Leads, kept_to-Leads, bind-Leads, kept-Leads,
}
use site_repair_cast.Receiver.Report.{
  finish_drain_and_report, digest_of, report_missing, report_active, report_section,
  report_finalized, send_receiver_complete, send_section_status, finalize_transfer,
}
use site_repair_cast.Receiver.Report.Closing.{publish-At}
use site_repair_cast.Receiver.Report.Durable.{
  At-IsCrashSafe, save-At, IsCrashSafe, sync-At, put-At, send_frame-At, sync_only-At, At,
}
use site_repair_cast.Receiver.State.{TransferState}

module _ (sys : System) (source : Contents) where
  pub finalize-At :
      (s : TransferState) → Agrees source s → Keeps (At source s) (finalize_transfer sys s)
  unfolding finalize_transfer call ◌>>=◌
  finalize-At s a =
      if-Keeps (not (s.received_count == s.meta.total_blocks)) (λ _. lift-Keeps _)
        (λ _. kept_to-Leads (
          bind-Leads (sync_only-At sys source s a) (λ _.
            bind-Leads
              (kept-Leads {I = λ w. At source s w × (w.output_open ≡ true)}
                (record { keep = λ w h. h }) (λ w h. h.0))
              (λ _.
                if-cases
                  (Leads (λ w. At source s w × (w.output_open ≡ true)) (At source s) (At source s))
                  (not (same_name (digest_of sys s) s.meta.sha256))
                  (λ _. from-Leads (λ w h.
                    (put-At sys source s (record s { final_sha_failed = true })
                        (refl, refl, refl)).keep
                      w h.0))
                  (λ _.
                    bind-Leads (publish-At sys source s)
                      (λ _. kept-Leads (lift-Keeps _) (λ w h. h)))))))

  pub status-At :
      (s s' : TransferState) (section_id round_id : ℕ) (status : SectionStatusCode) (count : ℕ)
      (bitmap : List ℕ)
      → Keeps (At source s) (send_section_status sys s' section_id round_id status count bitmap)
  unfolding send_section_status
  status-At s s' section_id round_id status count bitmap =
      bind-Keeps (lift-Keeps _) (λ _. send_frame-At sys source s _)

  pub complete-At :
      (s : TransferState) (id size : ℕ) (digest : List ℕ)
      → Keeps (At source s) (send_receiver_complete sys id size digest)
  unfolding send_receiver_complete
  complete-At s id size digest = send_frame-At sys source s _

  -- The fields that a report changes.
  pub put_flags-At :
      (s : TransferState) (reported : Option ℕ) (awaiting sha_failed : Bool)
      → Keeps (At source s) (
          put_transfer (record s {
            last_reported_round = reported;
            awaiting_complete_ack = awaiting;
            final_sha_failed = sha_failed;
          }))
  put_flags-At s reported awaiting sha_failed = put-At sys source s _ (refl, refl, refl)

  pub report_finalized-At :
      (s : TransferState) (section_id round_id : ℕ) (outcome : Option (List ℕ))
      → Keeps (At source s) (report_finalized sys s section_id round_id outcome)
  unfolding report_finalized
  report_finalized-At s section_id round_id none =
      if-Keeps (not (s.received_count == s.meta.total_blocks))
        (λ _. bind-Keeps (status-At s s _ _ _ _ _) (λ _. put_flags-At s _ _ _))
        (λ _. bind-Keeps (status-At s s _ _ _ _ _) (λ _. put_flags-At s _ _ _))
  report_finalized-At s section_id round_id (some digest) =
      bind-Keeps (put_flags-At s _ _ _)
        (λ _. bind-Keeps (status-At s s _ _ _ _ _) (λ _. complete-At s _ _ _))

  pub report_section-At :
      (s : TransferState) (section_id round_id : ℕ) (result : List ℕ × ℕ)
      → Agrees source s
      → Keeps (At source s) (report_section sys s section_id round_id result)
  unfolding report_section report_missing
  report_section-At s section_id round_id (bitmap, count) a =
      if-Keeps (not (count == 0))
        (λ _. bind-Keeps (status-At s s _ _ _ _ _) (λ _. put_flags-At s _ _ _))
        (λ _. kept_to-Leads (
          bind-Leads (sync-At sys source s a) (λ _. bind-Leads (save-At sys source s) (λ _.
            kept-Leads
              (bind-Keeps (finalize-At s a)
                (λ outcome. report_finalized-At s section_id round_id outcome))
              (λ w h. h)))))

  pub report_active-At :
      (s : TransferState) (round_id : ℕ) (active : Option ℕ)
      → Agrees source s
      → Keeps (At source s) (report_active sys s round_id active)
  unfolding report_active
  report_active-At s round_id none a = lift-Keeps _
  report_active-At s round_id (some section_id) a =
      bind-Keeps (lift-Keeps _) (λ result. report_section-At s section_id round_id result a)

  -- If every marked block of the output holds the bytes of `source`, and every block that the state
  -- file of the transfer marks is marked in memory and has these bytes on the disk since the last
  -- sync, be the file open or closed, under its temporary or its final name, then so it is after
  -- the report of a drained section, whatever system calls fail, or no transfer is in memory.
  pub finish_drain_and_report-IsCrashSafe :
      (s : TransferState) (round_id : ℕ) (w : Machine)
      → Agrees source s
      → At source s w
      → IsCrashSafe source (finish_drain_and_report sys s round_id w).1
  unfolding finish_drain_and_report
  finish_drain_and_report-IsCrashSafe s round_id w a h =
      At-IsCrashSafe source s (finish_drain_and_report sys s round_id w).1 a
        ((report_active-At s round_id s.active_section_id a).keep w h)
