-- ===== src/Receiver/Report/Closing.antt =====
-- The bytes of a transfer when its file is closed, renamed and its state file removed.
use mathlib.Core.Path.{subst}
use site_repair_cast.Common.{
  refl, arith, false, if-cases, not, if-both, sym, ◌∙◌, Option, ap, ◌≡◌, ℕ, List, true, none, some,
}
use site_repair_cast.FileIo.{Contents}
use site_repair_cast.Protocol.Packet.{MetaPacket}
use site_repair_cast.Receiver.Datagram.Validity.{Open}
use site_repair_cast.Receiver.Machine.{
  modify, at_transfer, StoredFile, close_output, SavedState, call, Machine, System,
}
use site_repair_cast.Receiver.Machine.Leads.{Leads, bind-Leads, kept-Leads}
use site_repair_cast.Receiver.Machine.Paths.{at_name_same, at_transfer_same}
use site_repair_cast.Receiver.Report.{remove_state, move_output, publish}
use site_repair_cast.Receiver.Report.Durable.{disk_of, disk_of_open, At, SameFile, stored_bytes}
use site_repair_cast.Receiver.State.{TransferState}

disk_of_closed :
    (m : MetaPacket) (w : Machine) (part output : Option StoredFile)
    → w.output_open ≡ false
    → w.parts m.file_name m.common.transfer_id ≡ part
    → w.outputs m.file_name ≡ output
    → disk_of m w ≡ stored_bytes part output
disk_of_closed m w part output closed e e' = rw (closed, e, e') refl

-- The temporary file once it is closed, and the machine with it.
abbrev part_of : TransferState → Machine → StoredFile
part_of s w = record { size = s.meta.file_size; contents = s.output; durable = w.durable }

abbrev closed_of : TransferState → Machine → Machine
closed_of s w = record w {
  output_open = false;
  parts = at_transfer s.meta.file_name s.meta.common.transfer_id (some (part_of s w)) w.parts;
}

module _ (sys : System) (source : Contents) where
  -- The bytes are where a crash leaves them, under another name.
  moved_disk :
      (s : TransferState) (w w' : Machine)
      → w'.transfer ≡ w.transfer
      → w'.states ≡ w.states
      → disk_of s.meta w' ≡ disk_of s.meta w
      → At source s w
      → At source s w'
  moved_disk s w w' same_transfer same_states same_disk h = (
    subst (λ (t : Option TransferState). Open (SameFile s) t) (sym same_transfer) h.0,
    (λ saved e b marked.
        let (mine, there) =
          h.1 saved
            (ap
                (λ (f : List ℕ → ℕ → Option SavedState).
                  f s.meta.file_name s.meta.common.transfer_id)
                (sym same_states)
              ∙ e)
            b marked in
        (mine, (λ i inside. ap (λ (f : Contents). f i) same_disk ∙ there i inside))),
  )

  closed-At :
      (s : TransferState) (w : Machine)
      → w.output_open ≡ true
      → At source s w
      → At source s (closed_of s w)
  closed-At s w opened h =
      moved_disk s w (closed_of s w) refl refl
        (disk_of_closed s.meta (closed_of s w) (some (part_of s w)) (w.outputs s.meta.file_name)
            refl
            (at_transfer_same s.meta.file_name s.meta.common.transfer_id (some (part_of s w))
              w.parts)
            refl
          ∙ sym (disk_of_open s.meta w opened))
        h

  pub close-At : (s : TransferState) (w : Machine) → At source s w → At source s (close_output s w)
  close-At s w h =
      if-cases (At source s) (not w.output_open) (λ _. h)
        (λ still. closed-At s w (ground (arith, still)) h)

  -- The temporary file is closed, and in the directory.
  abbrev IsClosed : TransferState → Machine → Type 0
  IsClosed s w =
      (w.output_open ≡ false)
      × (part : StoredFile) × (w.parts s.meta.file_name s.meta.common.transfer_id ≡ some part)

  close-IsClosed :
      (s : TransferState)
      → Leads
          (λ w. At source s w × (w.output_open ≡ true))
          (λ w. At source s w × IsClosed s w)
          (At source s)
          (modify (close_output s))
  close-IsClosed s = record {
    lead = λ w (h, opened).
        let there =
          at_transfer_same s.meta.file_name s.meta.common.transfer_id (some (part_of s w))
            w.parts in
        if-cases (λ w. At source s w × IsClosed s w) (not w.output_open) {x = w} {y = closed_of s w}
          (λ shut. absurd (ground (arith, shut, opened)))
          (λ _. (closed-At s w opened h, (refl, part_of s w, there)));
  }

  move-At :
      (s : TransferState) (w : Machine)
      → At source s w
      → IsClosed s w
      → At source s (move_output s w)
  move-At s w h (closed, part, there) =
      moved_disk s w (move_output s w) refl refl
        (disk_of_closed s.meta (move_output s w) none (some part) closed
            (at_transfer_same s.meta.file_name s.meta.common.transfer_id none w.parts)
            (at_name_same s.meta.file_name (w.parts s.meta.file_name s.meta.common.transfer_id)
                w.outputs
              ∙ there)
          ∙ sym
              (disk_of_closed s.meta w (some part) (w.outputs s.meta.file_name) closed there refl))
        h

  remove-At : (s : TransferState) (w : Machine) → At source s w → At source s (remove_state sys s w)
  remove-At s w h = if-both (At source s) (sys.fails w.calls) h (
    h.0,
    (λ saved e. absurd (
        let gone =
          sym (at_transfer_same s.meta.file_name s.meta.common.transfer_id none w.states) ∙ e in
        cc)),
  )

  -- With the descriptor open the file is under one of its names after each call.
  pub publish-At :
      (s : TransferState)
      → Leads
          (λ w. At source s w × (w.output_open ≡ true))
          (At source s)
          (At source s)
          (publish sys s)
  unfolding publish call
  publish-At s = bind-Leads (close-IsClosed s) (λ _.
      bind-Leads
        (kept-Leads {I = λ w. At source s w × IsClosed s w} (record { keep = λ w h. h })
          (λ w h. h.0))
        (λ _.
          bind-Leads (record { lead = λ w h. move-At s w h.0 h.1 })
            (λ _. kept-Leads (record { keep = remove-At s }) (λ w h. h))))
