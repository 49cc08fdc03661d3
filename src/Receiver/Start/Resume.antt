-- ===== src/Receiver/Start/Resume.antt =====
-- A state that was saved, and the transfer that a restarted receiver resumes from it.
use mathlib.Core.Path.{subst}
use site_repair_cast.Common.{
  ap, ◌==◌, ◌%◌, ◌-◌, ◌^◌, Bool, ◌/◌, ℕ, none, ◌+◌, ◌<◌, refl, arith, ◌∙◌, not, ◌||◌, sym, Option,
  Result, if-cases, ◌≡◌, some, true, false, ok,
}
use site_repair_cast.Protocol.Packet.{payload_limit, MetaPacket}
use site_repair_cast.Protocol.Section.Partition.{quotient_unique}
use site_repair_cast.Receiver.Datagram.Validity.{IsConsistent, IsValid}
use site_repair_cast.Receiver.Machine.{
  and_then, return, ◌>>◌, put_transfer, Action, ◌>>=◌, call, at_transfer, saved_of, Machine,
  SavedState, StoredFile, System,
}
use site_repair_cast.Receiver.Machine.Paths.{same_name_refl}
use site_repair_cast.Receiver.Start.{
  initialize_transfer, open_output, blocks_match, fresh_transfer, resumed, count_marks,
  load_receiver_state, load_from, fits_meta,
}
use site_repair_cast.Receiver.Start.Validity.{sum-count_marks}
use site_repair_cast.Receiver.State.{TransferState}

-- The block count of consistent metadata is the one that is expected.
blocks_match-consistent :
    (m : MetaPacket) → IsConsistent m → blocks_match m.file_size m.block_size m.total_blocks ≡ true
unfolding blocks_match
blocks_match-consistent m c =
    let expected : (m.file_size + 1_199) / 1_200 ≡ m.total_blocks =
      quotient_unique m.total_blocks (m.file_size + 1_199) 1_200 (omega (arith, c.not_over))
        (omega (arith, c.covered)) in
    let whole : (m.file_size + (m.block_size + 2 ^ 64 - 1)) % 2 ^ 64 ≡ m.file_size + 1_199 =
      omega (arith, c.blocks, c.file_fits) in
    rw (whole, c.blocks, expected) (ground (arith, c.count_fits))

saved_of-fits :
    (s : TransferState) (part : StoredFile)
    → IsValid s
    → part.size ≡ s.meta.file_size
    → 0 < s.meta.total_blocks
    → fits_meta s.meta part (saved_of s) ≡ true
unfolding fits_meta
saved_of-fits s part v size some_blocks =
    let counted : count_marks s.received ≡ s.received_count =
      sym (sum-count_marks s.received v.flags) ∙ sym v.counted in
    rw (same_name_refl s.meta.file_name, same_name_refl s.meta.sha256, counted, v.mapped, size)
      (ground arith)

load_from-fits :
    (sys : System) (m : MetaPacket) (part : StoredFile) (saved : SavedState) (w : Machine)
    → sys.fails w.calls ≡ false
    → fits_meta m part saved ≡ true
    → load_from sys m (some part) (some saved) w
      ≡ (ok (some (part, saved)), record w { calls = w.calls + 1 })
unfolding load_from
load_from-fits sys m part saved w works fits = rw (works, fits) refl

module _ (sys : System) (s : TransferState) (part : StoredFile) (w : Machine) where
  -- The machine that goes on with the file.
  abbrev pub with_resumed : Machine
  with_resumed = record w {
    transfer = some (record (fresh_transfer s.meta) {
      output = part.contents;
      received = s.received;
      received_count = s.received_count;
    });
    output_open = true;
    durable = part.durable;
    parts = at_transfer s.meta.file_name s.meta.common.transfer_id none w.parts;
    calls = w.calls + 1 + 1 + 1;
  }

  load_saved :
      (transfer : Option TransferState)
      → IsValid s
      → part.size ≡ s.meta.file_size
      → 0 < s.meta.total_blocks
      → w.parts s.meta.file_name s.meta.common.transfer_id ≡ some part
      → w.states s.meta.file_name s.meta.common.transfer_id ≡ some (saved_of s)
      → sys.fails w.calls ≡ false
      → load_receiver_state sys s.meta (record w { transfer = transfer })
        ≡ (ok (some (part, saved_of s)), record w { transfer = transfer; calls = w.calls + 1 })
  unfolding load_receiver_state
  load_saved transfer v size some_blocks there marks works =
      let Loads : Option StoredFile → Option SavedState → Type 0 = (λ part' saved.
        load_from sys s.meta part' saved (record w { transfer = transfer })
        ≡ (ok (some (part, saved_of s)), record w { transfer = transfer; calls = w.calls + 1 })) in
      let loads : Loads (some part) (some (saved_of s)) =
        load_from-fits sys s.meta part (saved_of s) (record w { transfer = transfer }) works
          (saved_of-fits s part v size some_blocks) in
      subst
        (λ (p : Option StoredFile). Loads p (w.states s.meta.file_name s.meta.common.transfer_id))
        (sym there) (subst (λ (o : Option SavedState). Loads (some part) o) (sym marks) loads)

  -- If a valid transfer with blocks and a section size that is not 0 was saved, its state file,
  -- taken as the record of what its text says, and its temporary file of the right size are in
  -- place and no system call fails, a receiver that starts it again goes on with the marks and the
  -- count that were saved, and with the temporary file as it is: its contents are read, its bytes
  -- on the disk are kept, and the descriptor is open.
  pub initialize_transfer-saved_of :
      IsValid s
      → 0 < s.meta.total_blocks
      → 0 < s.meta.section_block_count
      → part.size ≡ s.meta.file_size
      → w.parts s.meta.file_name s.meta.common.transfer_id ≡ some part
      → w.states s.meta.file_name s.meta.common.transfer_id ≡ some (saved_of s)
      → ((k : ℕ) → sys.fails k ≡ false)
      → initialize_transfer sys s.meta w ≡ (ok true, with_resumed)
  unfolding initialize_transfer open_output call ◌>>=◌
  initialize_transfer-saved_of v some_blocks sections size there marks works =
      let matches = blocks_match-consistent s.meta v.consistent in
      let next : Option (StoredFile × SavedState) → Action Bool = (λ loaded.
        put_transfer (resumed (fresh_transfer s.meta) loaded)
        >> (open_output sys (fresh_transfer s.meta) loaded >> return true)) in
      if-cases (λ (act : Action Bool). act w ≡ (ok true, with_resumed))
        (not (s.meta.block_size == payload_limit)
          || s.meta.section_block_count == 0
          || not (blocks_match s.meta.file_size s.meta.block_size s.meta.total_blocks))
        (λ bad. absurd (grind (arith, bad, matches, v.consistent.blocks, sections)))
        (λ _.
          ap (λ (r : Result (Option (StoredFile × SavedState)) × Machine). and_then r next)
            (load_saved (some (fresh_transfer s.meta)) v size some_blocks there marks
              (works w.calls))
          ∙ rw (works (w.calls + 1), works (w.calls + 1 + 1)) refl)
