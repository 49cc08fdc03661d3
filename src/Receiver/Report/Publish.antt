-- ===== src/Receiver/Report/Publish.antt =====
-- The output file of a transfer that `finalize_transfer` accepts.
use site_repair_cast.Common.{
  ◌<◌, read_failed, ◌==◌, ◌+◌, if-both, rename_failed, ap, ◌∙◌, ok_injective, not, some_injective,
  if-cases, sym, refl, arith, ℕ, ◌≡◌, sync_failed, List, Error, Option, Result, true, none, some,
  ok, err,
}
use site_repair_cast.FileIo.{Contents}
use site_repair_cast.Receiver.Datagram.Delivery.{complete_output}
use site_repair_cast.Receiver.Datagram.Integrity.{Agrees}
use site_repair_cast.Receiver.Datagram.Validity.{IsValid}
use site_repair_cast.Receiver.Machine.{
  put_transfer, same_name, sync_output, modify, close_output, return, and_then, call, Action,
  call_output, Machine, StoredFile, System, ◌>>=◌, ◌>>◌,
}
use site_repair_cast.Receiver.Machine.Paths.{same_name_sound, at_name_same, at_transfer_same}
use site_repair_cast.Receiver.Report.{
  remove_state, finalize_transfer, move_output, digest_of, publish,
}
use site_repair_cast.Receiver.State.{TransferState}

abbrev pub finished_file : TransferState → StoredFile
finished_file s = record { size = s.meta.file_size; contents = s.output; durable = s.output }

-- The chain up to its first exception.
bind-post {ℓ κ} :
    {A : Type ℓ} {B : Type κ} (Q : Result B × Machine → Type 0) (m : Action A) (next : A → Action B)
    (w : Machine)
    → ((e : Error) (w' : Machine) → Q (err e, w'))
    → ((a : A) → (m w).0 ≡ ok a → Q (next a (m w).1))
    → Q ((m >>= next) w)
unfolding ◌>>=◌
bind-post {A = A} Q m next w thrown each = after (m w) each
  where
    after : (r : Result A × Machine) → ((a : A) → r.0 ≡ ok a → Q (next a r.1)) → Q (and_then r next)
    after (ok a, w') each = each a refl
    after (err e, w') each = thrown e w'

module _ (sys : System) (s : TransferState) where
  -- The output file, if the chain has returned a digest.
  abbrev Published : Result (Option (List ℕ)) × Machine → Type 0
  Published r =
      (digest : List ℕ)
      → r.0 ≡ ok (some digest)
      → (digest ≡ s.meta.sha256)
        × (r.1.outputs s.meta.file_name ≡ some (finished_file s))
        × (r.1.parts s.meta.file_name s.meta.common.transfer_id ≡ none)
        × (s.received_count ≡ s.meta.total_blocks)

  thrown : (e : Error) (w' : Machine) → Published (err e, w')
  thrown e w' digest h = absurd cc

  sync_open :
      (w : Machine) (a : Unit {0}) → (call_output sys sync_failed w).0 ≡ ok a → w.output_open ≡ true
  unfolding call_output
  sync_open w a h = ground arith

  -- The parts that `close_output` leaves, with the descriptor open.
  closed_parts :
      (w : Machine)
      → w.output_open ≡ true
      → w.durable ≡ s.output
      → (close_output s w).parts s.meta.file_name s.meta.common.transfer_id ≡ some (finished_file s)
  closed_parts w opened synced =
      if-cases
        (λ (w' : Machine).
          w'.parts s.meta.file_name s.meta.common.transfer_id ≡ some (finished_file s))
        (not w.output_open) (λ closed. absurd (ground arith))
        (λ _.
          at_transfer_same s.meta.file_name s.meta.common.transfer_id _ w.parts
          ∙ ap
              (λ (d : Contents).
                some (record { size = s.meta.file_size; contents = s.output; durable = d }))
              synced)

  -- The output file stands, and the temporary one is gone.
  abbrev Moved : Machine → Type 0
  Moved w =
      (w.outputs s.meta.file_name ≡ some (finished_file s))
      × (w.parts s.meta.file_name s.meta.common.transfer_id ≡ none)

  abbrev WhenDone : Result (Unit {0}) × Machine → Type 0
  WhenDone r = (a : Unit {0}) → r.0 ≡ ok a → Moved r.1

  move_output-Moved :
      (w : Machine)
      → w.parts s.meta.file_name s.meta.common.transfer_id ≡ some (finished_file s)
      → Moved (move_output s w)
  move_output-Moved w whole = (
    at_name_same s.meta.file_name _ w.outputs ∙ whole,
    at_transfer_same s.meta.file_name s.meta.common.transfer_id none w.parts,
  )

  publish-Moved :
      (w : Machine) → w.output_open ≡ true → w.durable ≡ s.output → WhenDone (publish sys s w)
  unfolding publish call
  publish-Moved w opened synced =
      let failing : (e : Error) (w' : Machine) → WhenDone (err e, w') = (λ e w' a h. absurd cc) in
      let closed = close_output s w in
      let renamed = move_output s (record closed { calls = closed.calls + 1 }) in
      let moved =
        move_output-Moved (record closed { calls = closed.calls + 1 })
          (closed_parts w opened synced) in
      bind-post WhenDone (modify (close_output s)) _ w failing (λ _ _.
        bind-post WhenDone (call sys rename_failed) _ closed failing (λ _ _.
          bind-post WhenDone (modify (move_output s)) (λ _. modify (remove_state sys s))
            (record closed { calls = closed.calls + 1 }) failing
            (λ _ _ _ _. if-both Moved (sys.fails renamed.calls) moved moved)))

  digest-Published :
      (w : Machine)
      → w.output_open ≡ true
      → w.durable ≡ s.output
      → s.received_count ≡ s.meta.total_blocks
      → digest_of sys s ≡ s.meta.sha256
      → Published ((publish sys s >> return (some (digest_of sys s))) w)
  digest-Published w opened synced whole same =
      bind-post Published (publish sys s) _ w thrown (λ a done digest h.
        let (there, gone) = publish-Moved w opened synced a done in
        (sym (some_injective (ok_injective h)) ∙ same, there, gone, whole))

  abbrev WhenSynced : Result (Unit {0}) × Machine → Type 0
  WhenSynced r = (a : Unit {0}) → r.0 ≡ ok a → (r.1.output_open ≡ true) × (r.1.durable ≡ s.output)

  sync_output-WhenSynced : (w : Machine) → WhenSynced (sync_output sys s w)
  unfolding sync_output call_output
  sync_output-WhenSynced w =
      bind-post WhenSynced (call_output sys sync_failed) _ w (λ e w' a h. absurd cc)
        (λ a done _ _. (sync_open w a done, refl))

  -- What the output file holds once a digest is returned.
  pub finalize_transfer-Published : (w : Machine) → Published (finalize_transfer sys s w)
  unfolding finalize_transfer call
  finalize_transfer-Published w =
      let synced = (sync_output sys s w).1 in
      let checked : Machine = record synced { calls = synced.calls + 1 } in
      if-cases (λ (act : Action (Option (List ℕ))). Published (act w))
        (not (s.received_count == s.meta.total_blocks)) (λ _ digest h. absurd cc)
        (λ whole. bind-post Published (sync_output sys s) _ w thrown (λ a done.
          let (opened, durable) = sync_output-WhenSynced w a done in
          bind-post Published (call sys read_failed) _ synced thrown (λ _ _.
            if-cases (λ (act : Action (Option (List ℕ))). Published (act checked))
              (not (same_name (digest_of sys s) s.meta.sha256))
              (λ _.
                bind-post Published (put_transfer (record s { final_sha_failed = true })) _ checked
                  thrown (λ _ _ digest h. absurd cc))
              (λ same.
                digest-Published checked opened durable (ground arith)
                  (same_name_sound _ _ (ground arith))))))

-- If a valid transfer whose marked blocks hold the bytes of `source` is finalized and a digest is
-- returned, the output path holds a file of the size of the transfer whose bytes on the disk are
-- those of `source`, and the digest is that of the metadata.
pub finalize_transfer-source :
    (sys : System) (source : Contents) (s : TransferState) (w : Machine) (digest : List ℕ)
    → IsValid s
    → Agrees source s
    → (finalize_transfer sys s w).0 ≡ ok (some digest)
    → (file : StoredFile) × ((finalize_transfer sys s w).1.outputs s.meta.file_name ≡ some file)
      × (file.size ≡ s.meta.file_size)
      × ((i : ℕ) → i < s.meta.file_size → file.durable i ≡ source i)
      × (digest ≡ s.meta.sha256)
finalize_transfer-source sys source s w digest v a h =
    let (same, there, _, whole) = finalize_transfer-Published sys s w digest h in
    (
      finished_file s,
      there,
      refl,
      (λ i inside. complete_output source s i (v, a) whole inside),
      same,
    )
