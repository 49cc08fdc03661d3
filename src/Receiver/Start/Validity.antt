-- ===== src/Receiver/Start/Validity.antt =====
-- The validity of a transfer that FILE_META starts or resumes.
use mathlib.Core.Path.{subst}
use site_repair_cast.Common.{
  inr, truncate_failed, inl, ◌==◌, open_failed, ◌||◌, ok_injective, not, Bool-cases, refl, ok, ◌∙◌,
  sym, [], zero, length, length-replicate, ◌∷◌, arith, suc, ◌≡◌, ◌^◌, ◌≤◌, replicate, Option, ◌<◌,
  List, All, ℕ, true, none, some,
}
use site_repair_cast.Protocol.Control.Proxy.{FileMetaMessage}
use site_repair_cast.Protocol.Packet.{payload_limit, MetaPacket}
use site_repair_cast.Receiver.Datagram.Validity.{IsValid, IsConsistent, sum}
use site_repair_cast.Receiver.Machine.{same_name, Machine, SavedState, System, StoredFile}
use site_repair_cast.Receiver.Machine.Keeps.{
  Keeps, if-Keeps, lift-Keeps, bind-Keeps, bind_with-Keeps,
}
use site_repair_cast.Receiver.Report.Validity.{
  complete-Keeps, send_frame-Keeps, put-Keeps, call-Keeps, Marked, IsWellFormed,
}
use site_repair_cast.Receiver.Start.{
  on_file_meta, answer_file_meta, meta_of, repeat_file_meta, start_transfer, initialize_transfer,
  open_output, load_from, resumed, fresh_transfer, fits_meta, load_receiver_state, blocks_match,
  count_marks,
}
use site_repair_cast.Receiver.State.{TransferState}

sum-replicate : (n : ℕ) → sum (replicate n 0) ≡ 0
sum-replicate zero = refl
sum-replicate (suc n) = omega (arith, sum-replicate n)

All-replicate : (n : ℕ) → All (λ r. r ≤ 1) (replicate n 0)
All-replicate zero = tt
All-replicate (suc n) = (omega arith, All-replicate n)

-- Marks of 0 and 1 have the count of `std::count` as their sum.
pub sum-count_marks : (rs : List ℕ) → All (λ r. r ≤ 1) rs → sum rs ≡ count_marks rs
unfolding count_marks
sum-count_marks [] h = refl
sum-count_marks (r ∷ rs) h = ground (arith, sum-count_marks rs h.1)

checked-IsConsistent :
    (m : MetaPacket)
    → m.file_size < 2 ^ 63
    → m.block_size ≡ payload_limit
    → blocks_match m.file_size m.block_size m.total_blocks ≡ true
    → IsConsistent m
unfolding blocks_match
checked-IsConsistent m small size h = record {
  blocks = size;
  covered = ground arith;
  not_over = ground arith;
  file_fits = small;
  count_fits = ground arith;
}

fresh_transfer-IsValid : (m : MetaPacket) → IsConsistent m → IsValid (fresh_transfer m)
fresh_transfer-IsValid m c = record {
  consistent = c;
  mapped = length-replicate m.total_blocks 0;
  flags = All-replicate m.total_blocks;
  counted = sym (sum-replicate m.total_blocks);
}

-- What a loaded state is known to be.
abbrev Fits : MetaPacket → Option (StoredFile × SavedState) → Type 0
Fits m none = Unit {0}
Fits m (some (part, saved)) =
    (length saved.received ≡ m.total_blocks)
    × (saved.received_count ≡ count_marks saved.received)
    × Marked saved

resumed-IsValid :
    (m : MetaPacket) (loaded : Option (StoredFile × SavedState))
    → IsConsistent m
    → Fits m loaded
    → IsValid (resumed (fresh_transfer m) loaded)
resumed-IsValid m none c f = fresh_transfer-IsValid m c
resumed-IsValid m (some (part, saved)) c f = record {
  consistent = c;
  mapped = f.0;
  flags = f.2;
  counted = f.1 ∙ sym (sum-count_marks saved.received f.2);
}

load_from-Fits :
    (sys : System) (m : MetaPacket) (part : Option StoredFile) (saved : Option SavedState)
    (w : Machine) (loaded : Option (StoredFile × SavedState))
    → ((s : SavedState) → saved ≡ some s → Marked s)
    → (load_from sys m part saved w).0 ≡ ok loaded
    → Fits m loaded
unfolding load_from fits_meta
load_from-Fits sys m none saved w loaded marked e = subst (λ l. Fits m l) (ok_injective e) tt
load_from-Fits sys m (some part) none w loaded marked e = subst (λ l. Fits m l) (ok_injective e) tt
load_from-Fits sys m (some part) (some saved) w loaded marked e =
    elim (Bool-cases (sys.fails w.calls || not (fits_meta m part saved))) [
      | inl bad ↦ subst (λ l. Fits m l) (ok_injective (rw bad at e)) tt
      | inr good ↦
          subst (λ l. Fits m l) (ok_injective (rw good at e))
            (ground arith, ground arith, marked saved refl)
    ]

load_from-Keeps :
    (sys : System) (m : MetaPacket) (part : Option StoredFile) (saved : Option SavedState)
    → Keeps IsWellFormed (load_from sys m part saved)
unfolding load_from
load_from-Keeps sys m none saved = record { keep = λ w h. h }
load_from-Keeps sys m (some part) none = record { keep = λ w h. h }
load_from-Keeps sys m (some part) (some saved) = record {
  keep = λ w h. elim (Bool-cases (sys.fails w.calls || not (fits_meta m part saved))) [
    | inl bad ↦ rw bad h
    | inr good ↦ rw good h
  ];
}

module _ (sys : System) where
  load-Keeps : (m : MetaPacket) → Keeps IsWellFormed (load_receiver_state sys m)
  unfolding load_receiver_state
  load-Keeps m = record {
    keep = λ w h.
        (load_from-Keeps sys m (w.parts m.file_name m.common.transfer_id)
            (w.states m.file_name m.common.transfer_id)).keep
          w h;
  }

  load-Fits :
      (m : MetaPacket) (w : Machine) (loaded : Option (StoredFile × SavedState))
      → IsWellFormed w
      → (load_receiver_state sys m w).0 ≡ ok loaded
      → Fits m loaded
  unfolding load_receiver_state
  load-Fits m w loaded h e =
      load_from-Fits sys m (w.parts m.file_name m.common.transfer_id)
        (w.states m.file_name m.common.transfer_id) w loaded (h.1 m.file_name m.common.transfer_id)
        e

  open_output-Keeps :
      (m : MetaPacket) (loaded : Option (StoredFile × SavedState))
      → IsValid (resumed (fresh_transfer m) loaded)
      → Keeps IsWellFormed (open_output sys (fresh_transfer m) loaded)
  unfolding open_output
  open_output-Keeps m loaded v =
      bind-Keeps (call-Keeps sys open_failed)
        (λ _. bind-Keeps (record { keep = λ w h. (v, h.1) }) (λ _. call-Keeps sys truncate_failed))

  initialize-Keeps :
      (m : MetaPacket) → m.file_size < 2 ^ 63 → Keeps IsWellFormed (initialize_transfer sys m)
  unfolding initialize_transfer
  initialize-Keeps m small =
      if-Keeps
        (not (m.block_size == payload_limit)
          || m.section_block_count == 0
          || not (blocks_match m.file_size m.block_size m.total_blocks))
        (λ _. lift-Keeps _)
        (λ good.
          let c = checked-IsConsistent m small (ground arith) (ground arith) in
          bind-Keeps (put-Keeps sys (fresh_transfer m) (fresh_transfer-IsValid m c)) (λ _.
            bind_with-Keeps (Fits m) (load-Keeps m) (load-Fits m) (λ loaded f.
              let v = resumed-IsValid m loaded c f in
              bind-Keeps (put-Keeps sys (resumed (fresh_transfer m) loaded) v)
                (λ _. bind-Keeps (open_output-Keeps m loaded v) (λ _. lift-Keeps _)))))

  start_transfer-Keeps :
      (message : FileMetaMessage) (safe_name : List ℕ)
      → message.file_size < 2 ^ 63
      → Keeps IsWellFormed (start_transfer sys message safe_name)
  unfolding start_transfer
  start_transfer-Keeps message safe_name small = bind-Keeps (call-Keeps sys _) (λ _.
      bind-Keeps (call-Keeps sys _) (λ _. bind-Keeps (call-Keeps sys _) (λ _.
        bind-Keeps (initialize-Keeps (meta_of message safe_name) small) (λ started.
          if-Keeps started
            (λ _. bind-Keeps (record { keep = λ w h. h }) (λ _. send_frame-Keeps sys _))
            (λ _. lift-Keeps _)))))

  repeat-Keeps :
      (s : TransferState) (message : FileMetaMessage) (safe_name : List ℕ)
      → Keeps IsWellFormed (repeat_file_meta sys s message safe_name)
  unfolding repeat_file_meta
  repeat-Keeps s message safe_name =
      if-Keeps (not (s.meta.common.transfer_id == message.transfer_id)) (λ _. lift-Keeps _)
        (λ _.
          if-Keeps (not (same_name s.meta.file_name safe_name)) (λ _. lift-Keeps _)
            (λ _.
              if-Keeps s.awaiting_complete_ack (λ _. complete-Keeps sys _ _ _)
                (λ _. send_frame-Keeps sys _)))

  answer-Keeps :
      (message : FileMetaMessage) (safe_name : List ℕ)
      → message.file_size < 2 ^ 63
      → (transfer : Option TransferState)
      → Keeps IsWellFormed (answer_file_meta sys message safe_name transfer)
  unfolding answer_file_meta
  answer-Keeps message safe_name small none = start_transfer-Keeps message safe_name small
  answer-Keeps message safe_name small (some s) = repeat-Keeps s message safe_name

  pub file_meta-Keeps :
      (message : FileMetaMessage)
      → message.file_size < 2 ^ 63
      → Keeps IsWellFormed (on_file_meta sys message)
  unfolding on_file_meta
  file_meta-Keeps message small =
      if-Keeps (not (message.section_id == 0)) (λ _. lift-Keeps _)
        (λ _.
          if-Keeps (not (message.block_size == payload_limit)) (λ _. lift-Keeps _)
            (λ _.
              if-Keeps
                (not (blocks_match message.file_size message.block_size message.total_blocks))
                (λ _. lift-Keeps _)
                (λ _. bind-Keeps (lift-Keeps _) (λ safe_name. record {
                  keep = λ w h. (answer-Keeps message safe_name small w.transfer).keep w h;
                }))))
