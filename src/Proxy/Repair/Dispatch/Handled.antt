-- ===== src/Proxy/Repair/Dispatch/Handled.antt =====
-- The dispatch of `re_to_re` for one source and target.
use native.Mathlib.Decide.{ℕ_discrete}
use site_repair_cast.Common.{
  length-drop, Bool-cases, ◌+◌, ◌∙◌, ap, ◌>>=◌, refl, ltb, zero, inl, [], suc, ◌&&◌, arith, inr,
  ◌==◌, ◌≤◌, ◌⊎◌, ◌∷◌, drop, take, true, ok, ◌||◌, false, ◌≡◌, length, Result, Bool, ℕ, List,
}
use site_repair_cast.Protocol.Control.Backfill.{peer_block_limit, encode_peer_repair_task}
use site_repair_cast.Proxy.Connection.{Address}
use site_repair_cast.Proxy.Repair.Blocks.{occurs-append, occurs}
use site_repair_cast.Proxy.Repair.Dispatch.{
  task_of, send_chunks, send_task, add_fallback, SentTask, Repairs,
}
use site_repair_cast.Proxy.Repair.Plan.{update}
use site_repair_cast.Receiver.State.{u64}

-- A task for the target has the block.
abbrev pub tasked : List SentTask → ℕ → ℕ → Bool
tasked [] target b = false
tasked (sent ∷ more) target b =
    (target == sent.target && occurs b sent.task.block_ids) || tasked more target b

abbrev pub handled : Repairs → ℕ → ℕ → Bool
handled d target b = occurs b (d.fallback target) || tasked d.tasks target b

-- The result is no error, keeps what is handled, and handles for each target what is wanted.
pub record Handles (d : Repairs) (wanted : ℕ → ℕ → Type 0) (r : Result Repairs) : Type 0 where
  pub final : Repairs
  pub returned : r ≡ ok final
  pub kept : (t b : ℕ) → handled d t b ≡ true → handled final t b ≡ true
  pub done : (t b : ℕ) → wanted t b → handled final t b ≡ true

pub Handles-bind :
    (d : Repairs) (first second wanted : ℕ → ℕ → Type 0) (r : Result Repairs)
    (k : Repairs → Result Repairs)
    → ((t b : ℕ) → wanted t b → first t b ⊎ second t b)
    → Handles d first r
    → ((d' : Repairs) → Handles d' second (k d'))
    → Handles d wanted (r >>= k)
Handles-bind d first second wanted r k split h g = record {
  final = (g h.final).final;
  returned = ap (λ (r : Result Repairs). r >>= k) h.returned ∙ (g h.final).returned;
  kept = λ t b old. (g h.final).kept t b (h.kept t b old);
  done = λ t b w. elim (split t b w) [
    | inl now ↦ (g h.final).kept t b (h.done t b now)
    | inr later ↦ (g h.final).done t b later
  ];
}

occurs-take-drop :
    (b n : ℕ) (xs : List ℕ)
    → occurs b xs ≡ true
    → (occurs b (take n xs) ≡ true) ⊎ (occurs b (drop n xs) ≡ true)
occurs-take-drop b zero xs h = inr h
occurs-take-drop b (suc n) [] h = inl h
occurs-take-drop b (suc n) (x ∷ xs) h = grind (arith, occurs-take-drop b n xs)

length-take-le : (n : ℕ) (xs : List ℕ) → length (take n xs) ≤ n
length-take-le zero xs = omega arith
length-take-le (suc n) [] = omega arith
length-take-le (suc n) (x ∷ xs) = omega (arith, length-take-le n xs)

add_fallback-handled :
    (d : Repairs) (target : ℕ) (blocks : List ℕ)
    → ((t b : ℕ) → handled d t b ≡ true → handled (add_fallback d target blocks) t b ≡ true)
      × ((b : ℕ) → occurs b blocks ≡ true → handled (add_fallback d target blocks) target b ≡ true)
add_fallback-handled d target blocks = (
  λ t b h. elim (ℕ_discrete t target) [
    | yes same ↦ grind (arith, same, occurs-append b (d.fallback target) blocks, h)
    | no other ↦ ground (arith, other, h)
  ],
  λ b h. ground (arith, occurs-append b (d.fallback target) blocks),
)

abbrev pub For : ℕ → List ℕ → ℕ → ℕ → Type 0
For target blocks t b = (t ≡ target) × (occurs b blocks ≡ true)

pub add_fallback-Handles :
    (d d' : Repairs) (target : ℕ) (blocks : List ℕ)
    → ((t b : ℕ) → handled d t b ≡ true → handled d' t b ≡ true)
    → Handles d (For target blocks) (ok (add_fallback d' target blocks))
add_fallback-Handles d d' target blocks same = record {
  final = add_fallback d' target blocks;
  returned = refl;
  kept = λ t b old. (add_fallback-handled d' target blocks).0 t b (same t b old);
  done = λ t b w. rw w.0 ((add_fallback-handled d' target blocks).1 b w.1);
}

module _ (delivers : ℕ → Bool) (address : ℕ → Address) (transfer_id section_id round_id : ℕ) where
  send_task-Handles :
      (source target : ℕ) (blocks : List ℕ) (d : Repairs)
      → 1 ≤ length blocks
      → length blocks ≤ peer_block_limit
      → Handles d
          (For target blocks)
          (send_task delivers address transfer_id section_id round_id source target blocks d)
  unfolding send_task encode_peer_repair_task
  send_task-Handles source target blocks d some_blocks few =
      let valid : (length blocks == 0 || ltb peer_block_limit (length blocks)) ≡ false =
        ground arith in
      let task_id = u64 (d.task_sequence + 1) in
      rw valid (elim (Bool-cases (d.control_open source && delivers task_id)) [
        | inl delivered ↦ rw delivered (record {
          final = record d {
            task_sequence = task_id;
            tasks =
                record {
                  source = source;
                  target = target;
                  task =
                      task_of delivers address transfer_id section_id round_id task_id target
                        blocks;
                }
                ∷ d.tasks;
          };
          returned = refl;
          kept = λ t b old. ground (arith, old);
          done = λ t b w. ground (arith, w);
        })
        | inr failed ↦
            let closed = record d {
              task_sequence = task_id;
              control_open = update d.control_open source false;
            } in
            rw failed (add_fallback-Handles d closed target blocks (λ t b old. old))
      ])

  pub send_chunks-Handles :
      (fuel source target : ℕ) (blocks : List ℕ) (d : Repairs)
      → length blocks ≤ fuel
      → Handles d
          (For target blocks)
          (send_chunks delivers address transfer_id section_id round_id fuel source target blocks d)
  unfolding send_chunks
  send_chunks-Handles zero source target [] d h = record {
    final = d;
    returned = refl;
    kept = λ t b old. old;
    done = λ t b w. absurd cc;
  }
  send_chunks-Handles zero source target (b ∷ blocks) d h = absurd (omega arith)
  send_chunks-Handles (suc fuel) source target [] d h = record {
    final = d;
    returned = refl;
    kept = λ t b old. old;
    done = λ t b w. absurd cc;
  }
  send_chunks-Handles (suc fuel) source target (b ∷ blocks) d h =
      Handles-bind d (For target (take peer_block_limit (b ∷ blocks)))
        (For target (drop peer_block_limit (b ∷ blocks))) (For target (b ∷ blocks)) _ _
        (λ t c w. elim (occurs-take-drop c peer_block_limit (b ∷ blocks) w.1) [
          | inl now ↦ inl (w.0, now)
          | inr later ↦ inr (w.0, later)
        ])
        (send_task-Handles source target (take peer_block_limit (b ∷ blocks)) d (ground arith)
          (length-take-le peer_block_limit (b ∷ blocks)))
        (λ d'.
          send_chunks-Handles fuel source target (drop peer_block_limit (b ∷ blocks)) d'
            (omega (arith, length-drop peer_block_limit (b ∷ blocks))))
