-- ===== src/Proxy/Repair/Plan/Steps.antt =====
-- What the plan of one missing block can become, as a rule of induction.
use site_repair_cast.Common.{
  refl, none, some, Option, [], ◌∷◌, ◌++◌, false, ◌+◌, true, ◌≡◌, ◌<◌, Bool, arith, ℕ,
}
use site_repair_cast.Protocol.Section.{u32}
use site_repair_cast.Proxy.Repair.Plan.{
  find_from, may_serve, assign, serves, Plan, update, plan_target,
}
use site_repair_cast.Proxy.Repair.Plan.Choice.{find_from-none, find_from-passes}

pub update-All {ℓ ℓ'} :
    {A : Type ℓ} (P : ℕ → A → Type ℓ') (f : ℕ → A) (i : ℕ) (v : A)
    → ((k : ℕ) → P k (f k))
    → P i v
    → (k : ℕ) → P k (update f i v k)
update-All P f i v old new k = ground (arith, old k, new)

choice_cases {ℓ} :
    {A : Type 0} (P : A → Type ℓ) (o o' : Option ℕ) (f g : ℕ → A) (z : A)
    → ((i : ℕ) → o ≡ some i → P (f i))
    → ((i : ℕ) → o' ≡ some i → P (g i))
    → (o ≡ none → o' ≡ none → P z)
    → P (elim o [ some i ↦ f i | none ↦ elim o' [ some i ↦ g i | none ↦ z ] ])
choice_cases P (some i) o' f g z old new left = old i refl
choice_cases P none (some i) f g z old new left = new i refl
choice_cases P none none f g z old new left = left refl refl

-- A property of the next plan holds when it holds with the block at a source that serves the target
-- already, at a new source, and in the fallback when no receiver can be the source.
pub plan_target_cases :
    (P : Plan → Type 0) (has : ℕ → ℕ → Bool) (n first_block : ℕ) (plan : Plan)
    (local_block target : ℕ)
    → ((i : ℕ)
        → i < n
        → serves has plan local_block target i ≡ true
        → P (assign plan i target (u32 (first_block + local_block))))
    → ((i : ℕ)
        → i < n
        → may_serve has plan local_block target i ≡ true
        → P (
            assign
              (record plan {
                source_target_count =
                    update plan.source_target_count i (plan.source_target_count i + 1);
              })
              i
              target
              (u32 (first_block + local_block))))
    → (((i : ℕ) → i < n → serves has plan local_block target i ≡ false)
        → ((i : ℕ) → i < n → may_serve has plan local_block target i ≡ false)
        → P (record plan {
          fallback =
              update plan.fallback target
                (plan.fallback target ++ (u32 (first_block + local_block) ∷ []));
        }))
    → P (plan_target has n first_block plan local_block target)
unfolding plan_target
plan_target_cases P has n first_block plan local_block target old new none_left =
    choice_cases P (find_from n 0 (serves has plan local_block target))
      (find_from n 0 (may_serve has plan local_block target)) _ _ _
      (λ i e. let found = find_from-passes n 0 _ i e in old i (omega (arith, found.2)) found.0)
      (λ i e. let found = find_from-passes n 0 _ i e in new i (omega (arith, found.2)) found.0)
      (λ e e'.
        none_left (λ i inside. find_from-none n 0 _ i e (omega arith) (omega arith))
          (λ i inside. find_from-none n 0 _ i e' (omega arith) (omega arith)))
