-- ===== src/Proxy/Repair/Plan/Sources.antt =====
-- The planning loop of `re_to_re`: the load of the sources.
use native.Mathlib.Decide.{ℕ_discrete}
use site_repair_cast.Common.{
  ◌<◌, ◌++◌, length, leb, refl, Bool-cases, ◌∷◌, [], inr, inl, arith, ltb, zero, true, false,
  if◌then◌else◌, ◌≢◌, ◌≡◌, ◌≤◌, ◌+◌, suc, Bool, List, ℕ,
}
use site_repair_cast.Protocol.Section.{u32}
use site_repair_cast.Proxy.Repair.Blocks.{occurs-last, occurs}
use site_repair_cast.Proxy.Repair.Plan.{
  multicast_threshold, empty_plan, plan_blocks, plan_block, plan_targets, assign, max_peer_targets,
  plan_target, Plan, is_empty, update,
}
use site_repair_cast.Proxy.Repair.Plan.Steps.{update-All, plan_target_cases}

-- How many of the first `m` targets a source serves.
abbrev pub served : (ℕ → List ℕ) → ℕ → ℕ
served row zero = 0
served row (suc m) = served row m + (if is_empty (row m) then 0 else 1)

served-new :
    (row : ℕ → List ℕ) (t : ℕ) (v : List ℕ) (m : ℕ)
    → served (update row t v) m ≤ served row m + (if ltb t m then 1 else 0)
served-new row t v zero = omega arith
served-new row t v (suc m) = grind (arith, served-new row t v m)

served-old :
    (row : ℕ → List ℕ) (t : ℕ) (v : List ℕ) (m : ℕ)
    → is_empty (row t) ≡ false
    → served (update row t v) m ≤ served row m
served-old row t v zero h = omega arith
served-old row t v (suc m) h = elim (ℕ_discrete m t) [
  | yes same ↦ grind (arith, served-old row t v m h, same)
  | no other ↦ grind (arith, served-old row t v m h)
]

-- Every block is one of the `blocks` of the section, planned for a source that can send it and is
-- not the target, a source serves at most as many targets as it counts, and counts at most two.
pub record IsFair (has : ℕ → ℕ → Bool) (blocks first_block : ℕ) (plan : Plan) : Type 0 where
  pub limited : (i : ℕ) → plan.source_target_count i ≤ max_peer_targets
  pub counted : (i m : ℕ) → served (plan.peer_plan i) m ≤ plan.source_target_count i
  pub owned :
      (i t b : ℕ)
      → occurs b (plan.peer_plan i t) ≡ true
      → (i ≢ t) × (l : ℕ) × (l < blocks) × (b ≡ u32 (first_block + l)) × (has i l ≡ true)

-- One more block of a source for a target.
assign-owned :
    (has : ℕ → ℕ → Bool) (blocks first_block : ℕ) (plan : Plan) (i target l : ℕ)
    → IsFair has blocks first_block plan
    → i ≢ target
    → l < blocks
    → has i l ≡ true
    → (s t b : ℕ) → occurs b ((assign plan i target (u32 (first_block + l))).peer_plan s t) ≡ true
    → (s ≢ t) × (k : ℕ) × (k < blocks) × (b ≡ u32 (first_block + k)) × (has s k ≡ true)
assign-owned has blocks first_block plan i target l fair other within owns s t b =
    update-All
      (λ s row.
        occurs b (row t) ≡ true
        → (s ≢ t) × (k : ℕ) × (k < blocks) × (b ≡ u32 (first_block + k)) × (has s k ≡ true))
      plan.peer_plan i _ (λ s. fair.owned s t b)
      (update-All
        (λ t planned.
          occurs b planned ≡ true
          → (i ≢ t) × (k : ℕ) × (k < blocks) × (b ≡ u32 (first_block + k)) × (has i k ≡ true))
        (plan.peer_plan i) target _ (λ t. fair.owned i t b)
        (λ h. elim (occurs-last b (u32 (first_block + l)) (plan.peer_plan i target) h) [
          | inl old ↦ fair.owned i target b old
          | inr new ↦ (other, l, within, new, owns)
        ])
        t)
      s

counts_new :
    (plan : Plan) (i t : ℕ) (v : List ℕ)
    → ((s m : ℕ) → served (plan.peer_plan s) m ≤ plan.source_target_count s)
    → (s m : ℕ)
    → served (update plan.peer_plan i (update (plan.peer_plan i) t v) s) m
      ≤ update plan.source_target_count i (plan.source_target_count i + 1) s
counts_new plan i t v counted s m = elim (ℕ_discrete s i) [
  | yes same ↦ ground (arith, same, counted i m, served-new (plan.peer_plan i) t v m)
  | no other ↦ ground (arith, other, counted s m)
]

plan_target-IsFair :
    (has : ℕ → ℕ → Bool) (n blocks first_block : ℕ) (plan : Plan) (local_block target : ℕ)
    → local_block < blocks
    → IsFair has blocks first_block plan
    → IsFair has blocks first_block (plan_target has n first_block plan local_block target)
plan_target-IsFair has n blocks first_block plan local_block target within fair =
    plan_target_cases (IsFair has blocks first_block) has n first_block plan local_block target
      (λ i inside passes. record {
        limited = fair.limited;
        counted = λ s m.
            update-All (λ s row. served row m ≤ plan.source_target_count s) plan.peer_plan i _
              (λ s. fair.counted s m)
              (omega (
                arith,
                fair.counted i m,
                served-old (plan.peer_plan i) target
                    (plan.peer_plan i target ++ (u32 (first_block + local_block) ∷ [])) m
                    (ground (arith, passes)),
              ))
              s;
        owned =
            assign-owned has blocks first_block plan i target local_block fair
              (ground (arith, passes)) within (ground (arith, passes));
      })
      (λ i inside passes. record {
        limited =
            update-All (λ s count. count ≤ max_peer_targets) plan.source_target_count i _
              fair.limited (ground (arith, passes));
        counted = counts_new plan i target _ fair.counted;
        owned =
            assign-owned has blocks first_block plan i target local_block fair
              (ground (arith, passes)) within (ground (arith, passes));
      })
      (λ unserved full. record {
        limited = fair.limited;
        counted = fair.counted;
        owned = fair.owned;
      })

plan_targets-IsFair :
    (has : ℕ → ℕ → Bool) (n blocks first_block : ℕ) (plan : Plan) (local_block : ℕ)
    (targets : List ℕ)
    → local_block < blocks
    → IsFair has blocks first_block plan
    → IsFair has blocks first_block (plan_targets has n first_block plan local_block targets)
unfolding plan_targets
plan_targets-IsFair has n blocks first_block plan local_block [] within fair = fair
plan_targets-IsFair has n blocks first_block plan local_block (target ∷ targets) within fair =
    plan_targets-IsFair has n blocks first_block
      (plan_target has n first_block plan local_block target) local_block targets within
      (plan_target-IsFair has n blocks first_block plan local_block target within fair)

plan_block-IsFair :
    (has : ℕ → ℕ → Bool) (n blocks first_block : ℕ) (plan : Plan) (local_block : ℕ)
    (targets : List ℕ)
    → local_block < blocks
    → IsFair has blocks first_block plan
    → IsFair has blocks first_block (plan_block has n first_block plan local_block targets)
unfolding plan_block
plan_block-IsFair has n blocks first_block plan local_block targets within fair =
    elim (Bool-cases (leb multicast_threshold (length targets))) [
      | inl many ↦
          rw many (record { limited = fair.limited; counted = fair.counted; owned = fair.owned })
      | inr few ↦
          rw few (plan_targets-IsFair has n blocks first_block plan local_block targets within fair)
    ]

-- A plan that starts fair stays fair, whatever the table of missing blocks.
pub plan_blocks-IsFair :
    (has : ℕ → ℕ → Bool) (n blocks first_block : ℕ) (plan : Plan) (local_block : ℕ)
    (rows : List (List ℕ))
    → local_block + length rows ≤ blocks
    → IsFair has blocks first_block plan
    → IsFair has blocks first_block (plan_blocks has n first_block plan local_block rows)
unfolding plan_blocks
plan_blocks-IsFair has n blocks first_block plan local_block [] within fair = fair
plan_blocks-IsFair has n blocks first_block plan local_block (targets ∷ rows) within fair =
    plan_blocks-IsFair has n blocks first_block
      (plan_block has n first_block plan local_block targets) (local_block + 1) rows (omega arith)
      (plan_block-IsFair has n blocks first_block plan local_block targets (omega arith) fair)

served_none : (m : ℕ) → served (λ target. []) m ≡ 0
served_none zero = refl
served_none (suc m) = omega (arith, served_none m)

pub empty_plan-IsFair :
    (has : ℕ → ℕ → Bool) (blocks first_block : ℕ) → IsFair has blocks first_block empty_plan
empty_plan-IsFair has blocks first_block = record {
  limited = λ i. omega arith;
  counted = λ i m. omega (arith, served_none m);
  owned = λ i t b h. absurd cc;
}
