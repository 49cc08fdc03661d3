-- ===== src/Proxy/Repair/Plan/Cover.antt =====
-- The planning loop of `re_to_re`: where a missing block goes.
use mathlib.Core.Path.{subst}
use native.Mathlib.Decide.{ℕ_discrete}
use site_repair_cast.Common.{
  length, zero, suc, leb, Bool-cases, get_or, ◌+◌, Bool, ap, arith, [], ◌∷◌, ◌++◌, ◌⊎◌, true, inr,
  ◌≡◌, List, inl, ℕ,
}
use site_repair_cast.Protocol.Section.{u32}
use site_repair_cast.Proxy.Repair.Blocks.{occurs-snoc, occurs-before, occurs}
use site_repair_cast.Proxy.Repair.Plan.{
  multicast_threshold, plan_target, plan_blocks, plan_block, plan_targets, update, assign, Plan,
}
use site_repair_cast.Proxy.Repair.Plan.Steps.{plan_target_cases, update-All}

-- The block goes to all receivers, to the target from a source, or to the target from the proxy.
abbrev pub Planned : Plan → ℕ → ℕ → Type 0
Planned plan target b =
    (occurs b plan.multicast ≡ true)
    ⊎ ((source : ℕ) × (occurs b (plan.peer_plan source target) ≡ true))
    ⊎ (occurs b (plan.fallback target) ≡ true)

-- Whatever is planned in the first plan is planned in the second.
abbrev Extends : Plan → Plan → Type 0
Extends plan plan' =
    ((b : ℕ) → occurs b plan.multicast ≡ true → occurs b plan'.multicast ≡ true)
    × ((s t b : ℕ) → occurs b (plan.peer_plan s t) ≡ true → occurs b (plan'.peer_plan s t) ≡ true)
    × ((t b : ℕ) → occurs b (plan.fallback t) ≡ true → occurs b (plan'.fallback t) ≡ true)

Extends-Planned :
    (plan plan' : Plan)
    → Extends plan plan'
    → (target b : ℕ) → Planned plan target b
    → Planned plan' target b
Extends-Planned plan plan' e target b (inl m) = inl (e.0 b m)
Extends-Planned plan plan' e target b (inr (inl (s, m))) = inr (inl (s, e.1 s target b m))
Extends-Planned plan plan' e target b (inr (inr m)) = inr (inr (e.2 target b m))

update_snoc :
    (f : ℕ → List ℕ) (i c b k : ℕ)
    → occurs b (f k) ≡ true
    → occurs b (update f i (f i ++ (c ∷ [])) k) ≡ true
update_snoc f i c b k h = elim (ℕ_discrete k i) [
  | yes same ↦ ground (arith, same, occurs-before b c (f i), ap (λ j. occurs b (f j)) same)
  | no other ↦ ground (arith, other)
]

assign-Extends : (plan : Plan) (i target c : ℕ) → Extends plan (assign plan i target c)
assign-Extends plan i target c = (
  λ b h. h,
  λ s t b.
      update-All (λ k row. occurs b (plan.peer_plan k t) ≡ true → occurs b (row t) ≡ true)
        plan.peer_plan i _ (λ k h. h) (update_snoc (plan.peer_plan i) target c b t) s,
  λ t b h. h,
)

assign-Planned : (plan : Plan) (i target c : ℕ) → Planned (assign plan i target c) target c
assign-Planned plan i target c =
    inr (inl (i, ground (arith, occurs-snoc c (plan.peer_plan i target))))

-- The next plan keeps what is planned and plans the block for the target.
abbrev Plans : Plan → ℕ → ℕ → Plan → Type 0
Plans plan target b plan' = Extends plan plan' × Planned plan' target b

plan_target-Plans :
    (has : ℕ → ℕ → Bool) (n first_block : ℕ) (plan : Plan) (local_block target : ℕ)
    → Plans plan target
        (u32 (first_block + local_block))
        (plan_target has n first_block plan local_block target)
plan_target-Plans has n first_block plan local_block target =
    let b = u32 (first_block + local_block) in
    plan_target_cases (Plans plan target b) has n first_block plan local_block target
      (λ i inside passes. (assign-Extends plan i target b, assign-Planned plan i target b))
      (λ i inside passes. (assign-Extends plan i target b, assign-Planned plan i target b))
      (λ unserved full. (
        (λ c h. h, λ s t c h. h, λ t c. update_snoc plan.fallback target b c t),
        inr (inr (ground (arith, occurs-snoc b (plan.fallback target)))),
      ))

Extends-trans : (p q r : Plan) → Extends p q → Extends q r → Extends p r
Extends-trans p q r e f =
    (λ b h. f.0 b (e.0 b h), λ s t b h. f.1 s t b (e.1 s t b h), λ t b h. f.2 t b (e.2 t b h))

plan_targets-Extends :
    (has : ℕ → ℕ → Bool) (n first_block : ℕ) (plan : Plan) (local_block : ℕ) (targets : List ℕ)
    → Extends plan (plan_targets has n first_block plan local_block targets)
unfolding plan_targets
plan_targets-Extends has n first_block plan local_block [] = (λ b h. h, λ s t b h. h, λ t b h. h)
plan_targets-Extends has n first_block plan local_block (target ∷ targets) =
    let next = plan_target has n first_block plan local_block target in
    Extends-trans plan next (plan_targets has n first_block next local_block targets)
      (plan_target-Plans has n first_block plan local_block target).0
      (plan_targets-Extends has n first_block next local_block targets)

plan_targets-Planned :
    (has : ℕ → ℕ → Bool) (n first_block : ℕ) (plan : Plan) (local_block : ℕ) (targets : List ℕ)
    (target : ℕ)
    → occurs target targets ≡ true
    → Planned
        (plan_targets has n first_block plan local_block targets)
        target
        (u32 (first_block + local_block))
unfolding plan_targets
plan_targets-Planned has n first_block plan local_block [] target h = absurd cc
plan_targets-Planned has n first_block plan local_block (t ∷ targets) target h =
    let next = plan_target has n first_block plan local_block t in
    elim (ℕ_discrete target t) [
      | yes same ↦ rw same (
          Extends-Planned next (plan_targets has n first_block next local_block targets)
            (plan_targets-Extends has n first_block next local_block targets) t _
            (plan_target-Plans has n first_block plan local_block t).1)
      | no other ↦
          plan_targets-Planned has n first_block next local_block targets target
            (ground (arith, other))
    ]

plan_block-Plans :
    (has : ℕ → ℕ → Bool) (n first_block : ℕ) (plan : Plan) (local_block : ℕ) (targets : List ℕ)
    → Extends plan (plan_block has n first_block plan local_block targets)
      × ((target : ℕ)
          → occurs target targets ≡ true
          → Planned
              (plan_block has n first_block plan local_block targets)
              target
              (u32 (first_block + local_block)))
unfolding plan_block
plan_block-Plans has n first_block plan local_block targets =
    elim (Bool-cases (leb multicast_threshold (length targets))) [
      | inl many ↦ rw many (
        (λ b. occurs-before b _ plan.multicast, λ s t b h. h, λ t b h. h),
        λ target h. inl (occurs-snoc _ plan.multicast),
      )
      | inr few ↦ rw few (
        plan_targets-Extends has n first_block plan local_block targets,
        plan_targets-Planned has n first_block plan local_block targets,
      )
    ]

plan_blocks-Extends :
    (has : ℕ → ℕ → Bool) (n first_block : ℕ) (plan : Plan) (local_block : ℕ) (rows : List (List ℕ))
    → Extends plan (plan_blocks has n first_block plan local_block rows)
unfolding plan_blocks
plan_blocks-Extends has n first_block plan local_block [] = (λ b h. h, λ s t b h. h, λ t b h. h)
plan_blocks-Extends has n first_block plan local_block (targets ∷ rows) =
    let next = plan_block has n first_block plan local_block targets in
    Extends-trans plan next (plan_blocks has n first_block next (local_block + 1) rows)
      (plan_block-Plans has n first_block plan local_block targets).0
      (plan_blocks-Extends has n first_block next (local_block + 1) rows)

-- Whatever the reports, every block of the table is planned for every receiver in its row.
pub plan_blocks-Planned :
    (has : ℕ → ℕ → Bool) (n first_block : ℕ) (plan : Plan) (local_block : ℕ) (rows : List (List ℕ))
    (j target : ℕ)
    → occurs target (get_or rows j []) ≡ true
    → Planned
        (plan_blocks has n first_block plan local_block rows)
        target
        (u32 (first_block + (local_block + j)))
unfolding plan_blocks
plan_blocks-Planned has n first_block plan local_block [] j target h = absurd cc
plan_blocks-Planned has n first_block plan local_block (targets ∷ rows) zero target h =
    let next = plan_block has n first_block plan local_block targets in
    Extends-Planned next (plan_blocks has n first_block next (local_block + 1) rows)
      (plan_blocks-Extends has n first_block next (local_block + 1) rows) target _
      (subst (λ k. Planned next target (u32 (first_block + k))) (omega arith)
        ((plan_block-Plans has n first_block plan local_block targets).1 target h))
plan_blocks-Planned has n first_block plan local_block (targets ∷ rows) (suc j) target h =
    let next = plan_block has n first_block plan local_block targets in
    subst
      (λ k.
        Planned (plan_blocks has n first_block next (local_block + 1) rows) target
          (u32 (first_block + k)))
      (omega arith) (plan_blocks-Planned has n first_block next (local_block + 1) rows j target h)
