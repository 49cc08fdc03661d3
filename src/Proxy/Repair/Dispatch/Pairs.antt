-- ===== src/Proxy/Repair/Dispatch/Pairs.antt =====
-- The two loops of the dispatch over the sources and the targets.
use mathlib.Core.Path.{subst}
use native.Mathlib.Decide.{ℕ_discrete}
use site_repair_cast.Common.{
  [], ◌∷◌, ◌≢◌, length, ltb, inr, zero, inl, suc, Bool-cases, refl, arith, ◌+◌, ok, ◌<◌, ◌≤◌, List,
  true, ◌≡◌, Bool, ℕ,
}
use site_repair_cast.Proxy.Connection.{Address}
use site_repair_cast.Proxy.Repair.Blocks.{occurs}
use site_repair_cast.Proxy.Repair.Dispatch.{
  min_peer_blocks, dispatch_sources, dispatch_targets, dispatch_pair, Repairs,
}
use site_repair_cast.Proxy.Repair.Dispatch.Handled.{
  send_chunks-Handles, add_fallback-Handles, Handles-bind, For, Handles, handled,
}
use site_repair_cast.Proxy.Repair.Plan.{is_empty}

nothing-Handles :
    (d : Repairs) (wanted : ℕ → ℕ → Type 0)
    → ((t b : ℕ) → wanted t b → handled d t b ≡ true)
    → Handles d wanted (ok d)
nothing-Handles d wanted none_left = record {
  final = d;
  returned = refl;
  kept = λ t b old. old;
  done = none_left;
}

empty_occurs : (b : ℕ) (xs : List ℕ) → is_empty xs ≡ true → occurs b xs ≢ true
empty_occurs b [] e h = absurd cc
empty_occurs b (x ∷ xs) e h = absurd cc

module _ (delivers : ℕ → Bool) (address : ℕ → Address) (transfer_id section_id round_id : ℕ)
    (peer_plan : ℕ → ℕ → List ℕ) where
  dispatch_pair-Handles :
      (source target : ℕ) (d : Repairs)
      → Handles d
          (For target (peer_plan source target))
          (dispatch_pair delivers address transfer_id section_id round_id peer_plan source target d)
  unfolding dispatch_pair
  dispatch_pair-Handles source target d = elim (Bool-cases (is_empty (peer_plan source target))) [
    | inl empty ↦
        rw empty (
          nothing-Handles d _
            (λ t b w. absurd (empty_occurs b (peer_plan source target) empty w.1)))
    | inr more ↦ elim (Bool-cases (ltb (length (peer_plan source target)) min_peer_blocks)) [
      | inl few ↦
          rw (more, few)
            (add_fallback-Handles d d target (peer_plan source target) (λ t b old. old))
      | inr many ↦
          rw (more, many)
            (send_chunks-Handles delivers address transfer_id section_id round_id
              (length (peer_plan source target)) source target (peer_plan source target) d
              (omega arith))
    ]
  ]

  abbrev InTargets : ℕ → ℕ → ℕ → ℕ → ℕ → Type 0
  InTargets source target left t b =
      (target ≤ t) × (t < target + left) × (occurs b (peer_plan source t) ≡ true)

  dispatch_targets-Handles :
      (left source target : ℕ) (d : Repairs)
      → Handles d (InTargets source target left) (
          dispatch_targets delivers address transfer_id section_id round_id left peer_plan source
            target d)
  unfolding dispatch_targets
  dispatch_targets-Handles zero source target d =
      nothing-Handles d _ (λ t b w. absurd (omega (arith, w.0, w.1)))
  dispatch_targets-Handles (suc left) source target d =
      Handles-bind d (For target (peer_plan source target)) (InTargets source (target + 1) left)
        (InTargets source target (suc left)) _ _
        (λ t b w. elim (ℕ_discrete t target) [
          | yes same ↦ inl (same, ground (arith, w, same))
          | no other ↦ inr (omega (arith, w.0, other), omega (arith, w.1), w.2)
        ])
        (dispatch_pair-Handles source target d) (dispatch_targets-Handles left source (target + 1))

  abbrev InSources : ℕ → ℕ → ℕ → ℕ → ℕ → Type 0
  InSources n source left t b =
      (t < n) × (s : ℕ) × (source ≤ s) × (s < source + left) × (occurs b (peer_plan s t) ≡ true)

  pub dispatch_sources-Handles :
      (n left source : ℕ) (d : Repairs)
      → Handles d (InSources n source left) (
          dispatch_sources delivers address transfer_id section_id round_id n left peer_plan source
            d)
  unfolding dispatch_sources
  dispatch_sources-Handles n zero source d =
      nothing-Handles d _
        (λ t b w. let (inside, s, low, high, h) = w in absurd (omega (arith, low, high)))
  dispatch_sources-Handles n (suc left) source d =
      Handles-bind d (InTargets source 0 n) (InSources n (source + 1) left)
        (InSources n source (suc left)) _ _
        (λ t b w.
          let (inside, s, low, high, h) = w in
          elim (ℕ_discrete s source) [
            | yes same ↦ inl (
              omega arith,
              omega (arith, inside),
              subst (λ i. occurs b (peer_plan i t) ≡ true) same h,
            )
            | no other ↦ inr (inside, s, omega (arith, low, other), omega (arith, high), h)
          ])
        (dispatch_targets-Handles n source 0 d) (dispatch_sources-Handles n left (source + 1))
