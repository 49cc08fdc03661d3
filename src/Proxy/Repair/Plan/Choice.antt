-- ===== src/Proxy/Repair/Plan/Choice.antt =====
-- The two loops of `re_to_re` that look for a source.
use native.Mathlib.Decide.{ℕ_discrete}
use site_repair_cast.Common.{
  ◌∙◌, sym, ap, zero, inr, inl, arith, Bool-cases, false, suc, ◌+◌, ◌<◌, ◌≤◌, true, none, some, ◌≡◌,
  Bool, ℕ,
}
use site_repair_cast.Proxy.Repair.Plan.{find_from}

-- A source that is found passes the test.
pub find_from-passes :
    (left i : ℕ) (test : ℕ → Bool) (s : ℕ)
    → find_from left i test ≡ some s
    → (test s ≡ true) × (i ≤ s) × (s < i + left)
unfolding find_from
find_from-passes zero i test s h = absurd cc
find_from-passes (suc left) i test s h = elim (Bool-cases (test i)) [
  | inl passes ↦ ground (arith, passes)
  | inr fails ↦ ground (arith, fails, find_from-passes left (i + 1) test s)
]

-- When none is found, every index fails the test.
pub find_from-none :
    (left i : ℕ) (test : ℕ → Bool) (s : ℕ)
    → find_from left i test ≡ none
    → i ≤ s
    → s < i + left
    → test s ≡ false
unfolding find_from
find_from-none zero i test s h low high = absurd (omega arith)
find_from-none (suc left) i test s h low high = elim (Bool-cases (test i)) [
  | inl passes ↦ absurd (ground (arith, passes))
  | inr fails ↦ elim (ℕ_discrete i s) [
    | yes same ↦ ap test (sym same) ∙ fails
    | no other ↦
        find_from-none left (i + 1) test s (ground (arith, fails)) (omega arith) (omega arith)
  ]
]
