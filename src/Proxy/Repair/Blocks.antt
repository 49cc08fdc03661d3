-- ===== src/Proxy/Repair/Blocks.antt =====
-- Membership of a block id in one of the lists of the repair round.
use site_repair_cast.Common.{
  ◌⊎◌, refl, [], arith, ◌==◌, true, ◌∷◌, ◌||◌, false, ◌≡◌, ◌++◌, Bool, List, ℕ,
}

abbrev pub occurs : ℕ → List ℕ → Bool
occurs b [] = false
occurs b (x ∷ xs) = b == x || occurs b xs

pub occurs-append : (b : ℕ) (xs ys : List ℕ) → occurs b (xs ++ ys) ≡ (occurs b xs || occurs b ys)
occurs-append b [] ys = refl
occurs-append b (x ∷ xs) ys = grind (arith, occurs-append b xs ys)

pub occurs-snoc : (b : ℕ) (xs : List ℕ) → occurs b (xs ++ (b ∷ [])) ≡ true
occurs-snoc b xs = grind (arith, occurs-append b xs (b ∷ []))

pub occurs-before : (b c : ℕ) (xs : List ℕ) → occurs b xs ≡ true → occurs b (xs ++ (c ∷ [])) ≡ true
occurs-before b c xs h = grind (arith, occurs-append b xs (c ∷ []))

pub occurs-last :
    (b c : ℕ) (xs : List ℕ) → occurs b (xs ++ (c ∷ [])) ≡ true → (occurs b xs ≡ true) ⊎ (b ≡ c)
occurs-last b c xs h = grind (arith, occurs-append b xs (c ∷ []))
