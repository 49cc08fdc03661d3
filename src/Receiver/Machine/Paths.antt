-- ===== src/Receiver/Machine/Paths.antt =====
-- Names, and the maps that stand for the directory.
use mathlib.Core.Path.{subst}
use site_repair_cast.Common.{
  inr, inl, Bool-cases, false, ◌≢◌, ◌∙◌, ap, refl, [], ◌∷◌, arith, true, ◌≡◌, ℕ, List,
}
use site_repair_cast.Receiver.Machine.{at_name, at_transfer, same_name}

pub same_name_refl : (name : List ℕ) → same_name name name ≡ true
same_name_refl [] = refl
same_name_refl (c ∷ name) = ground (arith, same_name_refl name)

pub same_name_sound : (xs ys : List ℕ) → same_name xs ys ≡ true → xs ≡ ys
same_name_sound [] [] h = refl
same_name_sound [] (y ∷ ys) h = absurd cc
same_name_sound (x ∷ xs) [] h = absurd cc
same_name_sound (x ∷ xs) (y ∷ ys) h =
    ap (◌∷◌ x) {x = xs} (same_name_sound xs ys (ground arith))
    ∙ ap (λ (c : ℕ). c ∷ ys) {x = x} {y = y} (ground arith)

module _ {ℓ} {A : Type ℓ} where
  pub at_transfer_same :
      (name : List ℕ) (id : ℕ) (a : A) (f : List ℕ → ℕ → A) → at_transfer name id a f name id ≡ a
  at_transfer_same name id a f = rw (same_name_refl name) (ground arith)

  pub at_name_same : (name : List ℕ) (a : A) (f : List ℕ → A) → at_name name a f name ≡ a
  at_name_same name a f = rw (same_name_refl name)

pub same_name_complete : (xs ys : List ℕ) → xs ≡ ys → same_name xs ys ≡ true
same_name_complete xs ys e = subst (λ (z : List ℕ). same_name xs z ≡ true) e (same_name_refl xs)

pub same_name_differs : (xs ys : List ℕ) → xs ≢ ys → same_name xs ys ≡ false
same_name_differs xs ys h = elim (Bool-cases (same_name xs ys)) [
  | inl same ↦ absurd (h (same_name_sound xs ys same))
  | inr other ↦ other
]

pub same_name_apart : (xs ys : List ℕ) → same_name xs ys ≡ false → xs ≢ ys
same_name_apart xs ys h e = let yes' = same_name_complete xs ys e in absurd cc
