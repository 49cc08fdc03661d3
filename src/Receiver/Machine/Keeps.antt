-- ===== src/Receiver/Machine/Keeps.antt =====
-- What an action keeps, also where it throws.
use site_repair_cast.Common.{refl, if◌then◌else◌, false, err, true, ok, ◌≡◌, Bool, Result}
use site_repair_cast.Receiver.Machine.{lift, and_then, Action, Machine, ◌>>=◌}

pub record Keeps {ℓ} {A : Type ℓ} (I : Machine → Type 0) (m : Action A) : Type ℓ where
  pub keep : (w : Machine) → I w → I (m w).1

module _ {I : Machine → Type 0} where
  pub bind-Keeps {ℓ κ} :
      {A : Type ℓ} {B : Type κ} {m : Action A} {next : A → Action B}
      → Keeps I m
      → ((a : A) → Keeps I (next a))
      → Keeps I (m >>= next)
  unfolding ◌>>=◌
  bind-Keeps {A = A} {m = m} {next = next} first then' = record {
    keep = λ w h. after (m w) (first.keep w h);
  }
    where
      after : (r : Result A × Machine) → I r.1 → I (and_then r next).1
      after (ok a, w') h' = (then' a).keep w' h'
      after (err e, w') h' = h'

  pub lift-Keeps {ℓ} : {A : Type ℓ} (r : Result A) → Keeps I (lift r)
  lift-Keeps r = record { keep = λ w h. h }

  pub if-Keeps {ℓ} :
      {A : Type ℓ} (test : Bool) {yes' no' : Action A}
      → (test ≡ true → Keeps I yes')
      → (test ≡ false → Keeps I no')
      → Keeps I (if test then yes' else no')
  if-Keeps true h h' = h refl
  if-Keeps false h h' = h' refl

  -- What is known of the value that the first action returns.
  pub bind_with-Keeps {ℓ κ} :
      {A : Type ℓ} {B : Type κ} (Q : A → Type 0) {m : Action A} {next : A → Action B}
      → Keeps I m
      → ((w : Machine) (a : A) → I w → (m w).0 ≡ ok a → Q a)
      → ((a : A) → Q a → Keeps I (next a))
      → Keeps I (m >>= next)
  unfolding ◌>>=◌
  bind_with-Keeps {A = A} Q {m = m} {next = next} first known then' = record {
    keep = λ w h. after (m w) (first.keep w h) (λ a e. known w a h e);
  }
    where
      after :
          (r : Result A × Machine) → I r.1 → ((a : A) → r.0 ≡ ok a → Q a) → I (and_then r next).1
      after (ok a, w') h' q = (then' a (q a refl)).keep w' h'
      after (err e, w') h' q = h'

  pub lifted-Keeps {ℓ κ} :
      {A : Type ℓ} {B : Type κ} (r : Result A) {next : A → Action B}
      → ((a : A) → r ≡ ok a → Keeps I (next a))
      → Keeps I (lift r >>= next)
  unfolding ◌>>=◌
  lifted-Keeps (ok a) then' = record { keep = λ w h. (then' a refl).keep w h }
  lifted-Keeps (err e) then' = record { keep = λ w h. h }
