-- ===== src/Receiver/Machine/Leads.antt =====
-- What holds after an action that changes what is known of the machine.
use site_repair_cast.Common.{Result, ok, err}
use site_repair_cast.Receiver.Machine.{and_then, Action, Machine, ◌>>=◌}
use site_repair_cast.Receiver.Machine.Keeps.{Keeps}

-- `M` after a return, `J` after an exception.
abbrev pub Ends {ℓ} :
    {A : Type ℓ} → (Machine → Type 0) → (Machine → Type 0) → Result A × Machine → Type 0
Ends M J (ok _, w) = M w
Ends M J (err _, w) = J w

pub record Leads {ℓ} {A : Type ℓ} (I M J : Machine → Type 0) (m : Action A) : Type ℓ where
  pub lead : (w : Machine) → I w → Ends M J (m w)

pub bind-Leads {ℓ κ} :
    {A : Type ℓ} {B : Type κ} {I K M J : Machine → Type 0} {m : Action A} {next : A → Action B}
    → Leads I K J m
    → ((a : A) → Leads K M J (next a))
    → Leads I M J (m >>= next)
unfolding ◌>>=◌
bind-Leads {A = A} {K = K} {M = M} {J = J} {m = m} {next = next} first then' = record {
  lead = λ w h. after (m w) (first.lead w h);
}
  where
    after : (r : Result A × Machine) → Ends K J r → Ends M J (and_then r next)
    after (ok a, w') h' = (then' a).lead w' h'
    after (err e, w') h' = h'

-- A chain that keeps `I`, where `I` says no less than `J`.
pub kept-Leads {ℓ} :
    {A : Type ℓ} {I J : Machine → Type 0} {m : Action A}
    → Keeps I m
    → ((w : Machine) → I w → J w)
    → Leads I I J m
kept-Leads {A = A} {I = I} {J = J} {m = m} k weaker = record {
  lead = λ w h. after (m w) (k.keep w h);
}
  where
    after : (r : Result A × Machine) → I r.1 → Ends I J r
    after (ok a, w') h' = h'
    after (err e, w') h' = weaker w' h'

-- The same after both.
pub from-Leads {ℓ} :
    {A : Type ℓ} {I J : Machine → Type 0} {m : Action A}
    → ((w : Machine) → I w → J (m w).1)
    → Leads I J J m
from-Leads {A = A} {J = J} {m = m} each = record { lead = λ w h. after (m w) (each w h) }
  where
    after : (r : Result A × Machine) → J r.1 → Ends J J r
    after (ok a, w') h' = h'
    after (err e, w') h' = h'

pub to-Leads {ℓ} :
    {A : Type ℓ} {I J : Machine → Type 0} {m : Action A}
    → Leads I J J m
    → (w : Machine) → I w
    → J (m w).1
to-Leads {A = A} {J = J} {m = m} l w h = after (m w) (l.lead w h)
  where
    after : (r : Result A × Machine) → Ends J J r → J r.1
    after (ok a, w') h' = h'
    after (err e, w') h' = h'

pub kept_to-Leads {ℓ} :
    {A : Type ℓ} {I : Machine → Type 0} {m : Action A} → Leads I I I m → Keeps I m
kept_to-Leads l = record { keep = to-Leads l }

-- Less after a return.
pub weaker-Leads {ℓ} :
    {A : Type ℓ} {I K M J : Machine → Type 0} {m : Action A}
    → Leads I K J m
    → ((w : Machine) → K w → M w)
    → Leads I M J m
weaker-Leads {A = A} {K = K} {M = M} {J = J} {m = m} l weaker = record {
  lead = λ w h. after (m w) (l.lead w h);
}
  where
    after : (r : Result A × Machine) → Ends K J r → Ends M J r
    after (ok a, w') h' = weaker w' h'
    after (err e, w') h' = h'
