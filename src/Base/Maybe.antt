-- ===== src/Base/Maybe.antt =====
-- Chains of calls that may give no value.
use mathlib.Core.Option.{Option, none, some}

infixl 5 ◌>>=◌
abbrev pub ◌>>=◌ {ℓ κ} : {A : Type ℓ} {B : Type κ} → Option A → (A → Option B) → Option B
none >>= f = none
some a >>= f = f a

abbrev pub when_none {ℓ} : {A : Type ℓ} → Option A → Option A → Option A
when_none none other = other
when_none (some a) other = some a
