-- ===== src/Base/Text/Decimal.antt =====
-- `str(n)` and `int(text)` for natural numbers.
use Prim.Native.Nat.{ℕ, zero, suc, ◌+◌, ◌-◌, ◌*◌, ◌/◌, ◌%◌, ◌<◌}
use mathlib.Core.Path.{◌≡◌, refl}
use mathlib.Core.Bool.{true, false}
use mathlib.Core.List.{[], ◌∷◌, ◌++◌}
use native.Mathlib.Omega.{arith}
use mathlib.Core.Logic.{inl, inr}
use keekars_pi_vpn.Base.Tests.{ltb, if◌then◌else◌, Bool-cases}
use keekars_pi_vpn.Base.Lists.{all, all-append, is_nil, is_nil-append_right}
use keekars_pi_vpn.Base.Text.Defs.{Text, is_digit}

-- The digits of `n`, most significant first; `n < fuel` is enough.
unfoldable pub decimal_fuel : ℕ → ℕ → Text
decimal_fuel zero n = []
decimal_fuel (suc f) n =
    let high = decimal_fuel f (n / 10) in
    if ltb n 10 then (48 + n) ∷ [] else high ++ (48 + n % 10) ∷ []

unfoldable pub decimal : ℕ → Text
unfolding decimal_fuel
decimal n = decimal_fuel (suc n) n

-- `int(text)` of a text of digits, from the value of the digits before it.
unfoldable pub value_from : ℕ → Text → ℕ
value_from acc [] = acc
value_from acc (c ∷ cs) = value_from (acc * 10 + (c - 48)) cs

all_digits-decimal_fuel : (f n : ℕ) → all is_digit (decimal_fuel f n) ≡ true
unfolding all is_digit decimal_fuel
all_digits-decimal_fuel zero n = refl
all_digits-decimal_fuel (suc f) n = ground (
  arith,
  all_digits-decimal_fuel f (n / 10),
  all-append is_digit (decimal_fuel f (n / 10)) ((48 + n % 10) ∷ []),
)

pub all_digits-decimal : (n : ℕ) → all is_digit (decimal n) ≡ true
unfolding decimal
all_digits-decimal n = all_digits-decimal_fuel (suc n) n

value_from-append :
    (acc : ℕ) (s : Text) (c : ℕ) → value_from acc (s ++ c ∷ []) ≡ value_from acc s * 10 + (c - 48)
unfolding value_from
value_from-append acc [] c = refl
value_from-append acc (x ∷ s) c = value_from-append (acc * 10 + (x - 48)) s c

value-decimal_fuel : (f n : ℕ) → n < f → value_from 0 (decimal_fuel f n) ≡ n
unfolding decimal_fuel value_from
value-decimal_fuel zero n h = elim h [ ]
value-decimal_fuel (suc f) n h = ground (
  arith,
  value-decimal_fuel f (n / 10),
  value_from-append 0 (decimal_fuel f (n / 10)) (48 + n % 10),
)

-- Printing and reading a number gives it back.
pub value-decimal : (n : ℕ) → value_from 0 (decimal n) ≡ n
unfolding decimal
value-decimal n = value-decimal_fuel (suc n) n (omega arith)

pub decimal-ne_nil : (n : ℕ) → is_nil (decimal n) ≡ false
unfolding decimal
decimal-ne_nil n = elim (Bool-cases (ltb n 10)) [
  | inl e ↦ rw e
  | inr e ↦ rw e (is_nil-append_right (decimal_fuel n (n / 10)) ((48 + n % 10) ∷ []) refl)
]
