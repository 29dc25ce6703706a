-- ===== src/Base/Decimal.antt =====
-- Python's `decimal.Decimal`, as exact numbers: (pos - neg) / den with den at least 1. The code
-- computes on amounts with at most 24 digits and weights with at most 8; the rounding of a result
-- to the 28 digits of the context is not modelled.
pub mod Order
use Prim.Native.Nat.{ℕ, ◌+◌, ◌-◌, ◌*◌, ◌/◌, ◌≤◌}
use mathlib.Core.Bool.{Bool, false}
use mathlib.Core.List.{List, [], ◌∷◌}
use auto_invest_manager.Base.Tests.{ltb, leb, if◌then◌else◌}

pub record Decimal : Type 0 where
  pub pos : ℕ
  pub neg : ℕ
  pub den : ℕ

-- `Decimal(n)`
abbrev pub from_int : ℕ → Decimal
from_int n = record { pos = n; neg = 0; den = 1 }

-- `Decimal("0.01")`
abbrev pub hundredth : Decimal
hundredth = record { pos = 1; neg = 0; den = 100 }

infixl 65 ◌+D◌ ◌-D◌
infixl 70 ◌*D◌ ◌/D◌
infix 50 ◌≤D◌
abbrev pub ◌+D◌ : Decimal → Decimal → Decimal
a +D b = record {
  pos = a.pos * b.den + b.pos * a.den;
  neg = a.neg * b.den + b.neg * a.den;
  den = a.den * b.den;
}

abbrev pub ◌-D◌ : Decimal → Decimal → Decimal
a -D b = record {
  pos = a.pos * b.den + b.neg * a.den;
  neg = a.neg * b.den + b.pos * a.den;
  den = a.den * b.den;
}

abbrev pub ◌*D◌ : Decimal → Decimal → Decimal
a *D b = record {
  pos = a.pos * b.pos + a.neg * b.neg;
  neg = a.pos * b.neg + a.neg * b.pos;
  den = a.den * b.den;
}

abbrev pub is_zero : Decimal → Bool
is_zero a = if leb a.pos a.neg then leb a.neg a.pos else false

abbrev pub is_neg : Decimal → Bool
is_neg a = ltb a.pos a.neg

-- `a / b` for a divisor other than zero; a negative divisor flips the signs.
abbrev pub ◌/D◌ : Decimal → Decimal → Decimal
a /D b =
    if is_neg b
    then record { pos = a.neg * b.den; neg = a.pos * b.den; den = a.den * (b.neg - b.pos) }
    else record { pos = a.pos * b.den; neg = a.neg * b.den; den = a.den * (b.pos - b.neg) }

abbrev pub ◌≤D◌ : Decimal → Decimal → Type 0
a ≤D b = a.pos * b.den + b.neg * a.den ≤ b.pos * a.den + a.neg * b.den

-- `a < b`
abbrev pub lt_decimal : Decimal → Decimal → Bool
lt_decimal a b = ltb (a.pos * b.den + b.neg * a.den) (b.pos * a.den + a.neg * b.den)

-- `a <= b`
abbrev pub le_decimal : Decimal → Decimal → Bool
le_decimal a b = leb (a.pos * b.den + b.neg * a.den) (b.pos * a.den + a.neg * b.den)

abbrev pub abs : Decimal → Decimal
abs a = if is_neg a then record { pos = a.neg; neg = a.pos; den = a.den } else a

-- Python's `max(a, b)`: the first of two equal values.
abbrev pub max_decimal : Decimal → Decimal → Decimal
max_decimal a b = if lt_decimal a b then b else a

abbrev pub min_decimal : Decimal → Decimal → Decimal
min_decimal a b = if lt_decimal b a then b else a

abbrev pub sum_decimal : List Decimal → Decimal
sum_decimal [] = from_int 0
sum_decimal (x ∷ xs) = x +D sum_decimal xs

abbrev pub ceil_div : ℕ → ℕ → ℕ
ceil_div a d = (a + d - 1) / d

-- `a.quantize(Decimal("0.01"), rounding=ROUND_FLOOR)`
unfoldable pub quantize_floor : Decimal → Decimal
quantize_floor a =
    if is_neg a
    then record { pos = 0; neg = ceil_div ((a.neg - a.pos) * 100) a.den; den = 100 }
    else record { pos = ((a.pos - a.neg) * 100) / a.den; neg = 0; den = 100 }

-- `a.quantize(Decimal("0.01"), rounding=ROUND_CEILING)`
unfoldable pub quantize_ceiling : Decimal → Decimal
quantize_ceiling a =
    if is_neg a
    then record { pos = 0; neg = ((a.neg - a.pos) * 100) / a.den; den = 100 }
    else record { pos = ceil_div ((a.pos - a.neg) * 100) a.den; neg = 0; den = 100 }

-- `int(a)`: towards zero; only the size of a non-negative value is used.
abbrev pub truncate : Decimal → ℕ
truncate a = (a.pos - a.neg) / a.den
