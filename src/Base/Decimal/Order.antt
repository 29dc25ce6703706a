-- ===== src/Base/Decimal/Order.antt =====
-- The order of the decimals: laws of sums, products and quotients for fractions whose denominator is
-- not zero. Two decimals of one value need not be one record, so the laws are inequalities.
use Prim.Native.Nat.{ℕ, ◌+◌, ◌-◌, ◌*◌, ◌≤◌, ◌<◌}
use mathlib.Core.Path.{◌≡◌, sym, ap}
use native.Mathlib.Omega.{arith}
use native.Mathlib.Nat.{mul-le-mul_right, le_of_mul-le-mul_right, div-mul-le_self}
use auto_invest_manager.Base.Decimal.{
  Decimal, from_int, ◌+D◌, ◌-D◌, ◌*D◌, ◌/D◌, ◌≤D◌, min_decimal, max_decimal, truncate,
}

-- The denominator is not zero.
abbrev pub IsFraction : Decimal → Type 0
IsFraction a = 0 < a.den

-- `a > 0`
abbrev pub IsPositive : Decimal → Type 0
IsPositive a = a.neg < a.pos

pub mul-pos : (m n : ℕ) → 0 < m → 0 < n → 0 < m * n
mul-pos m n h k = grind arith

pub le_trans_D : (a b c : Decimal) → 0 < b.den → a ≤D b → b ≤D c → a ≤D c
le_trans_D a b c hb h k =
    le_of_mul-le-mul_right {k = b.den}
      (omega (arith, mul-le-mul_right c.den h, mul-le-mul_right a.den k)) hb

pub add_mono : (a b c d : Decimal) → a ≤D b → c ≤D d → (a +D c) ≤D (b +D d)
add_mono a b c d h k =
    omega (arith, mul-le-mul_right (c.den * d.den) h, mul-le-mul_right (a.den * b.den) k)

pub sub_mono : (a b c d : Decimal) → a ≤D b → d ≤D c → (a -D c) ≤D (b -D d)
sub_mono a b c d h k =
    omega (arith, mul-le-mul_right (c.den * d.den) h, mul-le-mul_right (a.den * b.den) k)

pub le_refl_D : (a : Decimal) → a ≤D a
le_refl_D a = omega arith

-- Product by a positive decimal, and back.
pub mul_mono : (a b s : Decimal) → IsPositive s → a ≤D b → (a *D s) ≤D (b *D s)
mul_mono a b s p h =
    let d : ℕ = s.pos - s.neg in
    let e : s.pos ≡ s.neg + d = omega arith in rw e (omega (arith, mul-le-mul_right (d * s.den) h))

pub mul_cancel : (a b s : Decimal) → IsPositive s → 0 < s.den → (a *D s) ≤D (b *D s) → a ≤D b
mul_cancel a b s p f h =
    let d : ℕ = s.pos - s.neg in
    let e : s.pos ≡ s.neg + d = omega arith in
    le_of_mul-le-mul_right {k = d * s.den} (cancelled d (sym e)) (mul-pos d s.den (omega arith) f)
  where
    cancelled :
        (d : ℕ)
        → s.neg + d ≡ s.pos
        → (a.pos * b.den + b.neg * a.den) * (d * s.den)
          ≤ (b.pos * a.den + a.neg * b.den) * (d * s.den)
    cancelled d e = omega (
      arith,
      h,
      ap (λ (n : ℕ). a.pos * b.den * s.den * n) e,
      ap (λ (n : ℕ). b.neg * a.den * s.den * n) e,
      ap (λ (n : ℕ). b.pos * a.den * s.den * n) e,
      ap (λ (n : ℕ). a.neg * b.den * s.den * n) e,
    )

-- A quotient by a positive decimal, and the product that undoes it.
pub div-den : (a b : Decimal) → 0 < a.den → IsPositive b → 0 < (a /D b).den
div-den a b f p = ground (arith, mul-pos a.den (b.pos - b.neg) f (omega arith))

pub div-eq :
    (a b : Decimal)
    → IsPositive b
    → (a /D b) ≡ record { pos = a.pos * b.den; neg = a.neg * b.den; den = a.den * (b.pos - b.neg) }
div-eq a b p = ground arith

pub div-nonneg : (a b : Decimal) → IsPositive b → from_int 0 ≤D a → from_int 0 ≤D (a /D b)
div-nonneg a b p h = rw (div-eq a b p) (omega (arith, mul-le-mul_right b.den h))

pub div-mul-le : (a b : Decimal) → IsPositive b → ((a /D b) *D b) ≤D a
div-mul-le a b p =
    let e : b.neg + (b.pos - b.neg) ≡ b.pos = omega arith in
    rw (div-eq a b p) (
      omega (
        arith,
        ap (λ (n : ℕ). a.pos * b.den * a.den * n) e,
        ap (λ (n : ℕ). a.neg * b.den * a.den * n) e,
      ))

pub le-div-mul : (a b : Decimal) → IsPositive b → a ≤D ((a /D b) *D b)
le-div-mul a b p =
    let e : b.neg + (b.pos - b.neg) ≡ b.pos = omega arith in
    rw (div-eq a b p) (
      omega (
        arith,
        ap (λ (n : ℕ). a.pos * b.den * a.den * n) e,
        ap (λ (n : ℕ). a.neg * b.den * a.den * n) e,
      ))

-- So many whole units of `b` as fit into `a` are worth at most `a`.
pub truncate-le : (a : Decimal) → IsFraction a → from_int 0 ≤D a → from_int (truncate a) ≤D a
truncate-le a f h = omega (arith, div-mul-le_self (a.pos - a.neg) a.den)

pub units-le :
    (a b : Decimal)
    → IsFraction a
    → IsFraction b
    → IsPositive b
    → from_int 0 ≤D a
    → (from_int (truncate (a /D b)) *D b) ≤D a
units-le a b f g p h =
    le_trans_D _ ((a /D b) *D b) a (mul-pos _ _ (div-den a b f p) g)
      (mul_mono (from_int (truncate (a /D b))) (a /D b) b p
        (truncate-le (a /D b) (div-den a b f p) (div-nonneg a b p h)))
      (div-mul-le a b p)

pub min-le_left : (a b : Decimal) → min_decimal a b ≤D a
min-le_left a b = ground arith

pub min-le_right : (a b : Decimal) → min_decimal a b ≤D b
min-le_right a b = ground arith

pub le-max_left : (a b : Decimal) → a ≤D max_decimal a b
le-max_left a b = ground arith

pub le-max_right : (a b : Decimal) → b ≤D max_decimal a b
le-max_right a b = ground arith

pub le-min : (a b c : Decimal) → c ≤D a → c ≤D b → c ≤D min_decimal a b
le-min a b c h k = ground arith

pub max-le : (a b c : Decimal) → a ≤D c → b ≤D c → max_decimal a b ≤D c
max-le a b c h k = ground arith

pub add_sub_le : (a b : Decimal) → (b +D (a -D b)) ≤D a
add_sub_le a b = omega arith

pub le_add_sub : (a b : Decimal) → a ≤D (b +D (a -D b))
le_add_sub a b = omega arith

pub le_add : (a b : Decimal) → from_int 0 ≤D b → a ≤D (a +D b)
le_add a b h = omega (arith, mul-le-mul_right (a.den * a.den) h)

pub product-nonneg : (a b : Decimal) → from_int 0 ≤D a → from_int 0 ≤D b → from_int 0 ≤D (a *D b)
product-nonneg a b h k =
    let d : ℕ = a.pos - a.neg in
    let e : a.pos ≡ a.neg + d = omega arith in
    let k' : b.neg ≤ b.pos = omega arith in rw e (omega (arith, mul-le-mul_right d k'))

pub sum-nonneg : (a b : Decimal) → from_int 0 ≤D a → from_int 0 ≤D b → from_int 0 ≤D (a +D b)
sum-nonneg a b h k = omega (arith, mul-le-mul_right b.den h, mul-le-mul_right a.den k)

-- Two bounds with a common factor add up.
pub mul_add_le :
    (a b t r x y : Decimal)
    → (a *D t) ≤D (r *D x)
    → (b *D t) ≤D (r *D y)
    → ((a +D b) *D t) ≤D (r *D (x +D y))
mul_add_le a b t r x y h k =
    omega (arith, mul-le-mul_right (b.den * y.den) h, mul-le-mul_right (a.den * x.den) k)

-- And so they do the other way.
pub le_mul_add :
    (a b t r x y : Decimal)
    → (r *D x) ≤D (a *D t)
    → (r *D y) ≤D (b *D t)
    → (r *D (x +D y)) ≤D ((a +D b) *D t)
le_mul_add a b t r x y h k =
    omega (arith, mul-le-mul_right (b.den * y.den) h, mul-le-mul_right (a.den * x.den) k)

-- One more element of a sum, whose part grows by `s` or not at all.
pub sum-grows : (w s x y d : Decimal) → y ≤D (x +D d) → ((w +D s) +D y) ≤D ((w +D x) +D (s +D d))
sum-grows w s x y d h = omega (arith, mul-le-mul_right (w.den * s.den * w.den * s.den) h)

pub sum-keeps : (w x y d : Decimal) → y ≤D (x +D d) → (w +D y) ≤D ((w +D x) +D d)
sum-keeps w x y d h = omega (arith, mul-le-mul_right (w.den * w.den) h)

-- What moves from the rest to a sum leaves their total as it is.
pub moved-le : (x y r d : Decimal) → y ≤D (x +D d) → (y +D (r -D d)) ≤D (x +D r)
moved-le x y r d h = omega (arith, mul-le-mul_right (r.den * r.den) h)

pub min-IsFraction : (a b : Decimal) → IsFraction a → IsFraction b → IsFraction (min_decimal a b)
min-IsFraction a b h k = ground arith

pub max-IsFraction : (a b : Decimal) → IsFraction a → IsFraction b → IsFraction (max_decimal a b)
max-IsFraction a b h k = ground arith

pub mul_mono_left : (s a b : Decimal) → IsPositive s → a ≤D b → (s *D a) ≤D (s *D b)
mul_mono_left s a b p h = omega (arith, mul_mono a b s p h)

-- What is left of a sum is less when more of it is kept, and at least nothing.
pub rest_mono :
    (x a b : Decimal)
    → IsFraction x
    → IsFraction a
    → a ≤D b
    → max_decimal (from_int 0) (x -D b) ≤D max_decimal (from_int 0) (x -D a)
rest_mono x a b f g h =
    max-le (from_int 0) (x -D b) (max_decimal (from_int 0) (x -D a))
      (le-max_left (from_int 0) (x -D a))
      (le_trans_D (x -D b) (x -D a) _ (mul-pos _ _ f g) (sub_mono x x b a (le_refl_D x) h)
        (le-max_right (from_int 0) (x -D a)))
