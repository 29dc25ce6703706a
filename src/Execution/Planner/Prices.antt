-- ===== src/Execution/Planner/Prices.antt =====
-- How far a limit price lies from the market price.
use auto_invest_manager.Base.{ℕ, ◌+◌, ◌-◌, ◌*◌, ◌/◌, ◌<◌, ◌≤◌, arith}
use auto_invest_manager.Base.Decimal.{
  Decimal, from_int, hundredth, ◌+D◌, ◌-D◌, ◌*D◌, ◌≤D◌, ceil_div, quantize_floor, quantize_ceiling,
}
use auto_invest_manager.Models.Enums.{OrderDirection}
use auto_invest_manager.Execution.Planner.{limit_price}

-- `a < b`
abbrev pub IsLess : Decimal → Decimal → Type 0
IsLess a b = a.pos * b.den + b.neg * a.den < b.pos * a.den + a.neg * b.den

ceil_div-ge : (n d : ℕ) → 0 < d → n ≤ ceil_div n d * d
ceil_div-ge n d h = grind arith

ceil_div-lt : (n d : ℕ) → 0 < d → ceil_div n d * d < n + d
ceil_div-lt n d h = grind arith

div-le : (n d : ℕ) → 0 < d → (n / d) * d ≤ n
div-le n d h = grind arith

div-gt : (n d : ℕ) → 0 < d → n < (n / d) * d + d
div-gt n d h = grind arith

-- Rounding up to a hundredth.
pub quantize_ceiling_bounds :
    (a : Decimal)
    → 0 < a.den
    → (a ≤D quantize_ceiling a) × IsLess (quantize_ceiling a) (a +D hundredth)
unfolding quantize_ceiling
quantize_ceiling_bounds a h = ground (
  arith,
  div-le ((a.neg - a.pos) * 100) a.den,
  div-gt ((a.neg - a.pos) * 100) a.den,
  ceil_div-ge ((a.pos - a.neg) * 100) a.den,
  ceil_div-lt ((a.pos - a.neg) * 100) a.den,
)

pub quantize_floor_bounds :
    (a : Decimal) → 0 < a.den → (quantize_floor a ≤D a) × IsLess (a -D hundredth) (quantize_floor a)
unfolding quantize_floor
quantize_floor_bounds a h = ground (
  arith,
  div-le ((a.pos - a.neg) * 100) a.den,
  div-gt ((a.pos - a.neg) * 100) a.den,
  ceil_div-ge ((a.neg - a.pos) * 100) a.den,
  ceil_div-lt ((a.neg - a.pos) * 100) a.den,
)

-- The exact price before it is rounded to a tick.
abbrev pub buy_price : Decimal → Decimal → Decimal
buy_price market slippage = market *D (from_int 1 +D slippage)

abbrev pub sell_price : Decimal → Decimal → Decimal
sell_price market slippage = market *D (from_int 1 -D slippage)

den_pos : (a b : ℕ) → 0 < a → 0 < b → 0 < a * (1 * b)
den_pos a b h k = grind arith

-- A purchase is limited to the market price with the slippage added, rounded up by less than a
-- hundredth; a sale to the market price with the slippage taken off, rounded down by less than a
-- hundredth.
pub limit_price_bounds :
    (market slippage : Decimal)
    → 0 < market.den
    → 0 < slippage.den
    → (buy_price market slippage ≤D limit_price OrderDirection.buy market slippage)
      × IsLess
          (limit_price OrderDirection.buy market slippage)
          (buy_price market slippage +D hundredth)
      × (limit_price OrderDirection.sell market slippage ≤D sell_price market slippage)
      × IsLess
          (sell_price market slippage -D hundredth)
          (limit_price OrderDirection.sell market slippage)
unfolding limit_price
limit_price_bounds market slippage h k =
    let b = quantize_ceiling_bounds (buy_price market slippage) (den_pos _ _ h k) in
    let s = quantize_floor_bounds (sell_price market slippage) (den_pos _ _ h k) in
    (b.0, b.1, s.0, s.1)
