-- ===== src/Portfolio/Planner.antt =====
-- app/portfolio/planner.py: what to buy and sell so that the portfolio approaches its targets.
pub mod Cash
pub mod Sorting
pub mod Spending
use auto_invest_manager.Base.{
  ℕ, ◌<◌, ◌+◌, ◌==◌, ◌≡◌, ltb, Bool, true, false, ◌&&◌, ◌||◌, List, [], ◌∷◌, String, if◌then◌else◌,
  Result, ok, err, Error, min,
}
use auto_invest_manager.Base.Decimal.{
  Decimal, from_int, ◌+D◌, ◌-D◌, ◌*D◌, ◌/D◌, is_zero, abs, lt_decimal, le_decimal, max_decimal,
  min_decimal, truncate,
}
use auto_invest_manager.Models.Enums.{AllocationAction}
use auto_invest_manager.Portfolio.Dto.{
  AssetInput, OptimizationConstraints, OptimizationResult, TargetWeight, PlannedAllocation,
  RebalanceResult,
}

-- `(priority, weight)` of the first comes before that of the second.
unfoldable pub key_lt : TargetWeight → TargetWeight → Bool
key_lt s t =
    ltb s.asset.priority t.asset.priority
    || (s.asset.priority == t.asset.priority && lt_decimal s.weight t.weight)

-- Elements of equal keys keep their order, as in Python with `reverse=True`.
unfoldable pub insert : TargetWeight → List TargetWeight → List TargetWeight
insert t [] = t ∷ []
insert t (u ∷ rest) = if key_lt t u then u ∷ insert t rest else t ∷ u ∷ rest

-- `sorted(targets, key=..., reverse=True)`
unfoldable pub sorted : List TargetWeight → List TargetWeight
sorted [] = []
sorted (t ∷ rest) = insert t (sorted rest)

-- The local variables of the loop that the branches assign.
pub record Decision : Type 0 where
  pub action : AllocationAction
  pub lots : ℕ
  pub reason : String
  pub spendable_cash : Decimal

abbrev pub lot_cost : AssetInput → Decimal
lot_cost asset = asset.price *D from_int asset.lot_size

-- `int((amount / lot_cost).to_integral_value(rounding=ROUND_FLOOR))`; amounts and prices are not negative.
abbrev pub whole_lots : Decimal → Decimal → Result ℕ
whole_lots amount cost =
    if is_zero cost then err Error.division_by_zero else ok (truncate (amount /D cost))

unfoldable pub bought : AssetInput → Decimal → ℕ → Decision
bought asset cash lots =
    if ltb 0 lots
    then record {
      action = AllocationAction.buy;
      lots = lots;
      reason = "underweight position";
      spendable_cash = cash -D (from_int lots *D lot_cost asset);
    }
    else record {
      action = AllocationAction.hold;
      lots = lots;
      reason = "insufficient cash for minimum lot";
      spendable_cash = cash;
    }

unfoldable pub sold : Decimal → ℕ → Decision
sold cash lots =
    if ltb 0 lots
    then record {
      action = AllocationAction.sell;
      lots = lots;
      reason = "overweight position";
      spendable_cash = cash;
    }
    else record {
      action = AllocationAction.hold;
      lots = lots;
      reason = "delta is below minimum lot";
      spendable_cash = cash;
    }

abbrev pub held : String → Decimal → Decision
held reason cash = record {
  action = AllocationAction.hold;
  lots = 0;
  reason = reason;
  spendable_cash = cash;
}

abbrev pub decided : (ℕ → Decision) → Result ℕ → Result Decision
decided f (ok lots) = ok (f lots)
decided f (err e) = err e

-- The branches of the loop's body.
unfoldable pub decide :
    OptimizationConstraints → AssetInput → (delta relative_delta cash : Decimal) → Result Decision
decide c asset delta relative_delta cash =
    if asset.cooldown_active
    then ok (held "instrument cooldown is active" cash)
    else if le_decimal c.rebalance_threshold relative_delta
        && (lt_decimal (from_int 0) delta && asset.buy_enabled)
    then decided (bought asset cash) (whole_lots (min_decimal delta cash) (lot_cost asset))
    else if le_decimal c.rebalance_threshold relative_delta
        && (lt_decimal delta (from_int 0) && asset.sell_enabled)
    then decided (λ lots. sold cash (min (truncate asset.current_lots) lots))
        (whole_lots (abs delta) (lot_cost asset))
    else ok (held "within rebalance threshold" cash)

abbrev pub delta_of : Decimal → TargetWeight → Decimal
delta_of value t = t.weight *D value -D t.asset.current_value

abbrev pub allocation_of : Decimal → TargetWeight → Decision → PlannedAllocation
allocation_of value t d = record {
  asset = t.asset;
  target_weight = t.weight;
  current_weight = t.asset.current_value /D value;
  target_amount = t.weight *D value;
  delta_amount = delta_of value t;
  action = d.action;
  lots = d.lots;
  reason = d.reason;
}

abbrev pub joined :
    PlannedAllocation
    → Result (List PlannedAllocation × Decimal)
    → Result (List PlannedAllocation × Decimal)
joined a (ok (rest, cash)) = ok (a ∷ rest, cash)
joined a (err e) = err e

-- The `for` loop, with `spendable_cash` as it is before and after.
unfoldable pub allocate :
    OptimizationConstraints
    → Decimal
    → Decimal
    → List TargetWeight
    → Result (List PlannedAllocation × Decimal)
allocate c value cash [] = ok ([], cash)
allocate c value cash (t ∷ rest) =
    elim (decide c t.asset (delta_of value t) (abs (delta_of value t) /D value) cash) [
      | err e ↦ err e
      | ok d ↦ joined (allocation_of value t d) (allocate c value d.spendable_cash rest)
    ]

abbrev pub spendable : OptimizationResult → Decimal → Decimal → Decimal
spendable o value cash = max_decimal (from_int 0) (cash -D value *D o.cash_weight)

abbrev pub planned : Decimal → Result (List PlannedAllocation × Decimal) → Result RebalanceResult
planned cash_weight (ok (allocations, cash)) = ok (record {
  allocations = allocations;
  target_cash_weight = cash_weight;
  unallocated_cash = cash;
})
planned cash_weight (err e) = err e

-- `RebalancePlanner.plan`
unfoldable pub plan :
    OptimizationResult
    → OptimizationConstraints
    → (portfolio_value cash_available : Decimal) → Result RebalanceResult
plan o c value cash =
    if le_decimal value (from_int 0)
    then err Error.portfolio_optimization
    else planned o.cash_weight (allocate c value (spendable o value cash) (sorted o.targets))
