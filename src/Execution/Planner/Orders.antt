-- ===== src/Execution/Planner/Orders.antt =====
-- Which orders a plan has.
use auto_invest_manager.Base.{
  ℕ, ◌≡◌, refl, ◌&&◌, not, ◌≤◌, ◌⊎◌, inl, inr, All, true, false, Bool-cases, List, [], ◌∷◌, map,
  all, String, arith, if◌then◌else◌, ok, err, Error,
}
use Prim.Native.String.{◌++◌}
use auto_invest_manager.Base.Decimal.{Decimal, from_int, ◌≤D◌}
use auto_invest_manager.Models.Enums.{OrderType, TradeMode}
use auto_invest_manager.Execution.Dto.{ExecutionAllocation, PlannedOrderData}
use auto_invest_manager.Execution.Planner.{
  is_limit, in_unit, is_untradable, order_for, plan_loop, plan, limit_price, idempotency_key,
  direction_value,
}
use auto_invest_manager.Execution.Planner.Prices.{IsLess}

-- At least one lot, a lot size of at least one and a positive price.
pub IsTradable : ExecutionAllocation → Type 0
IsTradable a = (1 ≤ a.lots) × (1 ≤ a.lot_size) × IsLess (from_int 0) a.market_price

-- What a plan needs of its order type, its slippage and its allocations.
pub IsPlannable : Decimal → List ExecutionAllocation → OrderType → Type 0
IsPlannable slippage allocations order_type =
    (order_type ≡ OrderType.limit)
    × (from_int 0 ≤D slippage)
    × (slippage ≤D from_int 1)
    × All IsTradable allocations

module _ (sha256 : String → String) (uuid_text : ℕ → String) (plan_id : ℕ) (slippage : Decimal)
    (mode : TradeMode) where
  -- The limit order of an allocation, field by field.
  pub IsOrderOf : PlannedOrderData → ExecutionAllocation → Type 0
  IsOrderOf o a =
      (o.instrument_uid ≡ a.instrument_uid)
      × (o.ticker ≡ a.ticker)
      × (o.direction ≡ a.direction)
      × (o.lots ≡ a.lots)
      × (o.lot_size ≡ a.lot_size)
      × (o.order_type ≡ OrderType.limit)
      × (o.limit_price ≡ limit_price a.direction a.market_price slippage)
      × (o.reason ≡ a.reason)
      × (o.trade_mode ≡ mode)
      × (o.idempotency_key
          ≡ sha256
              (uuid_text plan_id ++ ":" ++ a.instrument_uid ++ ":" ++ direction_value a.direction))

  -- One order for each allocation, in their order.
  pub AreOrders : List PlannedOrderData → List ExecutionAllocation → Type 0
  AreOrders [] [] = Unit
  AreOrders [] (a ∷ rest) = ⊥
  AreOrders (o ∷ orders) [] = ⊥
  AreOrders (o ∷ orders) (a ∷ rest) = IsOrderOf o a × AreOrders orders rest

  plan_loop_lem :
      (allocations : List ExecutionAllocation) (order_type : OrderType)
      → plan_loop sha256 uuid_text plan_id allocations order_type slippage mode ≡ (
          if all (λ a. not (is_untradable a)) allocations
          then ok (map (order_for sha256 uuid_text plan_id order_type slippage mode) allocations)
          else err Error.execution_planning)
  unfolding plan_loop
  plan_loop_lem [] order_type = refl
  plan_loop_lem (a ∷ rest) order_type = ground (arith, plan_loop_lem rest order_type)

  all-IsTradable :
      (allocations : List ExecutionAllocation)
      → all (λ a. not (is_untradable a)) allocations ≡ true
      → All IsTradable allocations
  unfolding IsTradable
  all-IsTradable [] h = tt
  all-IsTradable (a ∷ rest) h =
      ((ground arith, ground arith, ground arith), all-IsTradable rest (ground arith))

  all_of_tradable :
      (allocations : List ExecutionAllocation)
      → All IsTradable allocations
      → all (λ a. not (is_untradable a)) allocations ≡ true
  unfolding IsTradable
  all_of_tradable [] h = refl
  all_of_tradable (a ∷ rest) h =
      let rest_all = all_of_tradable rest h.1 in let (lots, size, price) = h.0 in ground arith

  map-AreOrders :
      (allocations : List ExecutionAllocation)
      → AreOrders
          (map (order_for sha256 uuid_text plan_id OrderType.limit slippage mode) allocations)
          allocations
  unfolding AreOrders IsOrderOf order_for idempotency_key
  map-AreOrders [] = tt
  map-AreOrders (a ∷ rest) =
      ((refl, refl, refl, refl, refl, refl, refl, refl, refl, refl), map-AreOrders rest)

  plan_made :
      (allocations : List ExecutionAllocation) (order_type : OrderType)
      → (is_limit order_type && (in_unit slippage && all (λ a. not (is_untradable a)) allocations)
          ≡ true)
      → (plan sha256 uuid_text plan_id allocations order_type slippage mode
          ≡ ok (map (order_for sha256 uuid_text plan_id OrderType.limit slippage mode) allocations))
        × IsPlannable slippage allocations order_type
  unfolding plan IsPlannable
  plan_made allocations OrderType.limit h = (
    ground (arith, plan_loop_lem allocations OrderType.limit),
    (refl, ground arith, ground arith, all-IsTradable allocations (ground arith)),
  )
  plan_made allocations OrderType.market h = ground arith

  plan_refused :
      (allocations : List ExecutionAllocation) (order_type : OrderType)
      → (is_limit order_type && (in_unit slippage && all (λ a. not (is_untradable a)) allocations)
          ≡ false)
      → (plan sha256 uuid_text plan_id allocations order_type slippage mode
          ≡ err Error.execution_planning)
        × (¬ IsPlannable slippage allocations order_type)
  unfolding plan IsPlannable
  plan_refused allocations OrderType.limit h = (
    ground (arith, plan_loop_lem allocations OrderType.limit),
    λ plannable.
        let (limit, low, high, tradable) = plannable in
        let tradable_all = all_of_tradable allocations tradable in ground arith,
  )
  plan_refused allocations OrderType.market h = (ground arith, λ plannable. cc)

  -- Either the order type is LIMIT, the slippage lies in [0, 1], every allocation has at least one
  -- lot, a lot size of at least one and a positive price, and the plan has one order for each
  -- allocation, in their order, with its fields, its limit price and the hash of its key text; or one of these fails and
  -- the whole plan is refused.
  pub plan_exact :
      (allocations : List ExecutionAllocation) (order_type : OrderType)
      → (IsPlannable slippage allocations order_type
          × ((orders : List PlannedOrderData) × (plan sha256 uuid_text plan_id allocations
                  order_type slippage mode
                ≡ ok orders)
              × AreOrders orders allocations))
        ⊎ ((¬ IsPlannable slippage allocations order_type)
            × (plan sha256 uuid_text plan_id allocations order_type slippage mode
                ≡ err Error.execution_planning))
  plan_exact allocations order_type =
      elim (Bool-cases (
        is_limit order_type
        && (in_unit slippage && all (λ a. not (is_untradable a)) allocations))) [
          | inl p ↦
              let (made, plannable) = plan_made allocations order_type p in
              inl (plannable, (_, made, map-AreOrders allocations))
          | inr p ↦
              let (refused, unplannable) = plan_refused allocations order_type p in
              inr (unplannable, refused)
        ]
