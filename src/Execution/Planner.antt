-- ===== src/Execution/Planner.antt =====
-- app/execution/planner.py: limit orders from the allocations of a rebalance plan. `str(plan_id)`
-- and `sha256(…).hexdigest()` are parameters.
pub mod Prices
pub mod Orders
use auto_invest_manager.Base.{
  ℕ, ◌==◌, Bool, true, false, ◌&&◌, ◌||◌, not, List, [], ◌∷◌, String, if◌then◌else◌, Result, ok,
  err, Error,
}
use Prim.Native.String.{◌++◌}
use auto_invest_manager.Base.Decimal.{
  Decimal, from_int, ◌+D◌, ◌-D◌, ◌*D◌, le_decimal, quantize_floor, quantize_ceiling,
}
use auto_invest_manager.Models.Enums.{OrderDirection, OrderType, TradeMode}
use auto_invest_manager.Execution.Dto.{ExecutionAllocation, PlannedOrderData}

abbrev pub is_limit : OrderType → Bool
is_limit OrderType.limit = true
is_limit OrderType.market = false

-- `direction.value`
abbrev pub direction_value : OrderDirection → String
direction_value OrderDirection.buy = "BUY"
direction_value OrderDirection.sell = "SELL"

-- `not 0 <= max_slippage_percent <= 1` is the negation of this.
abbrev pub in_unit : Decimal → Bool
in_unit a = le_decimal (from_int 0) a && le_decimal a (from_int 1)

abbrev pub is_untradable : ExecutionAllocation → Bool
is_untradable a = a.lots == 0 || a.lot_size == 0 || le_decimal a.market_price (from_int 0)

-- `limit_price` of one allocation.
unfoldable pub limit_price : OrderDirection → Decimal → Decimal → Decimal
limit_price OrderDirection.buy market_price max_slippage =
    quantize_ceiling (market_price *D (from_int 1 +D max_slippage))
limit_price OrderDirection.sell market_price max_slippage =
    quantize_floor (market_price *D (from_int 1 -D max_slippage))

module _ (sha256 : String → String) (uuid_text : ℕ → String) where
  unfoldable pub idempotency_key : ℕ → ExecutionAllocation → String
  idempotency_key plan_id a =
      sha256 (uuid_text plan_id ++ ":" ++ a.instrument_uid ++ ":" ++ direction_value a.direction)

  -- the order that the loop appends for one allocation
  unfoldable pub order_for :
      ℕ → OrderType → Decimal → TradeMode → ExecutionAllocation → PlannedOrderData
  order_for plan_id order_type max_slippage trade_mode a = record {
    instrument_uid = a.instrument_uid;
    ticker = a.ticker;
    direction = a.direction;
    lots = a.lots;
    lot_size = a.lot_size;
    order_type = order_type;
    limit_price = limit_price a.direction a.market_price max_slippage;
    reason = a.reason;
    trade_mode = trade_mode;
    idempotency_key = idempotency_key plan_id a;
  }

  -- the tail of a loop that has appended `order`
  abbrev append_to :
      PlannedOrderData → Result (List PlannedOrderData) → Result (List PlannedOrderData)
  append_to order (ok orders) = ok (order ∷ orders)
  append_to order (err e) = err e

  -- the loop: the first allocation that cannot be traded raises
  unfoldable pub plan_loop :
      ℕ
      → List ExecutionAllocation
      → OrderType
      → Decimal
      → TradeMode
      → Result (List PlannedOrderData)
  plan_loop plan_id [] order_type slippage mode = ok []
  plan_loop plan_id (a ∷ rest) order_type slippage mode =
      let orders = plan_loop plan_id rest order_type slippage mode in
      if is_untradable a
      then err Error.execution_planning
      else append_to (order_for plan_id order_type slippage mode a) orders

  -- `ExecutionPlanner.plan`
  unfoldable pub plan :
      ℕ
      → List ExecutionAllocation
      → OrderType
      → Decimal
      → TradeMode
      → Result (List PlannedOrderData)
  unfolding plan_loop
  plan plan_id allocations order_type max_slippage trade_mode =
      if not (is_limit order_type)
      then err Error.execution_planning
      else if not (in_unit max_slippage)
      then err Error.execution_planning
      else plan_loop plan_id allocations order_type max_slippage trade_mode
