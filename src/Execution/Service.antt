-- ===== src/Execution/Service.antt =====
-- app/execution/service.py: planning the orders of a plan, executing one order in dry-run or in
-- the sandbox, and the manual confirmation. Awaited calls that fail raise their error.
pub mod Safety
pub mod Execute
pub mod Confirm
use auto_invest_manager.Base.{
  ℕ, ◌+◌, ◌-◌, ◌*◌, ◌%◌, ◌==◌, Bool, true, false, ◌&&◌, ◌||◌, not, Option, none, some, List, [],
  ◌∷◌, ◌++◌, map, find, keep, String, str_eq, ltb, if◌then◌else◌, is_some, Result, ok, err, Error,
  Action, pure, raise, lift, gets, or_raise, raise_if, modify, ◌>>=◌, ◌>>◌,
}
use auto_invest_manager.Base.Decimal.{
  Decimal, from_int, ◌-D◌, ◌*D◌, ◌/D◌, max_decimal, sum_decimal, truncate,
}
use auto_invest_manager.Models.Enums.{
  TradeMode, PlannedOrderStatus, OrderDirection, OrderType, AllocationAction, is_mode, is_status,
}
use auto_invest_manager.Models.Entities.{
  SystemSettings, RiskProfile, WatchlistItem, RebalancePlan, TargetAllocation, PlannedOrder,
  VirtualTrade, ExecutionOrder, Instrument,
}
use auto_invest_manager.Execution.Dto.{
  ExecutionAllocation, PlannedOrderData, RiskContext, RiskDecision, PositionData, PortfolioData,
  LastPriceData, TradingStatusData, SandboxOrderRequest, SandboxOrderResult,
}
use auto_invest_manager.Execution.Planner.{plan}
use auto_invest_manager.Execution.Risk.{evaluate}
use auto_invest_manager.Execution.Store.{Store, Environment, call, notify}
use auto_invest_manager.Execution.Repository.{
  get_plan, get_settings, get_risk_profile, get_watchlist_item, find_last, save_orders, get_order,
  virtual_trade_of, set_confirmation_status, count_trades_since, latest_trade_time,
  has_duplicate_order, reject, simulate, get_execution_order, save_sandbox_execution,
}
use auto_invest_manager.Execution.Context.{to_data, sandbox_configured, build_risk_context}

module _ (env : Environment) where
  -- `decision = evaluate(…)`; a refused order is marked and the refusal raised.
  unfoldable pub ensure_admitted : PlannedOrder → TradeMode → Action Store (Unit {0})
  ensure_admitted order mode = do
    context ← build_risk_context env order mode
    decision ← lift (evaluate (to_data order) context)
    if decision.allowed
        then pure tt
        else (reject order decision.reasons >> raise (Error.risk_rejected decision.reasons))

  abbrev pub require_planned : PlannedOrder → Action Store (Unit {0})
  require_planned order =
      raise_if (not (is_status order.status PlannedOrderStatus.planned)) Error.resource_conflict

  abbrev pub run_virtual : PlannedOrder → Option VirtualTrade → Action Store VirtualTrade
  run_virtual order (some trade) = pure trade
  run_virtual order none = do
    require_planned order
    ensure_admitted order TradeMode.dry_run
    simulate env order

  unfoldable pub execute : ℕ → Action Store VirtualTrade
  execute order_id = do
    found ← get_order order_id
    order ← or_raise found Error.resource_not_found
    existing ← gets (virtual_trade_of order.id)
    run_virtual order existing

  -- `_ensure_sandbox_configuration`
  abbrev pub ensure_sandbox_configuration : Action Store (Unit {0})
  ensure_sandbox_configuration = raise_if (not (sandbox_configured env)) Error.resource_conflict

  abbrev pub sandbox_request : PlannedOrder → SandboxOrderRequest
  sandbox_request order = record {
    account_id = order.account_id;
    instrument_uid = order.instrument.instrument_uid;
    quantity_lots = order.lots;
    direction = order.direction;
    order_type = order.order_type;
    price = order.limit_price;
    order_id = order.idempotency_key;
  }

  -- The broker is asked once; the request counts as posted also when the call fails.
  abbrev pub post_sandbox_order : SandboxOrderRequest → Action Store SandboxOrderResult
  post_sandbox_order request s = (
    env.post_sandbox_order s.calls request,
    record s { posted = s.posted ++ request ∷ []; calls = s.calls + 1 },
  )

  abbrev pub run_sandbox : PlannedOrder → Option ExecutionOrder → Action Store ExecutionOrder
  run_sandbox order (some execution) = pure execution
  run_sandbox order none = do
    require_planned order
    ensure_admitted order TradeMode.sandbox
    result ← post_sandbox_order (sandbox_request order)
    save_sandbox_execution env order result

  unfoldable pub execute_sandbox : ℕ → Action Store ExecutionOrder
  execute_sandbox order_id = do
    ensure_sandbox_configuration
    found ← get_order order_id
    order ← or_raise found Error.resource_not_found
    existing ← get_execution_order order.id
    run_sandbox order existing

  -- `system is None or system.trade_mode is not REAL_MANUAL_CONFIRM`
  abbrev pub is_manual : Option SystemSettings → Bool
  is_manual none = false
  is_manual (some system) = is_mode system.trade_mode TradeMode.real_manual_confirm

  -- `_get_manual_order`
  abbrev pub get_manual_order : ℕ → Action Store PlannedOrder
  get_manual_order order_id = do
    found ← get_order order_id
    order ← or_raise found Error.resource_not_found
    raise_if (not (is_mode order.trade_mode TradeMode.real_manual_confirm)) Error.resource_conflict
    settings ← get_settings
    raise_if (not (is_manual settings)) Error.resource_conflict
    pure order

  unfoldable pub approve : ℕ → Action Store PlannedOrder
  approve order_id = do
    order ← get_manual_order order_id
    raise_if (not (is_status order.status PlannedOrderStatus.waiting_confirmation))
        Error.resource_conflict
    approved ← set_confirmation_status order PlannedOrderStatus.approved
    notify "Заявка одобрена"
    pure approved

  -- `ExecutionService.reject`
  unfoldable pub reject_order : ℕ → Action Store PlannedOrder
  reject_order order_id = do
    order ← get_manual_order order_id
    raise_if
        (not (
          is_status order.status PlannedOrderStatus.waiting_confirmation
          || is_status order.status PlannedOrderStatus.approved))
        Error.resource_conflict
    rejected ← set_confirmation_status order PlannedOrderStatus.rejected
    notify "Заявка отклонена"
    pure rejected

  abbrev pub is_actionable : TargetAllocation → Bool
  is_actionable a = is_trade a.action && ltb 0 a.recommended_lots
    where
      is_trade : AllocationAction → Bool
      is_trade AllocationAction.hold = false
      is_trade _ = true

  abbrev pub plans_orders : TradeMode → Bool
  plans_orders TradeMode.dry_run = true
  plans_orders TradeMode.sandbox = true
  plans_orders TradeMode.real_manual_confirm = true
  plans_orders _ = false

  abbrev pub direction_of : AllocationAction → OrderDirection
  direction_of AllocationAction.buy = OrderDirection.buy
  direction_of _ = OrderDirection.sell

  -- `ExecutionAllocation(…)` of one allocation; a missing price raises `KeyError`.
  abbrev pub allocation_input : List LastPriceData → TargetAllocation → Result ExecutionAllocation
  allocation_input prices a =
      elim (find_last (λ p. str_eq p.instrument_uid a.instrument.instrument_uid) prices) [
        | none ↦ err Error.key_error
        | some price ↦ ok (record {
          instrument_uid = a.instrument.instrument_uid;
          ticker = a.instrument.ticker;
          direction = direction_of a.action;
          lots = a.recommended_lots;
          lot_size = a.instrument.lot;
          market_price = price.price;
          reason = a.reason;
        })
      ]

  abbrev cons_input :
      Result ExecutionAllocation
      → Result (List ExecutionAllocation)
      → Result (List ExecutionAllocation)
  cons_input (err e) rest = err e
  cons_input (ok a) (err e) = err e
  cons_input (ok a) (ok rest) = ok (a ∷ rest)

  pub allocation_inputs :
      List LastPriceData → List TargetAllocation → Result (List ExecutionAllocation)
  allocation_inputs prices [] = ok []
  allocation_inputs prices (a ∷ rest) =
      cons_input (allocation_input prices a) (allocation_inputs prices rest)

  module _ (sha256 : String → String) (uuid_text : ℕ → String) where
    unfoldable pub plan_orders : ℕ → Action Store (List PlannedOrder)
    unfolding allocation_inputs
    plan_orders plan_id = do
      found ← get_plan plan_id
      the_plan ← or_raise found Error.resource_not_found
      settings ← get_settings
      profile ← get_risk_profile
      system ← or_raise settings Error.resource_not_found
      risk ← or_raise profile Error.resource_not_found
      raise_if (not (plans_orders system.trade_mode)) Error.resource_conflict
      if is_mode system.trade_mode TradeMode.sandbox then ensure_sandbox_configuration else pure tt
      let actionable = keep is_actionable the_plan.allocations
      prices ← call (λ n. env.get_last_prices n (map (λ a. a.instrument.instrument_uid) actionable))
      inputs ← lift (allocation_inputs prices actionable)
      items ← lift (
          plan sha256 uuid_text the_plan.id inputs risk.default_order_type risk.max_slippage_percent
            system.trade_mode)
      save_orders the_plan items
