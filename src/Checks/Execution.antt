-- ===== src/Checks/Execution.antt =====
-- The theorems on app/execution at concrete inputs.
use auto_invest_manager.Base.{
  ℕ, ◌≡◌, ◌↔◌, ◌⊎◌, inl, length, refl, true, false, none, some, List, [], ◌∷◌, ◌++◌, find, ◌==◌,
  String, ok, err, Error, RiskReason, arith,
}
use auto_invest_manager.Base.Decimal.{from_int, hundredth, ◌≤D◌, ◌+D◌, ◌-D◌}
use auto_invest_manager.Models.Enums.{TradeMode, PlannedOrderStatus, OrderDirection, OrderType}
use auto_invest_manager.Models.Entities.{PlannedOrder, VirtualTrade}
use auto_invest_manager.Execution.Dto.{PlannedOrderData, RiskContext, ExecutionAllocation}
use auto_invest_manager.Execution.Store.{Store}
use auto_invest_manager.Execution.Risk.{evaluate, all_reasons, direction_reasons, when}
use auto_invest_manager.Execution.Risk.Admission.{IsAdmissible, evaluate_allowed_iff}
use auto_invest_manager.Execution.Planner.{plan, limit_price}
use auto_invest_manager.Execution.Planner.Orders.{plan_exact, IsPlannable, AreOrders}
use auto_invest_manager.Execution.Planner.Prices.{limit_price_bounds, buy_price, sell_price, IsLess}
use auto_invest_manager.Execution.Repository.{
  reject, count_trades_since, latest_trade_time, has_duplicate_order, simulate, save_orders,
  initial_order_status,
}
use auto_invest_manager.Execution.Repository.Saving.{save_orders_again}
use auto_invest_manager.Execution.Context.{build_risk_context, ask_broker, risk_context, to_data}
use auto_invest_manager.Execution.Service.{
  execute, execute_sandbox, sandbox_request, ensure_admitted,
}
use auto_invest_manager.Execution.Service.Execute.{
  execute_ok, execute_err, posted-execute_sandbox, order_at, marked, IsEnabled,
}
use auto_invest_manager.Execution.Lifecycle.{Operation, run_dry, run_in_sandbox, confirm, turn_down}
use auto_invest_manager.Execution.Lifecycle.Traces.{
  perform_all, perform_all-Leads, manual_never_executed, Leads, AwaitsHand,
}
use auto_invest_manager.Checks.Data.{order_in, store_with, env_at, plan_one}

abbrev dry_order : PlannedOrder
dry_order = order_in 5 PlannedOrderStatus.planned TradeMode.dry_run

abbrev dry : Store
dry = store_with (dry_order ∷ []) TradeMode.dry_run

abbrev trade_one : VirtualTrade
trade_one = record {
  id = 50;
  planned_order_id = 5;
  instrument_id = 7;
  direction = OrderDirection.buy;
  lots = 2;
  price = from_int 100;
  total_amount = from_int 2000;
  executed_at = 1000000;
}

dry_result : (execute env_at 5 dry).0 ≡ ok trade_one
unfolding execute ensure_admitted build_risk_context ask_broker evaluate all_reasons
    direction_reasons when simulate risk_context count_trades_since latest_trade_time
    has_duplicate_order
dry_result = refl

execute_ok_example :
    let s' = (execute env_at 5 dry).1 in
    (dry_order.status ≡ PlannedOrderStatus.planned)
    × IsEnabled TradeMode.dry_run dry_order dry
    × ((c : RiskContext) × ((build_risk_context env_at dry_order TradeMode.dry_run dry).0 ≡ ok c)
        × IsAdmissible (to_data dry_order) c)
    × (s'.trades ≡ dry.trades ++ trade_one ∷ [])
    × (trade_one.planned_order_id ≡ dry_order.id)
    × (trade_one.lots ≡ dry_order.lots)
    × (s'.orders ≡ marked dry_order.id PlannedOrderStatus.simulated dry.orders)
    × (s'.posted ≡ dry.posted)
execute_ok_example =
    execute_ok env_at 5 dry {order = dry_order} {trade = trade_one} refl refl dry_result

-- The same order when the kill switch is on.
abbrev halted : Store
halted = record dry {
  settings = some (record { trade_mode = TradeMode.dry_run; kill_switch = true });
}

abbrev halt_error : Error
halt_error = Error.risk_rejected (RiskReason.kill_switch_active ∷ [])

halted_result : (execute env_at 5 halted).0 ≡ err halt_error
unfolding execute ensure_admitted build_risk_context ask_broker evaluate all_reasons
    direction_reasons when reject risk_context count_trades_since latest_trade_time
    has_duplicate_order
halted_result = refl

execute_err_example :
    let s' = (execute env_at 5 halted).1 in
    (s'.trades ≡ halted.trades)
    × ((s'.orders ≡ halted.orders)
        ⊎ ((rs : List RiskReason) × (halt_error ≡ Error.risk_rejected rs)
            × (s'.orders ≡ marked 5 PlannedOrderStatus.risk_rejected halted.orders)))
execute_err_example = execute_err env_at 5 halted {x = halt_error} halted_result

abbrev sandbox_store : Store
sandbox_store =
    store_with (order_in 5 PlannedOrderStatus.planned TradeMode.sandbox ∷ []) TradeMode.sandbox

posted-execute_sandbox_example :
    let s' = (execute_sandbox env_at 5 sandbox_store).1 in
    (s'.posted ≡ sandbox_store.posted)
    ⊎ ((order : PlannedOrder) × (order_at 5 sandbox_store ≡ some order)
        × (s'.posted ≡ sandbox_store.posted ++ sandbox_request env_at order ∷ [])
        × (env_at.broker_provider ≡ "tinvest")
        × (env_at.tinvest_target ≡ "sandbox")
        × (order.status ≡ PlannedOrderStatus.planned)
        × (find (λ e. e.planned_order_id == order.id) sandbox_store.executions ≡ none)
        × IsEnabled TradeMode.sandbox order sandbox_store
        × ((c : RiskContext) × ((build_risk_context env_at order TradeMode.sandbox sandbox_store).0
              ≡ ok c)
            × IsAdmissible (to_data order) c))
posted-execute_sandbox_example = posted-execute_sandbox env_at 5 sandbox_store

-- An order that waits for its confirmation.
abbrev waiting_order : PlannedOrder
waiting_order = order_in 6 PlannedOrderStatus.waiting_confirmation TradeMode.real_manual_confirm

abbrev manual : Store
manual = store_with (waiting_order ∷ []) TradeMode.real_manual_confirm

abbrev operations : List Operation
operations = confirm 6 ∷ run_dry 6 ∷ run_in_sandbox 6 ∷ turn_down 6 ∷ []

perform_all-Leads_example :
    (order' : PlannedOrder) × (order_at 6 (perform_all env_at operations manual) ≡ some order')
    × Leads waiting_order.status order'.status
    × (order' ≡ record waiting_order { status = order'.status })
perform_all-Leads_example =
    perform_all-Leads env_at operations 6 manual waiting_order (refl, tt) refl

manual_never_executed_example :
    (order' : PlannedOrder) × (order_at 6 (perform_all env_at operations manual) ≡ some order')
    × AwaitsHand order'.status
manual_never_executed_example =
    manual_never_executed env_at operations 6 manual waiting_order (refl, tt) refl (inl refl)

abbrev done_order : PlannedOrder
done_order = order_in 6 PlannedOrderStatus.simulated TradeMode.dry_run

abbrev done : Store
done = store_with (done_order ∷ []) TradeMode.dry_run

abbrev item : PlannedOrderData
item = to_data (order_in 5 PlannedOrderStatus.planned TradeMode.dry_run)

abbrev context_one : RiskContext
context_one = record {
  kill_switch = false;
  trade_mode = TradeMode.dry_run;
  required_trade_mode = TradeMode.dry_run;
  account_id = "acc";
  expected_account_id = "acc";
  in_watchlist = true;
  direction_allowed = true;
  api_trade_available = true;
  order_type_available = true;
  price_time = 1;
  now = 2;
  max_price_age_seconds = 60;
  market_price = from_int 100;
  max_slippage_percent = hundredth;
  cash_available = from_int 3000;
  current_position_lots = 0;
  current_position_value = from_int 0;
  portfolio_value = from_int 10000;
  max_position_weight = from_int 1;
  max_trade_amount = from_int 3000;
  daily_trades = 0;
  max_daily_trades = 3;
  cooldown_active = false;
  duplicate_active_order = false;
  idempotency_key_exists = false;
}

context_result : evaluate item context_one ≡ ok (record { allowed = true; reasons = [] })
unfolding evaluate all_reasons direction_reasons when
context_result = refl

evaluate_allowed_iff_example : (true ≡ true) ↔ IsAdmissible item context_one
evaluate_allowed_iff_example =
    evaluate_allowed_iff item context_one {d = record { allowed = true; reasons = [] }}
      context_result

abbrev hash : String → String
hash text = text

abbrev uuid_text : ℕ → String
uuid_text n = "plan"

abbrev lots_sized : ℕ → ExecutionAllocation
lots_sized n = record {
  instrument_uid = "uid-7";
  ticker = "SBER";
  direction = OrderDirection.buy;
  lots = n;
  lot_size = 10;
  market_price = from_int 100;
  reason = "signal";
}

plan_exact_example :
    let allocations = lots_sized 1 ∷ lots_sized 2 ∷ [] in
    (IsPlannable hundredth allocations OrderType.limit
      × ((orders : List PlannedOrderData) × (plan hash uuid_text 3 allocations OrderType.limit
              hundredth TradeMode.dry_run
            ≡ ok orders)
          × AreOrders hash uuid_text 3 hundredth TradeMode.dry_run orders allocations))
    ⊎ ((¬ IsPlannable hundredth allocations OrderType.limit)
        × (plan hash uuid_text 3 allocations OrderType.limit hundredth TradeMode.dry_run
            ≡ err Error.execution_planning))
plan_exact_example =
    plan_exact hash uuid_text 3 hundredth TradeMode.dry_run (lots_sized 1 ∷ lots_sized 2 ∷ [])
      OrderType.limit

limit_price_bounds_example :
    (buy_price (from_int 100) hundredth ≤D limit_price OrderDirection.buy (from_int 100) hundredth)
    × IsLess
        (limit_price OrderDirection.buy (from_int 100) hundredth)
        (buy_price (from_int 100) hundredth +D hundredth)
    × (limit_price OrderDirection.sell (from_int 100) hundredth
        ≤D sell_price (from_int 100) hundredth)
    × IsLess
        (sell_price (from_int 100) hundredth -D hundredth)
        (limit_price OrderDirection.sell (from_int 100) hundredth)
limit_price_bounds_example = limit_price_bounds (from_int 100) hundredth (omega arith) (omega arith)

abbrev empty_store : Store
empty_store = store_with [] TradeMode.dry_run

abbrev saved_order : PlannedOrder
saved_order = record (order_in 50 PlannedOrderStatus.planned TradeMode.dry_run) { id = 50 }

save_result : (save_orders plan_one (item ∷ []) empty_store).0 ≡ ok (saved_order ∷ [])
unfolding save_orders initial_order_status
save_result = refl

save_orders_again_example :
    let s' = (save_orders plan_one (item ∷ []) empty_store).1 in
    (length (saved_order ∷ []) ≡ length (item ∷ []))
    × ((save_orders plan_one (item ∷ []) s').1.orders ≡ s'.orders)
    × (again : List PlannedOrder) × ((save_orders plan_one (item ∷ []) s').0 ≡ ok again)
save_orders_again_example =
    save_orders_again plan_one (item ∷ []) empty_store {orders = saved_order ∷ []} save_result
