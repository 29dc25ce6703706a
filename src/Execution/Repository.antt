-- ===== src/Execution/Repository.antt =====
-- app/execution/repository.py. A method ends in a commit, so it is one change of the store; the
-- unique keys of the tables are checked there.
pub mod Saving
use auto_invest_manager.Base.{
  ℕ, ◌+◌, ◌-◌, ◌*◌, ◌%◌, ◌==◌, Bool, true, false, ◌&&◌, ◌||◌, not, Option, none, some, List, [],
  ◌∷◌, ◌++◌, map, any, find, keep, length, update, max, String, str_eq, leb, if◌then◌else◌, is_some,
  Result, ok, err, Error, RiskReason, Action, gets,
}
use auto_invest_manager.Base.Decimal.{Decimal, from_int, ◌*D◌}
use auto_invest_manager.Models.Enums.{
  TradeMode, PlannedOrderStatus, OrderDirection, is_mode, is_status, is_direction,
}
use auto_invest_manager.Models.Entities.{
  SystemSettings, RiskProfile, WatchlistItem, RebalancePlan, PlannedOrder, VirtualTrade,
  ExecutionOrder, Instrument, TargetAllocation,
}
use auto_invest_manager.Execution.Dto.{PlannedOrderData, SandboxOrderResult}
use auto_invest_manager.Execution.Store.{Store, Environment, add_audit}

unfoldable pub initial_order_status : TradeMode → PlannedOrderStatus
initial_order_status mode =
    if is_mode mode TradeMode.real_manual_confirm
    then PlannedOrderStatus.waiting_confirmation
    else PlannedOrderStatus.planned

abbrev pub get_plan : ℕ → Action Store (Option RebalancePlan)
get_plan plan_id = gets λ s. find (λ p. p.id == plan_id) s.plans

abbrev pub get_settings : Action Store (Option SystemSettings)
get_settings = gets λ s. s.settings

abbrev pub get_risk_profile : Action Store (Option RiskProfile)
get_risk_profile = gets λ s. find (λ r. r.is_active) s.risk_profiles

abbrev pub get_watchlist_item : ℕ → Action Store (Option WatchlistItem)
get_watchlist_item instrument_id =
    gets λ s. find (λ w. w.instrument_id == instrument_id) s.watchlist

abbrev pub has_key : String → PlannedOrder → Bool
has_key key order = str_eq order.idempotency_key key

-- The value that a dict comprehension leaves under a key: the last that has it.
abbrev pub find_last : {A : Type 0} → (A → Bool) → List A → Option A
find_last p [] = none
find_last p (x ∷ xs) = elim (find_last p xs) [
  | some y ↦ some y
  | none ↦ if p x then some x else none
]

abbrev pub instrument_of : RebalancePlan → String → Option Instrument
instrument_of plan uid =
    find_last (λ i. str_eq i.instrument_uid uid) (map (λ a. a.instrument) plan.allocations)

abbrev pub new_order : RebalancePlan → ℕ → PlannedOrderData → Instrument → PlannedOrder
new_order plan id item instrument = record {
  id = id;
  rebalance_plan_id = plan.id;
  instrument_id = instrument.id;
  account_id = plan.source_account_id;
  direction = item.direction;
  lots = item.lots;
  order_type = item.order_type;
  limit_price = item.limit_price;
  reason = item.reason;
  status = initial_order_status item.trade_mode;
  trade_mode = item.trade_mode;
  idempotency_key = item.idempotency_key;
  instrument = instrument;
}

-- What the loop of `save_orders` has: the orders to return, and those to insert.
abbrev pub Saved : Type 0
Saved = List PlannedOrder × List PlannedOrder

abbrev keep_existing : PlannedOrder → Result Saved → Result Saved
keep_existing order (ok (orders, added)) = ok (order ∷ orders, added)
keep_existing order (err e) = err e

abbrev insert_new : Option PlannedOrder → Result Saved → Result Saved
insert_new none rest = err Error.key_error
insert_new (some order) (ok (orders, added)) = ok (order ∷ orders, order ∷ added)
insert_new (some order) (err e) = err e

abbrev make_order : RebalancePlan → ℕ → PlannedOrderData → Option Instrument → Option PlannedOrder
make_order plan id item none = none
make_order plan id item (some instrument) = some (new_order plan id item instrument)

-- The loop over `data`: an order with a known key is returned as it is.
unfoldable pub save_items :
    List PlannedOrder → RebalancePlan → ℕ → List PlannedOrderData → Result Saved
save_items existing plan id [] = ok ([], [])
save_items existing plan id (item ∷ rest) =
    let known = find (has_key item.idempotency_key) existing in
    let saved = save_items existing plan (if is_some known then id else id + 1) rest in
    elim known [
      | some order ↦ keep_existing order saved
      | none ↦ insert_new (make_order plan id item (instrument_of plan item.instrument_uid)) saved
    ]

-- Two rows with one `idempotency_key`.
pub has_repeated_key : List PlannedOrder → Bool
has_repeated_key [] = false
has_repeated_key (o ∷ rest) = any (has_key o.idempotency_key) rest || has_repeated_key rest

abbrev commit_orders : ℕ → Result Saved → Action Store (List PlannedOrder)
commit_orders plan_id (err e) s = (err e, s)
commit_orders plan_id (ok (orders, added)) s =
    if has_repeated_key (s.orders ++ added) then (err Error.integrity, s) else (
      ok orders,
      add_audit "execution_plan.created" "info" "system" plan_id
          (record s { orders = s.orders ++ added; next_id = s.next_id + length added }),
    )

unfoldable pub save_orders :
    RebalancePlan → List PlannedOrderData → Action Store (List PlannedOrder)
unfolding save_items has_repeated_key
save_orders plan items s = commit_orders plan.id (save_items s.orders plan s.next_id items) s

abbrev pub get_order : ℕ → Action Store (Option PlannedOrder)
get_order order_id = gets λ s. find (λ o. o.id == order_id) s.orders

-- `order.virtual_trade`
abbrev pub virtual_trade_of : ℕ → Store → Option VirtualTrade
virtual_trade_of order_id s = find (λ t. t.planned_order_id == order_id) s.trades

abbrev pub set_status : ℕ → PlannedOrderStatus → Store → Store
set_status order_id status s = record s {
  orders = update (λ o. o.id == order_id) (λ o. record o { status = status }) s.orders;
}

-- `f"order.{status.value.lower()}"`
abbrev pub confirmation_event : PlannedOrderStatus → String
confirmation_event PlannedOrderStatus.planned = "order.planned"
confirmation_event PlannedOrderStatus.risk_rejected = "order.risk_rejected"
confirmation_event PlannedOrderStatus.simulated = "order.simulated"
confirmation_event PlannedOrderStatus.submitted = "order.submitted"
confirmation_event PlannedOrderStatus.waiting_confirmation = "order.waiting_confirmation"
confirmation_event PlannedOrderStatus.approved = "order.approved"
confirmation_event PlannedOrderStatus.rejected = "order.rejected"

unfoldable pub set_confirmation_status :
    PlannedOrder → PlannedOrderStatus → Action Store PlannedOrder
set_confirmation_status order status s = (
  ok (record order { status = status }),
  add_audit (confirmation_event status) "info" "admin" order.id (set_status order.id status s),
)

unfoldable pub count_trades_since : ℕ → Store → ℕ
count_trades_since since s =
    length (keep (λ t. leb since t.executed_at) s.trades)
    + length (keep (λ e. leb since e.created_at) s.executions)

abbrev pub max_time : List ℕ → Option ℕ
max_time [] = none
max_time (t ∷ ts) = elim (max_time ts) [ none ↦ some t | some u ↦ some (max t u) ]

abbrev pub is_execution_of : ℕ → Store → ExecutionOrder → Bool
is_execution_of instrument_id s e =
    any (λ o. o.id == e.planned_order_id && o.instrument_id == instrument_id) s.orders

abbrev pub later : Option ℕ → Option ℕ → Option ℕ
later none u = u
later (some t) none = some t
later (some t) (some u) = some (max t u)

unfoldable pub latest_trade_time : ℕ → Store → Option ℕ
latest_trade_time instrument_id s =
    later
      (max_time (map (λ t. t.executed_at) (keep (λ t. t.instrument_id == instrument_id) s.trades)))
      (max_time (map (λ e. e.created_at) (keep (is_execution_of instrument_id s) s.executions)))

unfoldable pub has_duplicate_order : PlannedOrder → Store → Bool
has_duplicate_order order s =
    any
      (λ o.
        not (o.id == order.id)
        && (o.instrument_id == order.instrument_id
            && (is_direction o.direction order.direction
                && is_status o.status PlannedOrderStatus.planned)))
      s.orders

unfoldable pub reject : PlannedOrder → List RiskReason → Action Store (Unit {0})
reject order reasons s = (
  ok tt,
  add_audit "order.risk_rejected" "warning" "system" order.id
      (set_status order.id PlannedOrderStatus.risk_rejected s),
)

abbrev pub virtual_trade : Environment → PlannedOrder → Store → VirtualTrade
virtual_trade env order s = record {
  id = s.next_id;
  planned_order_id = order.id;
  instrument_id = order.instrument_id;
  direction = order.direction;
  lots = order.lots;
  price = order.limit_price;
  total_amount = order.limit_price *D from_int order.instrument.lot *D from_int order.lots;
  executed_at = env.clock s.calls;
}

abbrev add_trade : VirtualTrade → Store → Store
add_trade trade s = record s {
  trades = s.trades ++ trade ∷ [];
  next_id = s.next_id + 1;
  calls = s.calls + 1;
}

unfoldable pub simulate : Environment → PlannedOrder → Action Store VirtualTrade
simulate env order s = (
  ok (virtual_trade env order s),
  add_audit "order.simulated" "info" "system" order.id
      (set_status order.id PlannedOrderStatus.simulated (add_trade (virtual_trade env order s) s)),
)

abbrev pub get_execution_order : ℕ → Action Store (Option ExecutionOrder)
get_execution_order order_id = gets λ s. find (λ e. e.planned_order_id == order_id) s.executions

abbrev pub execution_order :
    Environment → PlannedOrder → SandboxOrderResult → Store → ExecutionOrder
execution_order env order result s = record {
  id = s.next_id;
  planned_order_id = order.id;
  broker_order_id = result.broker_order_id;
  broker_status = result.broker_status;
  lots_requested = result.lots_requested;
  lots_executed = result.lots_executed;
  execution_price = result.execution_price;
  total_amount = result.total_amount;
  trade_mode = TradeMode.sandbox;
  events = record { event_type = "ORDER_POSTED"; broker_status = result.broker_status } ∷ [];
  created_at = env.clock s.calls;
}

abbrev add_execution : ExecutionOrder → Store → Store
add_execution execution s = record s {
  executions = s.executions ++ execution ∷ [];
  next_id = s.next_id + 1;
  calls = s.calls + 1;
}

-- `broker_order_id` is unique: a repeated one fails the commit.
unfoldable pub save_sandbox_execution :
    Environment → PlannedOrder → SandboxOrderResult → Action Store ExecutionOrder
save_sandbox_execution env order result s =
    if any (λ e. str_eq e.broker_order_id result.broker_order_id) s.executions
    then (err Error.integrity, s)
    else (
      ok (execution_order env order result s),
      add_audit "order.sandbox_posted" "info" "system" order.id (
          set_status order.id PlannedOrderStatus.submitted
            (add_execution (execution_order env order result s) s)),
    )
