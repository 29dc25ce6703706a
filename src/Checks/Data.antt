-- ===== src/Checks/Data.antt =====
-- A small portfolio: one instrument, one account, one plan, and a broker that answers.
use auto_invest_manager.Base.{ℕ, true, false, none, some, List, [], ◌∷◌, ok}
use auto_invest_manager.Base.Decimal.{from_int, hundredth}
use auto_invest_manager.Models.Enums.{
  TradeMode, OrderType, RiskMode, AllocationAction, OrderDirection, PlannedOrderStatus,
  RebalancePlanStatus,
}
use auto_invest_manager.Models.Entities.{
  Instrument, WatchlistItem, RiskProfile, TargetAllocation, RebalancePlan, PlannedOrder,
}
use auto_invest_manager.Execution.Dto.{MoneyData}
use auto_invest_manager.Execution.Store.{Store, Environment}

abbrev pub share : Instrument
share = record {
  id = 7;
  instrument_uid = "uid-7";
  figi = none;
  ticker = "SBER";
  class_code = "TQBR";
  name = "Sber";
  instrument_type = "share";
  currency = "rub";
  lot = 10;
  is_active = true;
}

abbrev pub watched : WatchlistItem
watched = record {
  id = 1;
  instrument_id = 7;
  buy_enabled = true;
  sell_enabled = true;
  max_weight = none;
  priority = 1;
  min_signal_score = from_int 0;
  manual_target_weight = none;
  instrument = share;
}

abbrev pub profile : RiskProfile
profile = record {
  id = 1;
  name = "balanced";
  mode = RiskMode.balanced;
  is_active = true;
  max_position_weight = from_int 1;
  max_sector_weight = none;
  min_cash_weight = from_int 0;
  max_daily_trades = 5;
  max_trade_amount = from_int 5000;
  max_portfolio_drawdown = from_int 1;
  max_daily_drawdown = from_int 1;
  allow_short_selling = false;
  allow_margin_trading = false;
  allow_futures = false;
  default_order_type = OrderType.limit;
  max_slippage_percent = hundredth;
  trade_cooldown_seconds = 0;
  rebalance_threshold_percent = from_int 0;
}

abbrev pub allocation : TargetAllocation
allocation = record {
  id = 1;
  instrument_id = 7;
  target_weight = from_int 1;
  current_weight = from_int 0;
  signal_score = from_int 1;
  target_amount = from_int 2000;
  delta_amount = from_int 2000;
  action = AllocationAction.buy;
  recommended_lots = 2;
  reason = "signal";
  instrument = share;
}

abbrev pub plan_one : RebalancePlan
plan_one = record {
  id = 3;
  source_account_id = "acc";
  status = RebalancePlanStatus.draft;
  portfolio_value = from_int 10000;
  cash_available = from_int 10000;
  target_cash_weight = from_int 0;
  reason = "rebalance";
  allocations = allocation ∷ [];
}

abbrev pub order_in : ℕ → PlannedOrderStatus → TradeMode → PlannedOrder
order_in id status mode = record {
  id = id;
  rebalance_plan_id = 3;
  instrument_id = 7;
  account_id = "acc";
  direction = OrderDirection.buy;
  lots = 2;
  order_type = OrderType.limit;
  limit_price = from_int 100;
  reason = "signal";
  status = status;
  trade_mode = mode;
  idempotency_key = "key";
  instrument = share;
}

abbrev pub store_with : List PlannedOrder → TradeMode → Store
store_with orders mode = record {
  settings = some (record { trade_mode = mode; kill_switch = false });
  risk_profiles = profile ∷ [];
  watchlist = watched ∷ [];
  plans = plan_one ∷ [];
  orders = orders;
  trades = [];
  executions = [];
  audit = [];
  sent = [];
  posted = [];
  next_id = 50;
  calls = 0;
}

abbrev pub rubles : ℕ → MoneyData
rubles n = record { amount = from_int n; currency = "rub" }

abbrev pub env_at : Environment
env_at = record {
  clock = λ n. 1000000;
  get_portfolio = λ n account. ok (record {
    account_id = account;
    total_amount = rubles 10000;
    expected_yield = from_int 0;
    positions = [];
    captured_at = 1000000;
  });
  get_last_prices =
      λ n uids. ok (record { instrument_uid = "uid-7"; price = from_int 100; time = 1000000 } ∷ []);
  get_trading_status = λ n uid. ok (record {
    instrument_uid = uid;
    api_trade_available = true;
    market_order_available = true;
    limit_order_available = true;
  });
  post_sandbox_order = λ n request. ok (record {
    broker_order_id = "b-1";
    broker_status = "FILL";
    lots_requested = 2;
    lots_executed = 2;
    execution_price = from_int 100;
    total_amount = from_int 2000;
  });
  broker_provider = "tinvest";
  tinvest_target = "sandbox";
  market_price_max_age_seconds = 60;
}
