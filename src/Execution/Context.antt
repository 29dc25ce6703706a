-- ===== src/Execution/Context.antt =====
-- app/execution/service.py: the risk context of an order, from the answers of the broker, the clock
-- and the rows of the store.
use auto_invest_manager.Base.{
  ℕ, ◌+◌, ◌-◌, ◌*◌, ◌%◌, ◌==◌, Bool, false, ◌&&◌, Option, none, some, List, [], ◌∷◌, map, find,
  String, str_eq, ltb, if◌then◌else◌, is_some, Result, ok, err, Error, Action, lift, gets, or_raise,
  ◌>>=◌,
}
use auto_invest_manager.Base.Decimal.{
  Decimal, from_int, ◌-D◌, ◌*D◌, ◌/D◌, max_decimal, sum_decimal, truncate,
}
use auto_invest_manager.Models.Enums.{TradeMode, OrderDirection, OrderType}
use auto_invest_manager.Models.Entities.{SystemSettings, RiskProfile, WatchlistItem, PlannedOrder}
use auto_invest_manager.Execution.Dto.{
  PlannedOrderData, RiskContext, PositionData, PortfolioData, LastPriceData, TradingStatusData,
}
use auto_invest_manager.Execution.Store.{Store, Environment, call}
use auto_invest_manager.Execution.Repository.{
  get_settings, get_risk_profile, get_watchlist_item, count_trades_since, latest_trade_time,
  has_duplicate_order,
}

-- `_to_data`
abbrev pub to_data : PlannedOrder → PlannedOrderData
to_data order = record {
  instrument_uid = order.instrument.instrument_uid;
  ticker = order.instrument.ticker;
  direction = order.direction;
  lots = order.lots;
  lot_size = order.instrument.lot;
  order_type = order.order_type;
  limit_price = order.limit_price;
  reason = order.reason;
  trade_mode = order.trade_mode;
  idempotency_key = order.idempotency_key;
}

abbrev pub direction_allowed : Option WatchlistItem → OrderDirection → Bool
direction_allowed none d = false
direction_allowed (some item) OrderDirection.buy = item.buy_enabled
direction_allowed (some item) OrderDirection.sell = item.sell_enabled

abbrev pub order_type_available : TradingStatusData → OrderType → Bool
order_type_available trading OrderType.limit = trading.limit_order_available
order_type_available trading OrderType.market = trading.market_order_available

abbrev pub first : List LastPriceData → Option LastPriceData
first [] = none
first (p ∷ ps) = some p

abbrev pub position_of : String → PortfolioData → Option PositionData
position_of uid portfolio = find (λ p. str_eq p.instrument_uid uid) portfolio.positions

abbrev pub position_value : PositionData → Decimal
position_value p = p.quantity *D p.current_price.amount

abbrev pub positions_value : PortfolioData → Decimal
positions_value portfolio = sum_decimal (map position_value portfolio.positions)

abbrev pub value_of : Option PositionData → Decimal
value_of none = from_int 0
value_of (some p) = position_value p

-- `int(position.quantity / order.instrument.lot) if position else 0`
abbrev pub lots_of : Option PositionData → ℕ → Result ℕ
lots_of none lot = ok 0
lots_of (some p) lot =
    if lot == 0 then err Error.division_by_zero else ok (truncate (p.quantity /D from_int lot))

-- `now - latest_trade_time < timedelta(seconds=…)`
abbrev pub is_cooling : Option ℕ → ℕ → ℕ → Bool
is_cooling none now seconds = false
is_cooling (some t) now seconds = ltb now (t + seconds * 1000000)

-- `now.replace(hour=0, minute=0, second=0, microsecond=0)`
abbrev pub start_of_day : ℕ → ℕ
start_of_day now = now - now % 86400000000

-- The negation of the test of `_ensure_sandbox_configuration`.
abbrev pub sandbox_configured : Environment → Bool
sandbox_configured env = str_eq env.broker_provider "tinvest" && str_eq env.tinvest_target "sandbox"

module _ (env : Environment) where
  -- The context of an order, from the answers of the broker and the rows of the store.
  unfoldable pub risk_context :
      PlannedOrder
      → TradeMode
      → SystemSettings
      → RiskProfile
      → Option WatchlistItem
      → PortfolioData
      → LastPriceData
      → TradingStatusData
      → ℕ
      → ℕ
      → Store
      → RiskContext
  risk_context order mode system risk watchlist portfolio price trading lots now s = record {
    kill_switch = system.kill_switch;
    trade_mode = system.trade_mode;
    required_trade_mode = mode;
    account_id = order.account_id;
    expected_account_id = portfolio.account_id;
    in_watchlist = is_some watchlist;
    direction_allowed = direction_allowed watchlist order.direction;
    api_trade_available = trading.api_trade_available;
    order_type_available = order_type_available trading order.order_type;
    price_time = price.time;
    now = now;
    max_price_age_seconds = env.market_price_max_age_seconds;
    market_price = price.price;
    max_slippage_percent = risk.max_slippage_percent;
    cash_available =
        max_decimal (from_int 0) (portfolio.total_amount.amount -D positions_value portfolio);
    current_position_lots = lots;
    current_position_value = value_of (position_of order.instrument.instrument_uid portfolio);
    portfolio_value = portfolio.total_amount.amount;
    max_position_weight = risk.max_position_weight;
    max_trade_amount = risk.max_trade_amount;
    daily_trades = count_trades_since (start_of_day now) s;
    max_daily_trades = risk.max_daily_trades;
    cooldown_active =
        is_cooling (latest_trade_time order.instrument_id s) now risk.trade_cooldown_seconds;
    duplicate_active_order = has_duplicate_order order s;
    idempotency_key_exists = false;
  }

  -- The second half of `_build_risk_context`: the broker is asked, then the clock.
  unfoldable pub ask_broker :
      PlannedOrder
      → TradeMode
      → SystemSettings
      → RiskProfile
      → Option WatchlistItem
      → Action Store RiskContext
  ask_broker order mode system risk watchlist = do
    portfolio ← call (λ n. env.get_portfolio n order.account_id)
    prices ← call (λ n. env.get_last_prices n (order.instrument.instrument_uid ∷ []))
    price ← or_raise (first prices) Error.index_error
    trading ← call (λ n. env.get_trading_status n order.instrument.instrument_uid)
    now ← call (λ n. ok (env.clock n))
    lots ←
        lift (lots_of (position_of order.instrument.instrument_uid portfolio) order.instrument.lot)
    gets (risk_context order mode system risk watchlist portfolio price trading lots now)

  -- `_build_risk_context`
  unfoldable pub build_risk_context : PlannedOrder → TradeMode → Action Store RiskContext
  build_risk_context order mode = do
    settings ← get_settings
    profile ← get_risk_profile
    watchlist ← get_watchlist_item order.instrument_id
    system ← or_raise settings Error.resource_not_found
    risk ← or_raise profile Error.resource_not_found
    ask_broker order mode system risk watchlist
