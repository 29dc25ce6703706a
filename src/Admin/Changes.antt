-- ===== src/Admin/Changes.antt =====
-- app/admin/service.py: how a payload changes a row. `is_refused` says that the flush raises, since a
-- column that is not nullable would become null; `applied` is the row that `apply_changes` makes.
use auto_invest_manager.Base.{Bool, true, false, ◌||◌, Result, ok, err, Error}
use auto_invest_manager.Base.Decimal.{Decimal, from_int, ◌+D◌, lt_decimal}
use auto_invest_manager.Models.Entities.{
  SystemSettings, WatchlistItem, RiskProfile, StrategyProfile,
}
use auto_invest_manager.Admin.Schemas.{
  Change, is_null, or_old, or_kept, SystemSettingsUpdate, WatchlistItemUpdate, RiskProfileUpdate,
  StrategyProfileUpdate,
}

abbrev pub settings_is_refused : SystemSettingsUpdate → Bool
settings_is_refused p = is_null p.trade_mode || is_null p.kill_switch

abbrev pub settings_applied : SystemSettingsUpdate → SystemSettings → SystemSettings
settings_applied p x = record {
  trade_mode = or_old x.trade_mode p.trade_mode;
  kill_switch = or_old x.kill_switch p.kill_switch;
}

abbrev pub item_is_refused : WatchlistItemUpdate → Bool
item_is_refused p =
    is_null p.buy_enabled
    || is_null p.sell_enabled
    || is_null p.priority
    || is_null p.min_signal_score

abbrev pub item_applied : WatchlistItemUpdate → WatchlistItem → WatchlistItem
item_applied p x = record x {
  buy_enabled = or_old x.buy_enabled p.buy_enabled;
  sell_enabled = or_old x.sell_enabled p.sell_enabled;
  max_weight = or_kept x.max_weight p.max_weight;
  priority = or_old x.priority p.priority;
  min_signal_score = or_old x.min_signal_score p.min_signal_score;
  manual_target_weight = or_kept x.manual_target_weight p.manual_target_weight;
}

abbrev pub risk_is_refused : RiskProfileUpdate → Bool
risk_is_refused p =
    is_null p.mode
    || is_null p.max_daily_trades
    || is_null p.max_trade_amount
    || is_null p.max_portfolio_drawdown
    || is_null p.max_daily_drawdown
    || is_null p.allow_short_selling
    || is_null p.allow_margin_trading
    || is_null p.allow_futures
    || is_null p.default_order_type
    || is_null p.max_slippage_percent
    || is_null p.trade_cooldown_seconds
    || is_null p.rebalance_threshold_percent

abbrev pub risk_applied : RiskProfileUpdate → RiskProfile → RiskProfile
risk_applied p x = record x {
  mode = or_old x.mode p.mode;
  max_position_weight = or_old x.max_position_weight p.max_position_weight;
  max_sector_weight = or_kept x.max_sector_weight p.max_sector_weight;
  min_cash_weight = or_old x.min_cash_weight p.min_cash_weight;
  max_daily_trades = or_old x.max_daily_trades p.max_daily_trades;
  max_trade_amount = or_old x.max_trade_amount p.max_trade_amount;
  max_portfolio_drawdown = or_old x.max_portfolio_drawdown p.max_portfolio_drawdown;
  max_daily_drawdown = or_old x.max_daily_drawdown p.max_daily_drawdown;
  allow_short_selling = or_old x.allow_short_selling p.allow_short_selling;
  allow_margin_trading = or_old x.allow_margin_trading p.allow_margin_trading;
  allow_futures = or_old x.allow_futures p.allow_futures;
  default_order_type = or_old x.default_order_type p.default_order_type;
  max_slippage_percent = or_old x.max_slippage_percent p.max_slippage_percent;
  trade_cooldown_seconds = or_old x.trade_cooldown_seconds p.trade_cooldown_seconds;
  rebalance_threshold_percent = or_old x.rebalance_threshold_percent p.rebalance_threshold_percent;
}

abbrev pub sum_is_refused : Bool → Result (Unit {0})
sum_is_refused true = err Error.resource_conflict
sum_is_refused false = ok tt

-- `max_position + min_cash > 1`: the sum with None is a TypeError.
abbrev pub check_weights : Change Decimal → Change Decimal → RiskProfile → Result (Unit {0})
check_weights Change.null min_cash x = err Error.other
check_weights max_position Change.null x = err Error.other
check_weights max_position min_cash x = sum_is_refused (
    lt_decimal (from_int 1)
      (or_old x.max_position_weight max_position +D or_old x.min_cash_weight min_cash))

abbrev pub strategy_is_refused : StrategyProfileUpdate → Bool
strategy_is_refused p =
    is_null p.enabled
    || is_null p.trade_mode
    || is_null p.auto_allocation_enabled
    || is_null p.rebalance_mode
    || is_null p.signal_threshold
    || is_null p.minimum_expected_return
    || is_null p.prefer_cash_when_no_signal
    || is_null p.use_protective_asset
    || is_null p.max_wait_days
    || is_null p.base_timeframe

abbrev pub strategy_applied : StrategyProfileUpdate → StrategyProfile → StrategyProfile
strategy_applied p x = record x {
  enabled = or_old x.enabled p.enabled;
  trade_mode = or_old x.trade_mode p.trade_mode;
  auto_allocation_enabled = or_old x.auto_allocation_enabled p.auto_allocation_enabled;
  rebalance_mode = or_old x.rebalance_mode p.rebalance_mode;
  signal_threshold = or_old x.signal_threshold p.signal_threshold;
  minimum_expected_return = or_old x.minimum_expected_return p.minimum_expected_return;
  prefer_cash_when_no_signal = or_old x.prefer_cash_when_no_signal p.prefer_cash_when_no_signal;
  use_protective_asset = or_old x.use_protective_asset p.use_protective_asset;
  max_wait_days = or_old x.max_wait_days p.max_wait_days;
  base_timeframe = or_old x.base_timeframe p.base_timeframe;
}
