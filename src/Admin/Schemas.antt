-- ===== src/Admin/Schemas.antt =====
-- app/admin/schemas.py: what an administrator may send, with the checks of the fields. A field of an
-- update is absent, null or a value. The patterns and lengths of the texts and the numbers of digits
-- are not modelled.
use auto_invest_manager.Base.{
  ℕ, Bool, true, false, ◌&&◌, ◌||◌, not, Option, none, some, String, str_eq, leb,
}
use auto_invest_manager.Base.Decimal.{Decimal, from_int, le_decimal, lt_decimal}
use auto_invest_manager.Models.Enums.{TradeMode, RiskMode, OrderType, RebalanceMode}

pub data Change (A : Type 0) : Type 0 where
  absent null : Change A
  value : A → Change A

module _ {A : Type 0} where
  -- Whether a column that is not nullable is set to null.
  abbrev pub is_null : Change A → Bool
  is_null Change.null = true
  is_null _ = false

  -- The value of a column that is not nullable, behind that test.
  abbrev pub or_old : A → Change A → A
  or_old old (Change.value new) = new
  or_old old _ = old

  -- The value of a nullable column.
  abbrev pub or_kept : Option A → Change A → Option A
  or_kept old (Change.value new) = some new
  or_kept old Change.null = none
  or_kept old Change.absent = old

  -- The check of the value of a field; an absent field and null pass.
  abbrev pub is_ok : (A → Bool) → Change A → Bool
  is_ok p (Change.value a) = p a
  is_ok p _ = true

  abbrev pub passes : (A → Bool) → Option A → Bool
  passes p none = true
  passes p (some a) = p a

-- `Weight`
abbrev pub is_weight : Decimal → Bool
is_weight d = le_decimal (from_int 0) d && le_decimal d (from_int 1)

-- `PositiveMoney`
abbrev pub is_positive_money : Decimal → Bool
is_positive_money d = lt_decimal (from_int 0) d

-- `target is not None and max is not None and target > max`
abbrev pub exceeds : Option Decimal → Option Decimal → Bool
exceeds (some target) (some max) = lt_decimal max target
exceeds _ _ = false

pub record InstrumentReference : Type 0 where
  pub ticker : String
  pub class_code : String

pub record SystemSettingsUpdate : Type 0 where
  pub trade_mode : Change TradeMode
  pub kill_switch : Change Bool

pub record WatchlistItemCreate : Type 0 where
  pub reference : InstrumentReference
  pub buy_enabled : Bool
  pub sell_enabled : Bool
  pub max_weight : Option Decimal
  pub priority : ℕ
  pub min_signal_score : Decimal
  pub manual_target_weight : Option Decimal

pub record WatchlistItemUpdate : Type 0 where
  pub buy_enabled : Change Bool
  pub sell_enabled : Change Bool
  pub max_weight : Change Decimal
  pub priority : Change ℕ
  pub min_signal_score : Change Decimal
  pub manual_target_weight : Change Decimal

pub record RiskProfileUpdate : Type 0 where
  pub mode : Change RiskMode
  pub max_position_weight : Change Decimal
  pub max_sector_weight : Change Decimal
  pub min_cash_weight : Change Decimal
  pub max_daily_trades : Change ℕ
  pub max_trade_amount : Change Decimal
  pub max_portfolio_drawdown : Change Decimal
  pub max_daily_drawdown : Change Decimal
  pub allow_short_selling : Change Bool
  pub allow_margin_trading : Change Bool
  pub allow_futures : Change Bool
  pub default_order_type : Change OrderType
  pub max_slippage_percent : Change Decimal
  pub trade_cooldown_seconds : Change ℕ
  pub rebalance_threshold_percent : Change Decimal

pub record StrategyProfileUpdate : Type 0 where
  pub enabled : Change Bool
  pub trade_mode : Change TradeMode
  pub auto_allocation_enabled : Change Bool
  pub rebalance_mode : Change RebalanceMode
  pub signal_threshold : Change Decimal
  pub minimum_expected_return : Change Decimal
  pub prefer_cash_when_no_signal : Change Bool
  pub use_protective_asset : Change Bool
  pub max_wait_days : Change ℕ
  pub base_timeframe : Change String

-- The checks of the classes: the constraints of the fields, and the model validator.
abbrev pub is_valid_create : WatchlistItemCreate → Bool
is_valid_create p =
    passes is_weight p.max_weight
    && leb p.priority 10000
    && is_weight p.min_signal_score
    && passes is_weight p.manual_target_weight
    && not (exceeds p.manual_target_weight p.max_weight)

abbrev pub is_valid_item_update : WatchlistItemUpdate → Bool
is_valid_item_update p =
    is_ok is_weight p.max_weight
    && is_ok (λ n. leb n 10000) p.priority
    && is_ok is_weight p.min_signal_score
    && is_ok is_weight p.manual_target_weight

abbrev pub is_valid_risk_update : RiskProfileUpdate → Bool
is_valid_risk_update p =
    is_ok is_weight p.max_position_weight
    && is_ok is_weight p.max_sector_weight
    && is_ok is_weight p.min_cash_weight
    && is_ok (λ n. leb n 10000) p.max_daily_trades
    && is_ok is_positive_money p.max_trade_amount
    && is_ok is_weight p.max_portfolio_drawdown
    && is_ok is_weight p.max_daily_drawdown
    && is_ok is_weight p.max_slippage_percent
    && is_ok (λ n. leb n 31536000) p.trade_cooldown_seconds
    && is_ok is_weight p.rebalance_threshold_percent

abbrev pub is_valid_strategy_update : StrategyProfileUpdate → Bool
is_valid_strategy_update p =
    is_ok is_weight p.signal_threshold
    && is_ok is_weight p.minimum_expected_return
    && is_ok (λ n. leb n 3650) p.max_wait_days
    && is_ok (λ t. str_eq t "1h" || str_eq t "1d") p.base_timeframe
