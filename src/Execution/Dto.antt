-- ===== src/Execution/Dto.antt =====
-- app/execution/dto.py, and the data of app/broker/dto.py that the execution reads. Times are
-- microseconds; lots, lot sizes and seconds are not negative.
use auto_invest_manager.Base.{ℕ, Bool, Option, List, String, RiskReason}
use auto_invest_manager.Base.Decimal.{Decimal}
use auto_invest_manager.Models.Enums.{OrderDirection, OrderType, TradeMode}

pub record ExecutionAllocation : Type 0 where
  pub instrument_uid : String
  pub ticker : String
  pub direction : OrderDirection
  pub lots : ℕ
  pub lot_size : ℕ
  pub market_price : Decimal
  pub reason : String

pub record PlannedOrderData : Type 0 where
  pub instrument_uid : String
  pub ticker : String
  pub direction : OrderDirection
  pub lots : ℕ
  pub lot_size : ℕ
  pub order_type : OrderType
  pub limit_price : Decimal
  pub reason : String
  pub trade_mode : TradeMode
  pub idempotency_key : String

pub record RiskContext : Type 0 where
  pub kill_switch : Bool
  pub trade_mode : TradeMode
  pub required_trade_mode : TradeMode
  pub account_id : String
  pub expected_account_id : String
  pub in_watchlist : Bool
  pub direction_allowed : Bool
  pub api_trade_available : Bool
  pub order_type_available : Bool
  pub price_time : ℕ
  pub now : ℕ
  pub max_price_age_seconds : ℕ
  pub market_price : Decimal
  pub max_slippage_percent : Decimal
  pub cash_available : Decimal
  pub current_position_lots : ℕ
  pub current_position_value : Decimal
  pub portfolio_value : Decimal
  pub max_position_weight : Decimal
  pub max_trade_amount : Decimal
  pub daily_trades : ℕ
  pub max_daily_trades : ℕ
  pub cooldown_active : Bool
  pub duplicate_active_order : Bool
  pub idempotency_key_exists : Bool

pub record RiskDecision : Type 0 where
  pub allowed : Bool
  pub reasons : List RiskReason

pub record MoneyData : Type 0 where
  pub amount : Decimal
  pub currency : String

pub record PositionData : Type 0 where
  pub instrument_uid : String
  pub figi : String
  pub quantity : Decimal
  pub current_price : MoneyData
  pub average_price : Option MoneyData

pub record PortfolioData : Type 0 where
  pub account_id : String
  pub total_amount : MoneyData
  pub expected_yield : Decimal
  pub positions : List PositionData
  pub captured_at : ℕ

pub record LastPriceData : Type 0 where
  pub instrument_uid : String
  pub price : Decimal
  pub time : ℕ

pub record TradingStatusData : Type 0 where
  pub instrument_uid : String
  pub api_trade_available : Bool
  pub market_order_available : Bool
  pub limit_order_available : Bool

pub record SandboxOrderRequest : Type 0 where
  pub account_id : String
  pub instrument_uid : String
  pub quantity_lots : ℕ
  pub direction : OrderDirection
  pub order_type : OrderType
  pub price : Decimal
  pub order_id : String

pub record SandboxOrderResult : Type 0 where
  pub broker_order_id : String
  pub broker_status : String
  pub lots_requested : ℕ
  pub lots_executed : ℕ
  pub execution_price : Decimal
  pub total_amount : Decimal
