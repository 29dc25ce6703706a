-- ===== src/Models/Entities.antt =====
-- app/models/entities.py: the rows of the tables that the modelled code reads and writes. Ids are
-- numbers, times are microseconds, and `created_at` and `updated_at` are left out. A relationship
-- that the code follows (`order.instrument`) is a field that holds the row.
use auto_invest_manager.Base.{ℕ, Bool, Option, List, String}
use auto_invest_manager.Base.Decimal.{Decimal}
use auto_invest_manager.Models.Enums.{
  TradeMode, OrderType, RiskMode, RebalanceMode, AllocationAction, OrderDirection,
  PlannedOrderStatus, RebalancePlanStatus, AutomationTrigger, AutomationRunStatus, AutomationStep,
  BrokerStreamType, BrokerStreamEventKind, StreamEventProcessingStatus, BrokerStreamStatus,
  SignalRecommendation, AccountEventType, ReconciliationStatus, ReconciliationReason,
}

pub record SystemSettings : Type 0 where
  pub trade_mode : TradeMode
  pub kill_switch : Bool

pub record Instrument : Type 0 where
  pub id : ℕ
  pub instrument_uid : String
  pub figi : Option String
  pub ticker : String
  pub class_code : String
  pub name : String
  pub instrument_type : String
  pub currency : String
  pub lot : ℕ
  pub is_active : Bool

pub record WatchlistItem : Type 0 where
  pub id : ℕ
  pub instrument_id : ℕ
  pub buy_enabled : Bool
  pub sell_enabled : Bool
  pub max_weight : Option Decimal
  pub priority : ℕ
  pub min_signal_score : Decimal
  pub manual_target_weight : Option Decimal
  pub instrument : Instrument

pub record RiskProfile : Type 0 where
  pub id : ℕ
  pub name : String
  pub mode : RiskMode
  pub is_active : Bool
  pub max_position_weight : Decimal
  pub max_sector_weight : Option Decimal
  pub min_cash_weight : Decimal
  pub max_daily_trades : ℕ
  pub max_trade_amount : Decimal
  pub max_portfolio_drawdown : Decimal
  pub max_daily_drawdown : Decimal
  pub allow_short_selling : Bool
  pub allow_margin_trading : Bool
  pub allow_futures : Bool
  pub default_order_type : OrderType
  pub max_slippage_percent : Decimal
  pub trade_cooldown_seconds : ℕ
  pub rebalance_threshold_percent : Decimal

pub record StrategyProfile : Type 0 where
  pub id : ℕ
  pub name : String
  pub enabled : Bool
  pub trade_mode : TradeMode
  pub auto_allocation_enabled : Bool
  pub rebalance_mode : RebalanceMode
  pub signal_threshold : Decimal
  pub minimum_expected_return : Decimal
  pub prefer_cash_when_no_signal : Bool
  pub use_protective_asset : Bool
  pub max_wait_days : ℕ
  pub base_timeframe : String

pub record Signal : Type 0 where
  pub instrument_id : ℕ
  pub timeframe : String
  pub trend_score : Decimal
  pub moving_average_score : Decimal
  pub volatility_score : Decimal
  pub volume_score : Decimal
  pub drawdown_score : Decimal
  pub final_score : Decimal
  pub recommendation : SignalRecommendation
  pub price : Decimal
  pub reason : String
  pub model_version : String
  pub calculated_at : ℕ

pub record TargetAllocation : Type 0 where
  pub id : ℕ
  pub instrument_id : ℕ
  pub target_weight : Decimal
  pub current_weight : Decimal
  pub signal_score : Decimal
  pub target_amount : Decimal
  pub delta_amount : Decimal
  pub action : AllocationAction
  pub recommended_lots : ℕ
  pub reason : String
  pub instrument : Instrument

pub record RebalancePlan : Type 0 where
  pub id : ℕ
  pub source_account_id : String
  pub status : RebalancePlanStatus
  pub portfolio_value : Decimal
  pub cash_available : Decimal
  pub target_cash_weight : Decimal
  pub reason : String
  pub allocations : List TargetAllocation

pub record VirtualTrade : Type 0 where
  pub id : ℕ
  pub planned_order_id : ℕ
  pub instrument_id : ℕ
  pub direction : OrderDirection
  pub lots : ℕ
  pub price : Decimal
  pub total_amount : Decimal
  pub executed_at : ℕ

-- `order.virtual_trade` is looked up by `planned_order_id`.
pub record PlannedOrder : Type 0 where
  pub id : ℕ
  pub rebalance_plan_id : ℕ
  pub instrument_id : ℕ
  pub account_id : String
  pub direction : OrderDirection
  pub lots : ℕ
  pub order_type : OrderType
  pub limit_price : Decimal
  pub reason : String
  pub status : PlannedOrderStatus
  pub trade_mode : TradeMode
  pub idempotency_key : String
  pub instrument : Instrument

pub record OrderEvent : Type 0 where
  pub event_type : String
  pub broker_status : String

pub record ExecutionOrder : Type 0 where
  pub id : ℕ
  pub planned_order_id : ℕ
  pub broker_order_id : String
  pub broker_status : String
  pub lots_requested : ℕ
  pub lots_executed : ℕ
  pub execution_price : Decimal
  pub total_amount : Decimal
  pub trade_mode : TradeMode
  pub events : List OrderEvent
  pub created_at : ℕ

-- `message` and `context` are left out: `subject` is the id that the context names.
pub record AuditLog : Type 0 where
  pub event_type : String
  pub severity : String
  pub actor : String
  pub subject : ℕ

pub record AutomationRun : Type 0 where
  pub id : ℕ
  pub trigger : AutomationTrigger
  pub status : AutomationRunStatus
  pub trade_mode : TradeMode
  pub started_at : Option ℕ
  pub finished_at : Option ℕ
  pub heartbeat_at : Option ℕ
  pub account_id : Option String
  pub correlation_id : String
  pub current_step : AutomationStep
  pub signals_count : ℕ
  pub rebalance_plan_id : Option ℕ
  pub planned_orders_count : ℕ
  pub executed_orders_count : ℕ
  pub virtual_trades_count : ℕ
  pub error_code : Option String
  pub error_message : Option String
  pub run_metadata : List (String × String)

pub record BrokerStreamEventRecord : Type 0 where
  pub id : ℕ
  pub provider : String
  pub target : String
  pub stream_type : BrokerStreamType
  pub event_kind : BrokerStreamEventKind
  pub account_id : String
  pub broker_event_time : Option ℕ
  pub received_at : ℕ
  pub source_event_id : Option String
  pub dedupe_key : String
  pub payload : List (String × String)
  pub processing_status : StreamEventProcessingStatus
  pub processing_attempts : ℕ
  pub processed_at : Option ℕ
  pub next_attempt_at : Option ℕ
  pub error_code : Option String
  pub error_message : Option String
  pub correlation_id : String

pub record BrokerStreamState : Type 0 where
  pub provider : String
  pub target : String
  pub stream_type : BrokerStreamType
  pub account_set_hash : String
  pub instance_id : String
  pub status : BrokerStreamStatus
  pub disconnected_at : Option ℕ

pub record BrokerOperationCursor : Type 0 where
  pub account_id : String
  pub provider : String
  pub target : String
  pub cursor : Option String
  pub last_operation_time : Option ℕ
  pub last_successful_sync_at : Option ℕ
  pub last_operation_fingerprint : Option String

-- `event_metadata` is left out.
pub record AccountEvent : Type 0 where
  pub account_id : String
  pub event_type : AccountEventType
  pub operation_id : Option String
  pub operation_type : Option String
  pub amount : Option Decimal
  pub currency : Option String
  pub occurred_at : ℕ
  pub fingerprint : String
  pub correlation_id : String

pub record AccountReconciliation : Type 0 where
  pub id : ℕ
  pub account_id : String
  pub status : ReconciliationStatus
  pub reasons : List ReconciliationReason
  pub correlation_id : String
  pub started_at : Option ℕ
  pub finished_at : Option ℕ
  pub operations_count : ℕ
  pub account_events_count : ℕ
  pub error_code : Option String
  pub error_message : Option String
