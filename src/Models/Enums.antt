-- ===== src/Models/Enums.antt =====
-- app/models/enums.py: each StrEnum is a data type with the source's members.
use auto_invest_manager.Base.{ℕ, Bool, true, ◌==◌, ◌≡◌, arith}

pub data TradeMode : Type 0 where
  off signal_only dry_run sandbox real_manual_confirm real_auto_safe : TradeMode

pub data RiskMode : Type 0 where
  conservative balanced aggressive custom : RiskMode

pub data RebalanceMode : Type 0 where
  on_deposit daily weekly threshold manual : RebalanceMode

pub data OrderType : Type 0 where
  limit market : OrderType

pub data SignalRecommendation : Type 0 where
  buy hold sell wait : SignalRecommendation

pub data RebalancePlanStatus : Type 0 where
  draft approved rejected executed : RebalancePlanStatus

pub data AllocationAction : Type 0 where
  buy sell hold : AllocationAction

pub data OrderDirection : Type 0 where
  buy sell : OrderDirection

pub data PlannedOrderStatus : Type 0 where
  planned risk_rejected simulated submitted waiting_confirmation approved : PlannedOrderStatus
  rejected : PlannedOrderStatus

pub data AutomationTrigger : Type 0 where
  manual scheduled account_change deposit_detected recovery : AutomationTrigger

pub data AutomationRunStatus : Type 0 where
  pending running succeeded skipped failed cancelled : AutomationRunStatus

pub data AutomationStep : Type 0 where
  safety_check account_sync portfolio_sync market_data_sync signal_analysis : AutomationStep
  portfolio_optimization rebalance_planning execution_planning mode_execution : AutomationStep
  final_reconciliation completed : AutomationStep

pub data BrokerStreamType : Type 0 where
  portfolio positions trades : BrokerStreamType

pub data BrokerStreamEventKind : Type 0 where
  portfolio_updated positions_updated user_trade_executed : BrokerStreamEventKind
  subscription_status ping : BrokerStreamEventKind

pub data StreamEventProcessingStatus : Type 0 where
  pending processing processed ignored failed dead_letter : StreamEventProcessingStatus

pub data BrokerStreamStatus : Type 0 where
  disabled starting connecting connected degraded reconnecting failed stopped : BrokerStreamStatus

pub data AccountEventType : Type 0 where
  account_change deposit_detected withdrawal_detected order_execution_detected : AccountEventType

pub data ReconciliationStatus : Type 0 where
  pending running succeeded failed : ReconciliationStatus

pub data ReconciliationReason : Type 0 where
  portfolio_changed positions_changed user_trade stream_reconnected manual : ReconciliationReason

-- The place of a member in its class; `a is b` compares places.
abbrev mode_index : TradeMode → ℕ
mode_index TradeMode.off = 0
mode_index TradeMode.signal_only = 1
mode_index TradeMode.dry_run = 2
mode_index TradeMode.sandbox = 3
mode_index TradeMode.real_manual_confirm = 4
mode_index TradeMode.real_auto_safe = 5

abbrev status_index : PlannedOrderStatus → ℕ
status_index PlannedOrderStatus.planned = 0
status_index PlannedOrderStatus.risk_rejected = 1
status_index PlannedOrderStatus.simulated = 2
status_index PlannedOrderStatus.submitted = 3
status_index PlannedOrderStatus.waiting_confirmation = 4
status_index PlannedOrderStatus.approved = 5
status_index PlannedOrderStatus.rejected = 6

abbrev direction_index : OrderDirection → ℕ
direction_index OrderDirection.buy = 0
direction_index OrderDirection.sell = 1

abbrev run_status_index : AutomationRunStatus → ℕ
run_status_index AutomationRunStatus.pending = 0
run_status_index AutomationRunStatus.running = 1
run_status_index AutomationRunStatus.succeeded = 2
run_status_index AutomationRunStatus.skipped = 3
run_status_index AutomationRunStatus.failed = 4
run_status_index AutomationRunStatus.cancelled = 5

abbrev processing_index : StreamEventProcessingStatus → ℕ
processing_index StreamEventProcessingStatus.pending = 0
processing_index StreamEventProcessingStatus.processing = 1
processing_index StreamEventProcessingStatus.processed = 2
processing_index StreamEventProcessingStatus.ignored = 3
processing_index StreamEventProcessingStatus.failed = 4
processing_index StreamEventProcessingStatus.dead_letter = 5

abbrev pub is_mode : TradeMode → TradeMode → Bool
is_mode a b = mode_index a == mode_index b

abbrev pub is_status : PlannedOrderStatus → PlannedOrderStatus → Bool
is_status a b = status_index a == status_index b

abbrev pub is_direction : OrderDirection → OrderDirection → Bool
is_direction a b = direction_index a == direction_index b

abbrev pub is_run_status : AutomationRunStatus → AutomationRunStatus → Bool
is_run_status a b = run_status_index a == run_status_index b

abbrev pub is_processing : StreamEventProcessingStatus → StreamEventProcessingStatus → Bool
is_processing a b = processing_index a == processing_index b

pub is_mode→eq : (a b : TradeMode) → is_mode a b ≡ true → a ≡ b
is_mode→eq a b h = ground arith

pub is_status→eq : (a b : PlannedOrderStatus) → is_status a b ≡ true → a ≡ b
is_status→eq a b h = ground arith

pub is_processing→eq : (a b : StreamEventProcessingStatus) → is_processing a b ≡ true → a ≡ b
is_processing→eq a b h = ground arith
