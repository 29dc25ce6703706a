-- ===== src/Streams/Operations.antt =====
-- app/streams/dto.py: what an operation of the account means, with the operations of app/broker/dto.py.
use auto_invest_manager.Base.{
  ℕ, Bool, ◌&&◌, not, Option, none, some, List, [], ◌∷◌, any, String, str_eq, if◌then◌else◌,
}
use auto_invest_manager.Models.Enums.{AccountEventType}
use auto_invest_manager.Execution.Dto.{MoneyData}

pub record BrokerOperation : Type 0 where
  pub operation_id : String
  pub cursor : String
  pub operation_type : String
  pub state : String
  pub payment : MoneyData
  pub date : ℕ
  pub instrument_uid : Option String

pub record OperationsCursorRequest : Type 0 where
  pub account_id : String
  pub from_time : ℕ
  pub to_time : ℕ
  pub cursor : Option String
  pub limit : ℕ

pub record OperationsCursorPage : Type 0 where
  pub items : List BrokerOperation
  pub next_cursor : Option String
  pub has_next : Bool

pub record DepositClassification : Type 0 where
  pub event_type : Option AccountEventType
  pub reason : String

abbrev pub member : String → List String → Bool
member x xs = any (str_eq x) xs

abbrev pub deposit_operation_types : List String
deposit_operation_types =
    "OPERATION_TYPE_INPUT" ∷ "OPERATION_TYPE_INPUT_ACQUIRING" ∷ "OPERATION_TYPE_INP_MULTI"
    ∷ "OPERATION_TYPE_INPUT_SWIFT" ∷ []

abbrev pub withdrawal_operation_types : List String
withdrawal_operation_types =
    "OPERATION_TYPE_OUTPUT" ∷ "OPERATION_TYPE_OUTPUT_ACQUIRING" ∷ "OPERATION_TYPE_OUT_MULTI"
    ∷ "OPERATION_TYPE_OUTPUT_SWIFT" ∷ []

abbrev pub is_executed : String → Bool
is_executed state = member state ("OPERATION_STATE_EXECUTED" ∷ "EXECUTED" ∷ [])

unfoldable pub classify_operation : String → String → DepositClassification
classify_operation operation_type state =
    if not (is_executed state)
    then record { event_type = none; reason = "operation_not_executed" }
    else if member operation_type deposit_operation_types
    then record {
      event_type = some AccountEventType.deposit_detected;
      reason = "external_cash_input";
    }
    else if member operation_type withdrawal_operation_types
    then record {
      event_type = some AccountEventType.withdrawal_detected;
      reason = "external_cash_output";
    }
    else record { event_type = none; reason = "not_external_cash_operation" }

abbrev pub trade_event_type : BrokerOperation → Option AccountEventType → Option AccountEventType
trade_event_type operation (some t) = some t
trade_event_type operation none =
    if is_executed operation.state
      && member operation.operation_type ("OPERATION_TYPE_BUY" ∷ "OPERATION_TYPE_SELL" ∷ [])
    then some AccountEventType.order_execution_detected
    else none

-- `_operation_event_type`
unfoldable pub operation_event_type : BrokerOperation → Option AccountEventType
operation_event_type operation =
    trade_event_type operation
      (classify_operation operation.operation_type operation.state).event_type

-- `event_type.value`
abbrev pub event_value : AccountEventType → String
event_value AccountEventType.account_change = "ACCOUNT_CHANGE"
event_value AccountEventType.deposit_detected = "DEPOSIT_DETECTED"
event_value AccountEventType.withdrawal_detected = "WITHDRAWAL_DETECTED"
event_value AccountEventType.order_execution_detected = "ORDER_EXECUTION_DETECTED"
