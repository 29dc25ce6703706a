-- ===== src/Streams/Inbox.antt =====
-- app/streams/repository.py: the inbox of stream events. Every event is kept once, is claimed for
-- processing under a row lock, and leaves as processed, ignored or dead letter. A method is one
-- transaction of the store; a database that fails is not modelled.
pub mod Rules
pub mod Counting
pub mod Steps
pub mod Totals
use auto_invest_manager.Base.{
  ℕ, ◌+◌, ◌==◌, Bool, true, false, ◌&&◌, ◌||◌, Option, none, some, List, [], ◌∷◌, ◌++◌, map, find,
  keep, update, any, length, String, str_eq, ltb, leb, if◌then◌else◌,
}
use auto_invest_manager.Models.Enums.{
  StreamEventProcessingStatus, BrokerStreamStatus, BrokerStreamType, BrokerStreamEventKind,
  is_processing,
}
use auto_invest_manager.Models.Entities.{
  BrokerStreamEventRecord, BrokerStreamState, ExecutionOrder, OrderEvent, AuditLog,
}

-- app/broker/dto.py `BrokerStreamEvent`, its stream type and kind already read as enums.
pub record BrokerStreamEvent : Type 0 where
  pub provider : String
  pub target : String
  pub stream_type : BrokerStreamType
  pub account_id : String
  pub broker_event_time : Option ℕ
  pub received_at : ℕ
  pub event_kind : BrokerStreamEventKind
  pub source_event_id : Option String
  pub payload : List (String × String)

pub record Inbox : Type 0 where
  pub events : List BrokerStreamEventRecord
  pub states : List BrokerStreamState
  pub executions : List ExecutionOrder
  pub audit : List AuditLog
  pub next_id : ℕ

-- app/streams/canonical.py, which hashes and censors JSON.
pub record Canonical : Type 0 where
  pub event_dedupe_key : BrokerStreamEvent → String
  pub sanitize_payload : List (String × String) → List (String × String)

abbrev add_audit : String → String → String → ℕ → Inbox → Inbox
add_audit event_type severity actor subject s = record s {
  audit =
      s.audit
      ++ record { event_type = event_type; severity = severity; actor = actor; subject = subject }
        ∷ [];
}

abbrev pub has_dedupe_key : String → BrokerStreamEventRecord → Bool
has_dedupe_key key e = str_eq e.dedupe_key key

abbrev pub new_record : Canonical → BrokerStreamEvent → String → ℕ → BrokerStreamEventRecord
new_record c event correlation_id id = record {
  id = id;
  provider = event.provider;
  target = event.target;
  stream_type = event.stream_type;
  event_kind = event.event_kind;
  account_id = event.account_id;
  broker_event_time = event.broker_event_time;
  received_at = event.received_at;
  source_event_id = event.source_event_id;
  dedupe_key = c.event_dedupe_key event;
  payload = c.sanitize_payload event.payload;
  processing_status = StreamEventProcessingStatus.pending;
  processing_attempts = 0;
  processed_at = none;
  next_attempt_at = none;
  error_code = none;
  error_message = none;
  correlation_id = correlation_id;
}

-- The record that stands for the event, and whether it is new.
unfoldable pub persist_event :
    Canonical → BrokerStreamEvent → String → Inbox → (BrokerStreamEventRecord × Bool) × Inbox
persist_event c event correlation_id s =
    elim (find (has_dedupe_key (c.event_dedupe_key event)) s.events) [
      | some existing ↦ (
        (existing, false),
        add_audit "broker.event.duplicate" "info" "stream-listener" existing.id s,
      )
      | none ↦ (
        (new_record c event correlation_id s.next_id, true),
        add_audit "broker.event.received" "info" "stream-listener" s.next_id (record s {
          events = s.events ++ new_record c event correlation_id s.next_id ∷ [];
          next_id = s.next_id + 1;
        }),
      )
    ]

abbrev pub is_claimable : ℕ → BrokerStreamEventRecord → Bool
is_claimable max_attempts e =
    (is_processing e.processing_status StreamEventProcessingStatus.pending
      || is_processing e.processing_status StreamEventProcessingStatus.failed)
    && ltb e.processing_attempts max_attempts

abbrev pub claimed : BrokerStreamEventRecord → BrokerStreamEventRecord
claimed e = record e {
  processing_status = StreamEventProcessingStatus.processing;
  processing_attempts = e.processing_attempts + 1;
}

-- Every row of that id is changed.
abbrev pub update_event : ℕ → (BrokerStreamEventRecord → BrokerStreamEventRecord) → Inbox → Inbox
update_event id f s = record s { events = update (λ e. e.id == id) f s.events }

abbrev pub is_claimable_id : ℕ → ℕ → BrokerStreamEventRecord → Bool
is_claimable_id id max_attempts e = (e.id == id) && is_claimable max_attempts e

-- The row that the query has found and locked is the one of that id.
unfoldable pub claim_event : ℕ → ℕ → Inbox → Option BrokerStreamEventRecord × Inbox
claim_event event_id max_attempts s = elim (find (is_claimable_id event_id max_attempts) s.events) [
  | none ↦ (none, s)
  | some e ↦ (
    some (claimed e),
    record s { events = update (is_claimable_id event_id max_attempts) claimed s.events },
  )
]

abbrev pub completed : Bool → ℕ → BrokerStreamEventRecord → BrokerStreamEventRecord
completed ignored now e = record e {
  processing_status =
      if ignored
      then StreamEventProcessingStatus.ignored
      else StreamEventProcessingStatus.processed;
  processed_at = some now;
  error_code = none;
  error_message = none;
}

unfoldable pub complete_event : BrokerStreamEventRecord → Bool → ℕ → Inbox → Inbox
complete_event event ignored now s =
    add_audit "broker.event.processed" "info" "event-processor" event.id
      (update_event event.id (completed ignored now) s)

abbrev pub is_dead : ℕ → BrokerStreamEventRecord → Bool
is_dead max_attempts e = leb max_attempts e.processing_attempts

abbrev pub failed : ℕ → String → String → BrokerStreamEventRecord → BrokerStreamEventRecord
failed max_attempts code message e = record e {
  processing_status =
      if is_dead max_attempts e
      then StreamEventProcessingStatus.dead_letter
      else StreamEventProcessingStatus.failed;
  error_code = some code;
  error_message = some message;
}

unfoldable pub fail_event : BrokerStreamEventRecord → ℕ → String → String → Inbox → Bool × Inbox
fail_event event max_attempts code message s = (
  is_dead max_attempts event,
  add_audit
      (if is_dead max_attempts event then "broker.event.dead_letter" else "broker.event.failed")
      "warning" "event-processor" event.id
      (update_event event.id (failed max_attempts code message) s),
)

abbrev pub retried : BrokerStreamEventRecord → BrokerStreamEventRecord
retried e = record e {
  processing_status = StreamEventProcessingStatus.pending;
  error_code = none;
  error_message = none;
  next_attempt_at = none;
}

unfoldable pub retry_event : BrokerStreamEventRecord → Inbox → Inbox
retry_event event s =
    add_audit "broker.event.retried" "info" "admin" event.id (update_event event.id retried s)

abbrev pub get_event : ℕ → Inbox → Option BrokerStreamEventRecord
get_event id s = find (λ e. e.id == id) s.events
