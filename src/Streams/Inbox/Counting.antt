-- ===== src/Streams/Inbox/Counting.antt =====
-- app/streams/repository.py: the operations on many rows of the inbox at once, the states of the
-- streams, and the trade signals.
use auto_invest_manager.Base.{
  ℕ, ◌+◌, ◌==◌, Bool, true, false, ◌&&◌, ◌||◌, Option, none, some, List, [], ◌∷◌, ◌++◌, map, find,
  keep, update, length, String, str_eq, ltb, if◌then◌else◌,
}
use auto_invest_manager.Models.Enums.{
  StreamEventProcessingStatus, BrokerStreamStatus, is_processing,
}
use auto_invest_manager.Models.Entities.{
  BrokerStreamEventRecord, BrokerStreamState, ExecutionOrder, OrderEvent,
}
use auto_invest_manager.Streams.Inbox.{Inbox}

-- `event.payload.get("order_id", "")`
abbrev pub payload_order_id : List (String × String) → String
payload_order_id [] = ""
payload_order_id ((key, value) ∷ rest) =
    if str_eq key "order_id" then value else payload_order_id rest

abbrev trade_signal : OrderEvent
trade_signal = record { event_type = "TRADE_STREAM_SIGNAL"; broker_status = "STREAM_REPORTED" }

abbrev signalled : ExecutionOrder → ExecutionOrder
signalled x = record x { events = x.events ++ trade_signal ∷ [] }

abbrev signal_found : Option ExecutionOrder → Inbox → Inbox
signal_found none s = s
signal_found (some execution) s = record s {
  executions = update (λ x. x.id == execution.id) signalled s.executions;
}

unfoldable pub record_trade_signal : BrokerStreamEventRecord → Inbox → Inbox
record_trade_signal event s =
    signal_found
      (find (λ x. str_eq x.broker_order_id (payload_order_id event.payload)) s.executions) s

abbrev pub is_unfinished : BrokerStreamEventRecord → Bool
is_unfinished e =
    is_processing e.processing_status StreamEventProcessingStatus.pending
    || (is_processing e.processing_status StreamEventProcessingStatus.processing
        || is_processing e.processing_status StreamEventProcessingStatus.failed)

abbrev pub is_dead_letter : BrokerStreamEventRecord → Bool
is_dead_letter e = is_processing e.processing_status StreamEventProcessingStatus.dead_letter

abbrev pub is_finished : BrokerStreamEventRecord → Bool
is_finished e =
    is_processing e.processing_status StreamEventProcessingStatus.processed
    || is_processing e.processing_status StreamEventProcessingStatus.ignored

unfoldable pub counts : Inbox → ℕ × ℕ
counts s = (length (keep is_unfinished s.events), length (keep is_dead_letter s.events))

abbrev is_before : Option ℕ → ℕ → Bool
is_before none before = false
is_before (some t) before = ltb t before

abbrev pub is_old : ℕ → BrokerStreamEventRecord → Bool
is_old before e = is_finished e && is_before e.processed_at before

-- The first `left` old rows go: the query has no order, and the rows are read as they stand.
abbrev pub drop_old : ℕ → ℕ → List BrokerStreamEventRecord → ℕ × List BrokerStreamEventRecord
drop_old before left [] = (0, [])
drop_old before ℕ.zero (e ∷ es) = (0, e ∷ es)
drop_old before (ℕ.suc left) (e ∷ es) =
    let gone = drop_old before left es in
    let kept = drop_old before (ℕ.suc left) es in
    if is_old before e then (gone.0 + 1, gone.1) else (kept.0, e ∷ kept.1)

unfoldable pub cleanup : ℕ → ℕ → Inbox → ℕ × Inbox
cleanup before batch_size s = (
  (drop_old before batch_size s.events).0,
  record s { events = (drop_old before batch_size s.events).1 },
)

abbrev pub is_claimed : BrokerStreamEventRecord → Bool
is_claimed e = is_processing e.processing_status StreamEventProcessingStatus.processing

abbrev is_connected : BrokerStreamState → Bool
is_connected t = elim t.status [ BrokerStreamStatus.connected ↦ true | _ ↦ false ]

abbrev pub released : BrokerStreamEventRecord → BrokerStreamEventRecord
released e = record e { processing_status = StreamEventProcessingStatus.pending }

-- The events that a stopped worker had claimed are pending again, and no stream is connected.
unfoldable pub startup_recovery : ℕ → Inbox → (ℕ × ℕ) × Inbox
startup_recovery now s = (
  (length (keep is_claimed s.events), length (keep is_connected s.states)),
  record s {
    events = update is_claimed released s.events;
    states =
        update is_connected
          (λ t. record t { status = BrokerStreamStatus.stopped; disconnected_at = some now })
          s.states;
  },
)

unfoldable pub pending_event_ids : Inbox → List ℕ
pending_event_ids s =
    map (λ e. e.id)
      (keep (λ e. is_processing e.processing_status StreamEventProcessingStatus.pending) s.events)
