-- ===== src/Streams/Processor.antt =====
-- app/streams/processor.py: what a worker does with one stored event, and the debounced job that
-- reconciles an account. The Redis commands are calls that may raise; a notification never does.
pub mod Outcomes
use auto_invest_manager.Base.{
  ℕ, ◌+◌, Bool, true, false, Option, none, some, List, [], ◌∷◌, ◌++◌, String, Result, ok, err,
  Error, Action, pure, gets, modify, ◌>>=◌, ◌>>◌,
}
use Prim.Native.String.{◌++◌ as concat}
use auto_invest_manager.Models.Enums.{
  BrokerStreamEventKind, ReconciliationReason, AccountEventType, AutomationTrigger,
  ReconciliationStatus,
}
use auto_invest_manager.Models.Entities.{BrokerStreamEventRecord}
use auto_invest_manager.Streams.Inbox.{Inbox, claim_event, complete_event, fail_event}
use auto_invest_manager.Streams.Inbox.Counting.{record_trade_signal}

-- A job of the queue: its function, its account and the key of the debounce state.
pub record Job : Type 0 where
  pub function : String
  pub account_id : String
  pub state_key : String
  pub defer_by : ℕ

pub record Worker : Type 0 where
  pub inbox : Inbox
  -- titles of the notifications
  pub sent : List String
  pub enqueued : List Job
  -- calls of Redis and the clock so far
  pub calls : ℕ

pub record Surroundings : Type 0 where
  pub clock : ℕ → ℕ
  -- SET key value NX EX ttl, SADD, EXPIRE, and the enqueueing of a job
  pub set_nx : ℕ → String → ℕ → Result Bool
  pub sadd : ℕ → String → ReconciliationReason → Result (Unit {0})
  pub expire : ℕ → String → ℕ → Result (Unit {0})
  pub enqueue_job : ℕ → Job → Result (Unit {0})
  -- the first 24 digits of the SHA-256 hash
  pub account_hash : String → String

abbrev pub call : {A : Type 0} → (ℕ → Result A) → Action Worker A
call f s = (f s.calls, record s { calls = s.calls + 1 })

-- `try: m except Exception as error: h error`
abbrev pub catching : {S A : Type 0} → Action S A → (Error → Action S A) → Action S A
catching m h s = let (r, t) = m s in elim r [ ok a ↦ (ok a, t) | err e ↦ h e t ]

abbrev pub on_inbox : {A : Type 0} → (Inbox → A × Inbox) → Action Worker A
on_inbox f s = (ok (f s.inbox).0, record s { inbox = (f s.inbox).1 })

abbrev pub notify : String → Action Worker (Unit {0})
notify title s = (ok tt, record s { sent = s.sent ++ title ∷ [] })

abbrev pub reason_of : BrokerStreamEventKind → Option ReconciliationReason
reason_of BrokerStreamEventKind.portfolio_updated = some ReconciliationReason.portfolio_changed
reason_of BrokerStreamEventKind.positions_updated = some ReconciliationReason.positions_changed
reason_of BrokerStreamEventKind.user_trade_executed = some ReconciliationReason.user_trade
reason_of BrokerStreamEventKind.subscription_status = none
reason_of BrokerStreamEventKind.ping = none

module _ (w : Surroundings) where
  abbrev pub state_key : String → String
  state_key account_id = concat "account-reconciliation:" (w.account_hash account_id)

  abbrev pub reconcile_job : String → ℕ → Job
  reconcile_job account_id debounce_seconds = record {
    function = "reconcile_account";
    account_id = account_id;
    state_key = state_key account_id;
    defer_by = debounce_seconds;
  }

  abbrev pub enqueued_with : Job → Result (Unit {0}) → Worker → Result (Unit {0}) × Worker
  enqueued_with job (ok u) s = (ok u, record s { enqueued = s.enqueued ++ job ∷ [] })
  enqueued_with job (err e) s = (err e, s)

  abbrev pub enqueue_if : Bool → Job → Action Worker (Unit {0})
  enqueue_if false job s = (ok tt, s)
  enqueue_if true job s =
      enqueued_with job (w.enqueue_job s.calls job) (record s { calls = s.calls + 1 })

  unfoldable pub schedule_debounced_reconciliation :
      String → ReconciliationReason → ℕ → ℕ → Action Worker String
  schedule_debounced_reconciliation account_id reason debounce_seconds max_debounce_seconds =
      call (λ n. w.set_nx n (state_key account_id) (max_debounce_seconds + 60)) >>= λ created.
      call (λ n. w.sadd n (concat (state_key account_id) ":reasons") reason)
      >> call
          (λ n. w.expire n (concat (state_key account_id) ":reasons") (max_debounce_seconds + 60))
      >> enqueue_if created (reconcile_job account_id debounce_seconds)
      >> pure (state_key account_id)

  abbrev pub complete : BrokerStreamEventRecord → Bool → Action Worker Bool
  complete event ignored s = (
    ok true,
    record s {
      inbox = complete_event event ignored (w.clock s.calls) s.inbox;
      calls = s.calls + 1;
    },
  )

  abbrev pub signal_trade : BrokerStreamEventRecord → Worker → Worker
  signal_trade event s = elim event.event_kind [
    | BrokerStreamEventKind.user_trade_executed ↦ record s {
      inbox = record_trade_signal event s.inbox;
    }
    | _ ↦ s
  ]

  -- The body of the `try` of `process_event`, behind the two early returns.
  abbrev pub handle_reason :
      BrokerStreamEventRecord → Option ReconciliationReason → ℕ → ℕ → Action Worker Bool
  handle_reason event none debounce_seconds max_debounce_seconds = complete event true
  handle_reason event (some reason) debounce_seconds max_debounce_seconds =
      schedule_debounced_reconciliation event.account_id reason debounce_seconds
        max_debounce_seconds
      >> complete event false

  unfoldable pub handle_event : BrokerStreamEventRecord → ℕ → ℕ → Action Worker Bool
  handle_event event debounce_seconds max_debounce_seconds s =
      handle_reason event (reason_of event.event_kind) debounce_seconds max_debounce_seconds
        (signal_trade event s)

  abbrev pub notify_dead : Bool → Action Worker Bool
  notify_dead false = pure false
  notify_dead true = notify "Broker stream event moved to dead letter" >> pure false

  unfoldable pub fail : BrokerStreamEventRecord → ℕ → Error → Action Worker Bool
  fail event max_attempts error =
      on_inbox (
        fail_event event max_attempts "stream_event_processing_failed"
          "Stream event processing failed")
      >>= notify_dead

  abbrev pub process_claimed : Option BrokerStreamEventRecord → ℕ → ℕ → ℕ → Action Worker Bool
  process_claimed none max_attempts debounce_seconds max_debounce_seconds = pure false
  process_claimed (some event) max_attempts debounce_seconds max_debounce_seconds =
      catching (handle_event event debounce_seconds max_debounce_seconds) (fail event max_attempts)

  unfoldable pub process_event : ℕ → ℕ → ℕ → ℕ → Action Worker Bool
  process_event event_id max_attempts debounce_seconds max_debounce_seconds =
      on_inbox (claim_event event_id max_attempts) >>= λ claim.
      process_claimed claim max_attempts debounce_seconds max_debounce_seconds
