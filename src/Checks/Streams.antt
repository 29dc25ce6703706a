-- ===== src/Checks/Streams.antt =====
-- The theorems on app/streams at concrete inputs.
use auto_invest_manager.Base.{
  ◌+◌, ◌==◌, ◌≡◌, ◌⊎◌, refl, true, false, Bool, none, some, List, [], ◌∷◌, All, keep, ok, err,
  Error, arith, if◌then◌else◌,
}
use auto_invest_manager.Models.Enums.{
  BrokerStreamType, BrokerStreamEventKind, StreamEventProcessingStatus, ReconciliationReason,
}
use auto_invest_manager.Models.Entities.{BrokerStreamEventRecord}
use auto_invest_manager.Redis.Memory.{memory, memory-IsRedis}
use auto_invest_manager.Streams.Lease.{StreamLease, acquire_lease}
use auto_invest_manager.Streams.Lease.Renewal.{lease_kept, renew_at}
use auto_invest_manager.Streams.Inbox.{
  Inbox, BrokerStreamEvent, Canonical, persist_event, claim_event, claimed, retry_event, new_record,
}
use auto_invest_manager.Streams.Inbox.Counting.{startup_recovery}
use auto_invest_manager.Streams.Inbox.Rules.{persist_event_again, retry_event_never_claimed}
use auto_invest_manager.Streams.Inbox.Steps.{
  IsSound, Step, Steps, new_record-IsSound, Steps-IsSound,
}
use auto_invest_manager.Streams.Processor.{
  Worker, Surroundings, process_event, schedule_debounced_reconciliation, state_key, reconcile_job,
}
use auto_invest_manager.Streams.Processor.Outcomes.{
  IsSettled, process_event-IsSettled, schedule_debounced_reconciliation_jobs,
}

abbrev lease : StreamLease
lease = record { key = "k"; owner_token = "o" }

lease_kept_example :
    let s' =
      renew_at memory memory-IsRedis 30 lease
        (10 ∷ 35 ∷ [])
        (acquire_lease memory 30 "o" "k" (λ j. none) 0).0 in
    (memory.get s' 60 "k" ≡ some "o") × (acquire_lease memory 30 "p" "k" s' 60 ≡ (s', none))
lease_kept_example =
    lease_kept memory memory-IsRedis 30 (λ j. none) 0 60 "o" "p" "k" (10 ∷ 35 ∷ []) refl
      (omega arith, omega arith, (omega arith, omega arith, (omega arith, omega arith)))

abbrev canonical : Canonical
canonical = record { event_dedupe_key = λ e. e.account_id; sanitize_payload = λ p. p }

abbrev event_of : BrokerStreamEventKind → BrokerStreamEvent
event_of kind = record {
  provider = "tinvest";
  target = "sandbox";
  stream_type = BrokerStreamType.portfolio;
  account_id = "acc";
  broker_event_time = none;
  received_at = 5;
  event_kind = kind;
  source_event_id = none;
  payload = [];
}

abbrev pub row : BrokerStreamEventRecord
row = new_record canonical (event_of BrokerStreamEventKind.portfolio_updated) "c" 4

abbrev pub inbox_of : List BrokerStreamEventRecord → Inbox
inbox_of rows = record { events = rows; states = []; executions = []; audit = []; next_id = 9 }

abbrev dead_row : BrokerStreamEventRecord
dead_row = record row {
  processing_status = StreamEventProcessingStatus.dead_letter;
  processing_attempts = 2;
  error_code = some "stream_event_processing_failed";
}

persist_event_again_example :
    let event = event_of BrokerStreamEventKind.portfolio_updated in
    let first = persist_event canonical event "c" (inbox_of []) in
    ((persist_event canonical event "d" first.1).0 ≡ (first.0.0, false))
    × ((persist_event canonical event "d" first.1).1.events ≡ first.1.events)
persist_event_again_example =
    persist_event_again canonical (event_of BrokerStreamEventKind.portfolio_updated)
      (event_of BrokerStreamEventKind.portfolio_updated) "c" "d" (inbox_of []) refl

retry_event_never_claimed_example :
    (claim_event 4 2 (retry_event dead_row (inbox_of (dead_row ∷ [])))).0 ≡ none
retry_event_never_claimed_example =
    retry_event_never_claimed 2 dead_row (inbox_of (dead_row ∷ [])) ((λ e. omega arith), tt)

abbrev started : Inbox
started = inbox_of (row ∷ [])

abbrev after_claim : Inbox
after_claim = (claim_event 4 2 started).1

Steps-IsSound_example : All (IsSound 2) (startup_recovery 8 after_claim).1.events
Steps-IsSound_example =
    Steps-IsSound canonical 2 started (startup_recovery 8 after_claim).1
      (Steps.more started after_claim (startup_recovery 8 after_claim).1
        (Steps.more started started after_claim (Steps.stay started) (Step.claim 4 started))
        (Step.recover 8 after_claim))
      (new_record-IsSound 2 canonical (event_of BrokerStreamEventKind.portfolio_updated) "c" 4, tt)

abbrev pub surroundings : Surroundings
surroundings = record {
  clock = λ n. n;
  set_nx = λ n key ttl. ok true;
  sadd = λ n key reason. ok tt;
  expire = λ n key ttl. ok tt;
  enqueue_job = λ n job. err Error.connection;
  account_hash = λ account. account;
}

abbrev pub worker : Worker
worker = record { inbox = started; sent = []; enqueued = []; calls = 0 }

process_event-IsSettled_example :
    (done : Bool) × ((process_event surroundings 4 1 2 30 worker).0 ≡ ok done)
    × All
        (IsSettled 1 done)
        (keep (λ e. e.id == 4) (process_event surroundings 4 1 2 30 worker).1.inbox.events)
process_event-IsSettled_example =
    process_event-IsSettled surroundings 4 1 2 30 worker (claimed row) (unfold claim_event in refl)

schedule_debounced_reconciliation_jobs_example :
    let out =
      schedule_debounced_reconciliation surroundings "acc" ReconciliationReason.manual 2 30
        worker in
    (out.1.inbox ≡ started)
    × ((((e : Error) × (out.0 ≡ err e)) × (out.1.enqueued ≡ []))
        ⊎ ((created : Bool) × (surroundings.set_nx 0 (state_key surroundings "acc") (30 + 60)
              ≡ ok created)
            × (out.0 ≡ ok (state_key surroundings "acc"))
            × (out.1.enqueued ≡ (if created then reconcile_job surroundings "acc" 2 ∷ [] else []))))
schedule_debounced_reconciliation_jobs_example =
    schedule_debounced_reconciliation_jobs surroundings "acc" ReconciliationReason.manual 2 30
      worker
