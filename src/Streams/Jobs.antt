-- ===== src/Streams/Jobs.antt =====
-- app/automation/worker.py, `process_broker_stream_event`: the job that processes one stored event
-- under a timeout and queues itself again while the event is failed. The queue may refuse that job or
-- raise. A timeout interrupts `process_event` at one of its awaits, which `except Exception` does not
-- catch. The database answers every statement.
pub mod Rows
pub mod Attempts
pub mod Progress
use auto_invest_manager.Base.{
  ℕ, zero, suc, ◌^◌, min, Bool, true, false, Option, none, some, Result, ok, err, Action, gets,
  lift, pure, ◌>>=◌, if◌then◌else◌,
}
use auto_invest_manager.Models.Enums.{StreamEventProcessingStatus, is_processing}
use auto_invest_manager.Models.Entities.{BrokerStreamEventRecord}
use auto_invest_manager.Streams.Inbox.{claim_event, fail_event, get_event}
use auto_invest_manager.Streams.Processor.{
  Worker, Surroundings, process_event, handle_event, fail, signal_trade, reason_of,
  schedule_debounced_reconciliation,
}

-- The job that is queued again: `stream-event:{event_id}:{attempts}`, and its delay in seconds.
pub record EventJob : Type 0 where
  pub event_id : ℕ
  pub attempts : ℕ
  pub defer_by : ℕ

-- The last step of `process_event` that is finished when the timeout comes.
pub data Interruption : Type 0 where
  nothing_done event_claimed trade_signalled reconciliation_scheduled : Interruption
  event_completed event_failed : Interruption

module _ (w : Surroundings) (max_attempts debounce max_debounce : ℕ) where
  -- The `except Exception` behind the handling, when that has raised.
  abbrev pub failing : BrokerStreamEventRecord → Result Bool × Worker → Worker
  failing event (ok processed, s) = s
  failing event (err e, s) = (fail w event max_attempts e s).1

  -- The state in which the interruption leaves an event that is claimed.
  abbrev pub cut : Interruption → BrokerStreamEventRecord → Worker → Worker
  cut Interruption.nothing_done event s = s
  cut Interruption.event_claimed event s = s
  cut Interruption.trade_signalled event s = signal_trade w event s
  cut Interruption.reconciliation_scheduled event s = elim (reason_of event.event_kind) [
    | none ↦ s
    | some reason ↦
        (schedule_debounced_reconciliation w event.account_id reason debounce max_debounce
          (signal_trade w event s)).1
  ]
  cut Interruption.event_completed event s = (handle_event w event debounce max_debounce s).1
  cut Interruption.event_failed event s =
      failing event (handle_event w event debounce max_debounce s)

  abbrev pub cut_claimed : Interruption → Option BrokerStreamEventRecord → Worker → Worker
  cut_claimed i none s = s
  cut_claimed i (some event) s = cut i event s

  abbrev pub interrupted : Interruption → ℕ → Worker → Worker
  interrupted Interruption.nothing_done id s = s
  interrupted i id s =
      let claim = claim_event id max_attempts s.inbox in
      cut_claimed i claim.0 (record s { inbox = claim.1 })

  -- The handler of `TimeoutError`.
  abbrev pub timed_out : Option BrokerStreamEventRecord → Worker → Worker
  timed_out none s = s
  timed_out (some event) s = record s {
    inbox =
        (fail_event event max_attempts "stream_event_timeout" "Stream event processing timed out"
          s.inbox).1;
  }

  abbrev pub process_in_time : Option Interruption → ℕ → Action Worker Bool
  process_in_time none id s = process_event w id max_attempts debounce max_debounce s
  process_in_time (some i) id s =
      let t = interrupted i id s in (ok false, timed_out (get_event id t.inbox) t)

  abbrev pub retry_job : ℕ → Option BrokerStreamEventRecord → Option EventJob
  retry_job id none = none
  retry_job id (some event) =
      if is_processing event.processing_status StreamEventProcessingStatus.failed
      then some (record {
        event_id = id;
        attempts = event.processing_attempts;
        defer_by = min 60 (2 ^ event.processing_attempts);
      })
      else none

  abbrev pub retry_unless : Bool → ℕ → Option BrokerStreamEventRecord → Option EventJob
  retry_unless true id event = none
  retry_unless false id event = retry_job id event

  -- `enqueue_job` of arq answers false, for `None`, when the queue knows the id of the job.
  abbrev pub taken : EventJob → Result Bool → Result (Option EventJob)
  taken job (ok true) = ok (some job)
  taken job (ok false) = ok none
  taken job (err e) = err e

  abbrev pub enqueued : (EventJob → Result Bool) → Option EventJob → Result (Option EventJob)
  enqueued enqueue_job none = ok none
  enqueued enqueue_job (some job) = taken job (enqueue_job job)

  -- Whether the event is processed, and the job that is queued again.
  unfoldable pub process_broker_stream_event :
      Option Interruption → (EventJob → Result Bool) → ℕ → Action Worker (Bool × Option EventJob)
  process_broker_stream_event interruption enqueue_job id =
      process_in_time interruption id >>= λ processed.
      gets (λ s. retry_unless processed id (get_event id s.inbox)) >>= λ retry.
      lift (enqueued enqueue_job retry) >>= λ job. pure (processed, job)

  abbrev pub queued : Result (Bool × Option EventJob) → Option EventJob
  queued (ok (processed, job)) = job
  queued (err e) = none

  -- The queue runs the job, and each job that is queued again, at most `fuel` of them; the timeouts
  -- meet them at `cuts` and the queue answers them with `answers`, the last one first. The answer is
  -- the job that is still queued.
  unfoldable pub run_jobs :
      (ℕ → Option Interruption)
      → (ℕ → EventJob → Result Bool)
      → (fuel : ℕ) → Option EventJob
      → Worker
      → Option EventJob × Worker
  run_jobs cuts answers zero job s = (job, s)
  run_jobs cuts answers (suc fuel) none s = (none, s)
  run_jobs cuts answers (suc fuel) (some job) s =
      let out = process_broker_stream_event (cuts fuel) (answers fuel) job.event_id s in
      run_jobs cuts answers fuel (queued out.0) out.1
