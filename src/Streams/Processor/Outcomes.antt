-- ===== src/Streams/Processor/Outcomes.antt =====
-- app/streams/processor.py: an event that a worker claims is always left finished, failed or dead,
-- and an account is reconciled by one job at a time.
use auto_invest_manager.Base.{
  ℕ, ◌+◌, ◌==◌, ◌≡◌, refl, sym, subst, Bool, true, false, some, [], ◌∷◌, ◌++◌, find, find_passes,
  keep, All, All-keep-update, Result-cases, Option-cases, Bool-cases, ok, err, Error, inl, inr, ◌⊎◌,
  String, arith, if◌then◌else◌,
}
use Prim.Native.String.{◌++◌ as concat}
use auto_invest_manager.Models.Enums.{StreamEventProcessingStatus, ReconciliationReason}
use auto_invest_manager.Models.Entities.{BrokerStreamEventRecord}
use auto_invest_manager.Streams.Inbox.{
  Inbox, claim_event, complete_event, completed, fail_event, failed, is_dead, is_claimable_id,
}
use auto_invest_manager.Streams.Inbox.Counting.{is_finished}
use auto_invest_manager.Streams.Processor.{
  Worker, Surroundings, process_event, handle_event, schedule_debounced_reconciliation, fail,
  reconcile_job, state_key, reason_of, signal_trade,
}

-- A new job is queued exactly when the debounce state was free, the other commands went through and
-- the queue took it; whatever the outcome, at most one job is added and the inbox is not touched.
pub schedule_debounced_reconciliation_jobs :
    (w : Surroundings) (account : String) (reason : ReconciliationReason) (d m : ℕ) (s : Worker)
    → let out = schedule_debounced_reconciliation w account reason d m s in
      (out.1.inbox ≡ s.inbox)
      × ((((e : Error) × (out.0 ≡ err e)) × (out.1.enqueued ≡ s.enqueued))
          ⊎ ((created : Bool) × (w.set_nx s.calls (state_key w account) (m + 60) ≡ ok created)
              × (out.0 ≡ ok (state_key w account))
              × (out.1.enqueued ≡ (
                  if created then s.enqueued ++ reconcile_job w account d ∷ [] else s.enqueued))))
unfolding schedule_debounced_reconciliation
schedule_debounced_reconciliation_jobs w account reason d m s =
    let reasons = concat (state_key w account) ":reasons" in
    (
      ground arith,
      elim (Result-cases (w.set_nx s.calls (state_key w account) (m + 60))) [
        | inl (created, p) ↦ elim (Result-cases (w.sadd (s.calls + 1) reasons reason)) [
          | inl (u, q) ↦ elim (Result-cases (w.expire (s.calls + 2) reasons (m + 60))) [
            | inl (v, r) ↦ elim (Bool-cases created) [
              | inl c ↦
                  elim (Result-cases (w.enqueue_job (s.calls + 3) (reconcile_job w account d))) [
                    | inl (z, t) ↦ inr (created, p, ground arith, ground arith)
                    | inr (e, t) ↦ inl ((e, ground arith), ground arith)
                  ]
              | inr c ↦ inr (created, p, ground arith, ground arith)
            ]
            | inr (e, r) ↦ inl ((e, ground arith), ground arith)
          ]
          | inr (e, q) ↦ inl ((e, ground arith), ground arith)
        ]
        | inr (e, p) ↦ inl ((e, ground arith), ground arith)
      ],
    )

schedule_keeps_inbox :
    (w : Surroundings) (account : String) (reason : ReconciliationReason) (d m : ℕ) (s : Worker)
    → (schedule_debounced_reconciliation w account reason d m s).1.inbox ≡ s.inbox
schedule_keeps_inbox w account reason d m s =
    (schedule_debounced_reconciliation_jobs w account reason d m s).0

-- A row of an event that is dealt with: finished if the answer is true, else a dead letter if the
-- attempts are used up and failed if not.
unfoldable pub IsSettled : ℕ → Bool → BrokerStreamEventRecord → Type 0
IsSettled max true e = is_finished e ≡ true
IsSettled max false e = e.processing_status ≡ (
    if is_dead max e
    then StreamEventProcessingStatus.dead_letter
    else StreamEventProcessingStatus.failed)

pub completed-IsSettled :
    (max : ℕ) (ignored : Bool) (now : ℕ) (e : BrokerStreamEventRecord)
    → IsSettled max true (completed ignored now e)
unfolding IsSettled
completed-IsSettled max ignored now e = ground arith

pub failed-IsSettled :
    (max : ℕ) (code message : String) (e : BrokerStreamEventRecord)
    → IsSettled max false (failed max code message e)
unfolding IsSettled
failed-IsSettled max code message e = ground arith

handle_event-cases :
    (w : Surroundings) (event : BrokerStreamEventRecord) (d m : ℕ) (s : Worker)
    → ((ignored : Bool) × (now : ℕ) × (t : Inbox) × ((handle_event w event d m s).0 ≡ ok true)
        × ((handle_event w event d m s).1.inbox ≡ complete_event event ignored now t))
      ⊎ ((e : Error) × ((handle_event w event d m s).0 ≡ err e))
unfolding handle_event
handle_event-cases w event d m s = elim (Option-cases (reason_of event.event_kind)) [
  | inl p ↦ inl (true, w.clock s.calls, (signal_trade w event s).inbox, ground arith, ground arith)
  | inr (reason, p) ↦
      let t = signal_trade w event s in
      elim (Result-cases (schedule_debounced_reconciliation w event.account_id reason d m t).0) [
        | inl (key, q) ↦ inl (
          false,
          w.clock (schedule_debounced_reconciliation w event.account_id reason d m t).1.calls,
          (schedule_debounced_reconciliation w event.account_id reason d m t).1.inbox,
          ground arith,
          ground arith,
        )
        | inr (e, q) ↦ inr (e, ground arith)
      ]
]

claim_event-id :
    (id max : ℕ) (s : Inbox) {e : BrokerStreamEventRecord}
    → (claim_event id max s).0 ≡ some e
    → e.id ≡ id
unfolding claim_event
claim_event-id id max s {e} h = elim (Option-cases (find (is_claimable_id id max) s.events)) [
  | inl p ↦ absurd (ground arith)
  | inr (x, p) ↦ ground (arith, find_passes (is_claimable_id id max) s.events {a = x} p)
]

pub fail-inbox :
    (w : Surroundings) (event : BrokerStreamEventRecord) (max : ℕ) (e : Error) (s : Worker)
    → ((fail w event max e s).0 ≡ ok false)
      × ((fail w event max e s).1.inbox
          ≡ (fail_event event max "stream_event_processing_failed" "Stream event processing failed"
              s.inbox).1)
unfolding fail
fail-inbox w event max e s = ground arith

complete_event-IsSettled :
    (event : BrokerStreamEventRecord) (max : ℕ) (ignored : Bool) (now : ℕ) (s : Inbox)
    → All
        (IsSettled max true)
        (keep (λ e. e.id == event.id) (complete_event event ignored now s).events)
unfolding complete_event
complete_event-IsSettled event max ignored now s =
    All-keep-update (IsSettled max true) (λ e. e.id == event.id) (completed ignored now) (λ e. refl)
      (completed-IsSettled max ignored now) s.events

fail_event-IsSettled :
    (event : BrokerStreamEventRecord) (max : ℕ) (code message : String) (s : Inbox)
    → All
        (IsSettled max false)
        (keep (λ e. e.id == event.id) (fail_event event max code message s).1.events)
unfolding fail_event
fail_event-IsSettled event max code message s =
    All-keep-update (IsSettled max false) (λ e. e.id == event.id) (failed max code message)
      (λ e. refl) (failed-IsSettled max code message) s.events

-- When `process_event` claims the event it does not raise, and its answer tells what becomes of the
-- event: after true every row of the event is finished, after false it is a dead letter if its
-- attempts are used up and failed if not, so it is never left as being processed.
pub process_event-IsSettled :
    (w : Surroundings) (id max d m : ℕ) (s : Worker) (event : BrokerStreamEventRecord)
    → (claim_event id max s.inbox).0 ≡ some event
    → (done : Bool) × ((process_event w id max d m s).0 ≡ ok done)
      × All
          (IsSettled max done)
          (keep (λ e. e.id == id) (process_event w id max d m s).1.inbox.events)
unfolding process_event
process_event-IsSettled w id max d m s event h =
    let t : Worker = record s { inbox = (claim_event id max s.inbox).1 } in
    let v : Worker = (handle_event w event d m t).1 in
    elim (handle_event-cases w event d m t) [
      | inl (ignored, now, u, p, q) ↦ (
        true,
        ground arith,
        settled true (complete_event event ignored now u) (ground arith)
            (complete_event-IsSettled event max ignored now u),
      )
      | inr (e, p) ↦ (
        false,
        ground (arith, fail-inbox w event max e v),
        settled false
            (fail_event event max "stream_event_processing_failed" "Stream event processing failed"
              v.inbox).1
            (ground (arith, fail-inbox w event max e v))
            (fail_event-IsSettled event max _ _ v.inbox),
      )
    ]
  where
    settled :
        (done : Bool) (i : Inbox)
        → (process_event w id max d m s).1.inbox ≡ i
        → All (IsSettled max done) (keep (λ e. e.id == event.id) i.events)
        → All
            (IsSettled max done)
            (keep (λ e. e.id == id) (process_event w id max d m s).1.inbox.events)
    settled done i p a =
        subst
          (λ (k : ℕ).
            All (IsSettled max done)
              (keep (λ e. e.id == k) (process_event w id max d m s).1.inbox.events))
          (claim_event-id id max s.inbox h)
          (subst (λ (j : Inbox). All (IsSettled max done) (keep (λ e. e.id == event.id) j.events))
            (sym p) a)
