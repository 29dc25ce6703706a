-- ===== src/Streams/Jobs/Progress.antt =====
-- app/automation/worker.py: what has become of a stored event after as many jobs as it has attempts
-- left.
use auto_invest_manager.Base.{
  ℕ, zero, suc, ◌+◌, ◌≤◌, ◌<◌, ◌^◌, min, ◌≡◌, ◌≢◌, refl, sym, ◌∙◌, ap, subst, Bool, true, false,
  ◌||◌, Option, none, some, [], ◌∷◌, Bool-cases, Result-cases, Result, ok, err, inl, inr, ◌⊎◌,
  arith,
}
use auto_invest_manager.Models.Entities.{BrokerStreamEventRecord}
use auto_invest_manager.Streams.Inbox.{
  Inbox, claim_event, claimed, is_claimable, is_dead, get_event,
}
use auto_invest_manager.Streams.Inbox.Counting.{is_finished, is_dead_letter}
use auto_invest_manager.Streams.Processor.{Worker, Surroundings, process_event}
use auto_invest_manager.Streams.Processor.Outcomes.{IsSettled}
use auto_invest_manager.Streams.Jobs.{
  EventJob, Interruption, cut, interrupted, timed_out, retry_unless, process_broker_stream_event,
  enqueued, queued, run_jobs,
}
use auto_invest_manager.Streams.Jobs.Rows.{rows, get_event-rows, claim_event-rows}
use auto_invest_manager.Streams.Jobs.Attempts.{
  IsTried, process_event-IsTried, cut-rows, timed_out-IsTried,
}

-- The row of the id is finished or a dead letter.
unfoldable pub IsFinal : ℕ → Inbox → Type 0
IsFinal id i =
    (e : BrokerStreamEventRecord) × (rows id i ≡ e ∷ [])
    × ((is_finished e || is_dead_letter e) ≡ true)

-- The job that is queued again for a failed event.
abbrev retry_of : ℕ → BrokerStreamEventRecord → EventJob
retry_of id e = record {
  event_id = id;
  attempts = e.processing_attempts;
  defer_by = min 60 (2 ^ e.processing_attempts);
}

-- The row of the id has attempts left and can be claimed still, and the queue has not taken the next
-- job for it.
unfoldable pub IsWaiting : (EventJob → Result Bool) → ℕ → ℕ → Inbox → Type 0
IsWaiting enqueue_job max id i =
    (e : BrokerStreamEventRecord) × (rows id i ≡ e ∷ [])
    × (is_claimable max e ≡ true)
    × (enqueue_job (retry_of id e) ≢ ok true)

abbrev reported : Bool → Result (Option EventJob) → Result (Bool × Option EventJob)
reported processed (ok job) = ok (processed, job)
reported processed (err e) = err e

module _ (w : Surroundings) (max d m id : ℕ) where
  interrupted-cut :
      (i : Interruption) (s : Worker) (e : BrokerStreamEventRecord)
      → i ≢ Interruption.nothing_done
      → (claim_event id max s.inbox).0 ≡ some e
      → interrupted w max d m i id s
        ≡ cut w max d m i e (record s { inbox = (claim_event id max s.inbox).1 })
  interrupted-cut Interruption.nothing_done s e n p = absurd (n refl)
  interrupted-cut Interruption.event_claimed s e n p = ground arith
  interrupted-cut Interruption.trade_signalled s e n p = ground arith
  interrupted-cut Interruption.reconciliation_scheduled s e n p = ground arith
  interrupted-cut Interruption.event_completed s e n p = ground arith
  interrupted-cut Interruption.event_failed s e n p = ground arith

  interrupted-IsTried :
      (i : Interruption) (s : Worker) (e : BrokerStreamEventRecord)
      → i ≢ Interruption.nothing_done
      → rows id s.inbox ≡ e ∷ []
      → is_claimable max e ≡ true
      → let t = interrupted w max d m i id s in
        IsTried max id
          (e.processing_attempts + 1)
          false
          (timed_out w max d m (get_event id t.inbox) t).inbox
  interrupted-IsTried i s e n h c =
      let t = interrupted w max d m i id s in
      let u : Worker = record s { inbox = (claim_event id max s.inbox).1 } in
      let (p, q) = claim_event-rows id max s.inbox e h c in
      let (x, r, a) = cut-rows w max d m i id (claimed e) u q in
      timed_out-IsTried w id max d m (e.processing_attempts + 1) t x
        (ap (λ (v : Worker). rows id v.inbox) (interrupted-cut i s (claimed e) n p) ∙ r)
        (omega (arith, a))

  -- Whatever interrupts the job behind the claim, it is one more attempt at the event.
  process_broker_stream_event-IsTried :
      (o : Option Interruption) (f : EventJob → Result Bool) (s : Worker)
      (e : BrokerStreamEventRecord)
      → o ≢ some Interruption.nothing_done
      → rows id s.inbox ≡ e ∷ []
      → is_claimable max e ≡ true
      → let out = process_broker_stream_event w max d m o f id s in
        (processed : Bool) × (out.0
          ≡ reported processed (
              enqueued w max d m f
                (retry_unless w max d m processed id (get_event id out.1.inbox))))
        × IsTried max id (e.processing_attempts + 1) processed out.1.inbox
  unfolding process_broker_stream_event
  process_broker_stream_event-IsTried none f s e n h c =
      let (processed, p, t) = process_event-IsTried w id max d m s e h c in
      let u = (process_event w id max d m s).1 in
      elim (Result-cases
        (enqueued w max d m f (retry_unless w max d m processed id (get_event id u.inbox)))) [
          | inl (job, q) ↦ (
            processed,
            ground arith,
            subst (λ (v : Worker). IsTried max id (e.processing_attempts + 1) processed v.inbox)
                {x = u} {y = (process_broker_stream_event w max d m none f id s).1} (ground arith)
                t,
          )
          | inr (x, q) ↦ (
            processed,
            ground arith,
            subst (λ (v : Worker). IsTried max id (e.processing_attempts + 1) processed v.inbox)
                {x = u} {y = (process_broker_stream_event w max d m none f id s).1} (ground arith)
                t,
          )
        ]
  process_broker_stream_event-IsTried (some i) f s e n h c =
      let t = interrupted w max d m i id s in
      let u = timed_out w max d m (get_event id t.inbox) t in
      elim (Result-cases
        (enqueued w max d m f (retry_unless w max d m false id (get_event id u.inbox)))) [
          | inl (job, q) ↦ (
            false,
            ground arith,
            subst (λ (v : Worker). IsTried max id (e.processing_attempts + 1) false v.inbox) {x = u}
                {y = (process_broker_stream_event w max d m (some i) f id s).1} (ground arith)
                (interrupted-IsTried i s e (λ p. n (ap some p)) h c),
          )
          | inr (x, q) ↦ (
            false,
            ground arith,
            subst (λ (v : Worker). IsTried max id (e.processing_attempts + 1) false v.inbox) {x = u}
                {y = (process_broker_stream_event w max d m (some i) f id s).1} (ground arith)
                (interrupted-IsTried i s e (λ p. n (ap some p)) h c),
          )
        ]

  -- What a job leaves: no job and a final row, the next job, or a row whose next job was not taken.
  Leaves :
      (EventJob → Result Bool)
      → BrokerStreamEventRecord
      → Result (Bool × Option EventJob) × Worker
      → Type 0
  Leaves f e out =
      ((queued w max d m out.0 ≡ none) × IsFinal id out.1.inbox)
      ⊎ ((job : EventJob) × (x : BrokerStreamEventRecord) × (queued w max d m out.0 ≡ some job)
          × (job.event_id ≡ id)
          × (rows id out.1.inbox ≡ x ∷ [])
          × (is_claimable max x ≡ true)
          × (x.processing_attempts ≡ e.processing_attempts + 1))
      ⊎ ((queued w max d m out.0 ≡ none) × IsWaiting f max id out.1.inbox)

  job-cases :
      (o : Option Interruption) (f : EventJob → Result Bool) (s : Worker)
      (e : BrokerStreamEventRecord)
      → o ≢ some Interruption.nothing_done
      → rows id s.inbox ≡ e ∷ []
      → is_claimable max e ≡ true
      → Leaves f e (process_broker_stream_event w max d m o f id s)
  unfolding IsSettled IsFinal IsWaiting Leaves
  job-cases o f s e n h c =
      let out = process_broker_stream_event w max d m o f id s in
      let (processed, p, (x, r, a, q)) = process_broker_stream_event-IsTried o f s e n h c in
      let g = get_event-rows id out.1.inbox x r in
      elim (Bool-cases processed) [
        | inl t ↦ inl (ground arith, (x, r, ground arith))
        | inr t ↦ elim (Bool-cases (is_dead max x)) [
          | inl u ↦ inl (ground arith, (x, r, ground arith))
          | inr u ↦
              let job = retry_of id x in
              let k : retry_unless w max d m processed id (get_event id out.1.inbox) ≡ some job =
                ground arith in
              elim (Result-cases (f job)) [
                | inr (failure, z) ↦
                    inr (inr (ground arith, (x, r, ground arith, λ y. ground arith)))
                | inl (is_new, z) ↦ elim (Bool-cases is_new) [
                  | inl y ↦ inr (inl (job, x, ground arith, refl, r, ground arith, a))
                  | inr y ↦ inr (inr (ground arith, (x, r, ground arith, λ v. ground arith)))
                ]
              ]
        ]
      ]

run_jobs-none :
    (w : Surroundings) (max d m : ℕ) (cuts : ℕ → Option Interruption)
    (answers : ℕ → EventJob → Result Bool) (fuel : ℕ) (s : Worker)
    → run_jobs w max d m cuts answers fuel none s ≡ (none, s)
unfolding run_jobs
run_jobs-none w max d m cuts answers zero s = refl
run_jobs-none w max d m cuts answers (suc fuel) s = refl

run_jobs-next :
    (w : Surroundings) (max d m id : ℕ) (cuts : ℕ → Option Interruption)
    (answers : ℕ → EventJob → Result Bool) (fuel : ℕ) (job : EventJob) (s : Worker)
    (o : Option EventJob)
    → job.event_id ≡ id
    → let out = process_broker_stream_event w max d m (cuts fuel) (answers fuel) id s in
      queued w max d m out.0 ≡ o
      → run_jobs w max d m cuts answers (suc fuel) (some job) s
        ≡ run_jobs w max d m cuts answers fuel o out.1
unfolding run_jobs
run_jobs-next w max d m id cuts answers fuel job s o i p = ground arith

-- No job is left for the event, and its one row is final; or the queue has not taken the next job at
-- one of the turns, and the row waits.
pub IsDealtWith :
    (fuel max id : ℕ) → (ℕ → EventJob → Result Bool) → Option EventJob × Worker → Type 0
IsDealtWith fuel max id answers out =
    (out.0 ≡ none)
    × (IsFinal id out.1.inbox ⊎ ((n : ℕ) × (n < fuel) × IsWaiting (answers n) max id out.1.inbox))

later :
    (fuel max id : ℕ) (answers : ℕ → EventJob → Result Bool) (out : Option EventJob × Worker)
    → IsDealtWith fuel max id answers out
    → IsDealtWith (suc fuel) max id answers out
unfolding IsDealtWith
later fuel max id answers out (p, inl f) = (p, inl f)
later fuel max id answers out (p, inr (n, l, h)) = (p, inr (n, omega (arith, l), h))

-- For a stored event that can be claimed, when no timeout comes before the claim, as many jobs as it
-- has attempts left are enough for the queue to be free of jobs for it: its one row is then processed,
-- ignored or a dead letter, whatever raises while it is handled; or the queue has refused the next
-- job for the row, or raised, and the row can still be claimed.
pub run_jobs_ends :
    (w : Surroundings) (max d m id : ℕ) (cuts : ℕ → Option Interruption)
    (answers : ℕ → EventJob → Result Bool) (fuel : ℕ) (job : EventJob) (s : Worker)
    (e : BrokerStreamEventRecord)
    → ((n : ℕ) → cuts n ≢ some Interruption.nothing_done)
    → job.event_id ≡ id
    → rows id s.inbox ≡ e ∷ []
    → is_claimable max e ≡ true
    → max ≤ e.processing_attempts + fuel
    → IsDealtWith fuel max id answers (run_jobs w max d m cuts answers fuel (some job) s)
unfolding IsDealtWith Leaves
run_jobs_ends w max d m id cuts answers zero job s e n i h c l = absurd (ground arith)
run_jobs_ends w max d m id cuts answers (suc fuel) job s e n i h c l =
    let out = process_broker_stream_event w max d m (cuts fuel) (answers fuel) id s in
    elim (job-cases w max d m id (cuts fuel) (answers fuel) s e (n fuel) h c) [
      | inl (p, f) ↦
          subst (IsDealtWith (suc fuel) max id answers)
            (sym (
              run_jobs-next w max d m id cuts answers fuel job s none i p
              ∙ run_jobs-none w max d m cuts answers fuel out.1))
            (refl, inl f)
      | inr (inl (next, x, p, q, r, y, a)) ↦
          subst (IsDealtWith (suc fuel) max id answers)
            (sym (run_jobs-next w max d m id cuts answers fuel job s (some next) i p))
            (later fuel max id answers (run_jobs w max d m cuts answers fuel (some next) out.1) (
              run_jobs_ends w max d m id cuts answers fuel next out.1 x n q r y (omega (arith, a))))
      | inr (inr (p, y)) ↦
          subst (IsDealtWith (suc fuel) max id answers)
            (sym (
              run_jobs-next w max d m id cuts answers fuel job s none i p
              ∙ run_jobs-none w max d m cuts answers fuel out.1))
            (refl, inr (fuel, omega arith, y))
    ]
