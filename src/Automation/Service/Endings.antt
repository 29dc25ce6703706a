-- ===== src/Automation/Service/Endings.antt =====
-- app/automation/service.py: which exceptions leave a run, and what a failure writes to its row.
use auto_invest_manager.Base.{
  ℕ, ◌==◌, ◌≡◌, ◌≢◌, refl, sym, ap, subst, ◌⊎◌, inl, inr, Bool-cases, true, false, ◌∷◌, ◌++◌, none,
  some, List, [], All, All-keep-update, keep, update, String, Result, ok, err, Error, arith,
}
use auto_invest_manager.Models.Enums.{AutomationRunStatus}
use auto_invest_manager.Models.Entities.{SystemSettings, AutomationRun}
use auto_invest_manager.Redis.{Redis}
use auto_invest_manager.Automation.Store.{
  Cycle, Services, Config, AutomationCycleRequest, AutomationCycleResult,
}
use auto_invest_manager.Automation.Repository.{
  create, finish, finished, get_by_correlation, new_run,
}
use auto_invest_manager.Automation.Pipeline.{result_of, fail_run}
use auto_invest_manager.Automation.Service.{
  run, run_resolved, run_failing, needs_rollback, rescued, run_guarded, resolve_run, failure_code,
  failure_message,
}

-- The row of a failed run.
pub IsFailed : String → AutomationRun → Type 0
IsFailed code r = (r.status ≡ AutomationRunStatus.failed) × (r.error_code ≡ some code)

module _ (R : Redis) (services : Services) (config : Config) (st : SystemSettings) where
  -- The guarded part has returned, and so has the run.
  pub Returns :
      Result AutomationCycleResult × Cycle R → Result AutomationCycleResult × Cycle R → Type 0
  Returns guarded out = (a : AutomationCycleResult) × (guarded.0 ≡ ok a) × (out ≡ (ok a, guarded.1))

  -- It has raised, and the run answers FAILED and has written that to its row, and to no other.
  pub Fails :
      ℕ → Result AutomationCycleResult × Cycle R → Result AutomationCycleResult × Cycle R → Type 0
  Fails id guarded out =
      (e : Error) × (guarded.0 ≡ err e)
      × (e ≢ Error.integrity)
      × (out.0
          ≡ ok (result_of id AutomationRunStatus.failed (some (failure_code R services config e))))
      × ((f : AutomationRun → AutomationRun) × (out.1.runs
            ≡ update (λ r. r.id == id) f guarded.1.runs))
      × All (IsFailed (failure_code R services config e)) (keep (λ r. r.id == id) out.1.runs)

  -- A statement was refused: the run raises too, and leaves everything as it was then.
  pub Breaks :
      Result AutomationCycleResult × Cycle R → Result AutomationCycleResult × Cycle R → Type 0
  Breaks guarded out = (guarded.0 ≡ err Error.integrity) × (out ≡ (err Error.other, guarded.1))

  -- What comes of a run whose guarded part has ended as `guarded`.
  pub Ends :
      ℕ → Result AutomationCycleResult × Cycle R → Result AutomationCycleResult × Cycle R → Type 0
  Ends id guarded out = Returns guarded out ⊎ Fails id guarded out ⊎ Breaks guarded out

  needs_rollback_lem : (e : Error) → needs_rollback R services config e ≡ true → e ≡ Error.integrity
  needs_rollback_lem e h = ground arith

  failing-runs :
      (id : ℕ) (actor : String) (e : Error) (s : Cycle R)
      → needs_rollback R services config e ≡ false
      → (run_failing R services config id actor e s).1.runs
        ≡ update
            (λ r. r.id == id)
            (finished R AutomationRunStatus.failed
              (services.clock s.calls)
              (some (failure_code R services config e))
              (some (failure_message R services config e))
              [])
            s.runs
  unfolding run_failing fail_run finish
  failing-runs id actor e s h = ground arith

  failing-result :
      (id : ℕ) (actor : String) (e : Error) (s : Cycle R)
      → needs_rollback R services config e ≡ false
      → (run_failing R services config id actor e s).0
        ≡ ok (result_of id AutomationRunStatus.failed (some (failure_code R services config e)))
  unfolding run_failing fail_run finish
  failing-result id actor e s h = ground arith

  failing-Fails :
      (id : ℕ) (actor : String) (e : Error) (s : Cycle R)
      → needs_rollback R services config e ≡ false
      → Fails id (err e, s) (run_failing R services config id actor e s)
  unfolding Fails IsFailed
  failing-Fails id actor e s h =
      let f =
        finished R AutomationRunStatus.failed (services.clock s.calls)
          (some (failure_code R services config e)) (some (failure_message R services config e))
          [] in
      (
        e,
        refl,
        λ p. ground arith,
        failing-result id actor e s h,
        (f, failing-runs id actor e s h),
        subst
            (λ (rows : List AutomationRun).
              All (IsFailed (failure_code R services config e)) (keep (λ x. x.id == id) rows))
            (sym (failing-runs id actor e s h))
            (All-keep-update (IsFailed (failure_code R services config e)) (λ x. x.id == id) f
              (λ x. refl) (λ x. (refl, refl)) s.runs),
      )

  broken-Breaks :
      (id : ℕ) (actor : String) (e : Error) (s : Cycle R)
      → needs_rollback R services config e ≡ true
      → Breaks (err e, s) (run_failing R services config id actor e s)
  unfolding Breaks run_failing
  broken-Breaks id actor e s h = (ap err (needs_rollback_lem e h), ground arith)

  rescued-Ends :
      (id : ℕ) (actor : String) (guarded : Result AutomationCycleResult × Cycle R)
      → Ends id guarded (rescued R services config (run_failing R services config id actor) guarded)
  unfolding Ends Returns
  rescued-Ends id actor (ok a, t) = inl (a, refl, refl)
  rescued-Ends id actor (err e, t) = elim (Bool-cases (needs_rollback R services config e)) [
    | inl p ↦ inr (inr (broken-Breaks id actor e t p))
    | inr p ↦ inr (inl (failing-Fails id actor e t p))
  ]

  run_resolved-Ends :
      (r : AutomationRun) (actor : String) (s : Cycle R)
      → r.status ≡ AutomationRunStatus.pending
      → Ends r.id
          (run_guarded R services config r.id actor st s)
          (run_resolved R services config r true actor st s)
  unfolding run_resolved
  run_resolved-Ends r actor s h =
      let guarded = run_guarded R services config r.id actor st s in
      subst (λ (o : Result AutomationCycleResult × Cycle R). Ends r.id guarded o)
        {x = rescued R services config (run_failing R services config r.id actor) guarded}
        (ground arith) (rescued-Ends r.id actor guarded)

-- A run with a new correlation id stores one row, after those before, with the status PENDING. It
-- then returns what its guarded part returns and leaves the state as that does. If that part raises,
-- the run returns FAILED with the code of the exception and has changed no row but its own, which has the
-- status FAILED and that code; only when the database refused a statement there, the run raises as
-- well and leaves the state as the guarded part left it.
pub run-Ends :
    (R : Redis) (services : Services) (config : Config) (st : SystemSettings)
    (request : AutomationCycleRequest) (s : Cycle R)
    → s.settings ≡ some st
    → request.run_id ≡ none
    → get_by_correlation R request.correlation_id s ≡ none
    → let created =
        (create R request.trigger request.correlation_id st.trade_mode request.actor s).1 in
      ((row : AutomationRun) × (created.runs ≡ s.runs ++ row ∷ [])
        × (row.id ≡ s.next_id)
        × (row.correlation_id ≡ request.correlation_id)
        × (row.status ≡ AutomationRunStatus.pending))
      × Ends R services config st s.next_id
          (run_guarded R services config s.next_id request.actor st created)
          (run R services config request s)
unfolding run resolve_run create
run-Ends R services config st request s p q c =
    let r = new_run R s.next_id request.trigger request.correlation_id st.trade_mode in
    let created =
      (create R request.trigger request.correlation_id st.trade_mode request.actor s).1 in
    (
      (r, ground arith, refl, refl, refl),
      subst
          (λ (out : Result AutomationCycleResult × Cycle R).
            Ends R services config st s.next_id
              (run_guarded R services config s.next_id request.actor st created) out)
          {x = run_resolved R services config r true request.actor st created} (ground arith)
          (run_resolved-Ends R services config st r request.actor created refl),
    )
