-- ===== src/Automation/Service/Safety.antt =====
-- app/automation/service.py: what a run may call in each mode.
use auto_invest_manager.Base.{
  ℕ, Bool, true, false, ◌&&◌, ◌≡◌, refl, Option, none, some, all, String, Result, ok, err, Error,
  Action, raise, pure, arith, ◌>>◌, ◌>>=◌, or_raise, subst, sym,
}
use auto_invest_manager.Models.Enums.{TradeMode, AutomationRunStatus, is_mode, is_run_status}
use auto_invest_manager.Models.Entities.{SystemSettings, AutomationRun}
use auto_invest_manager.Redis.{Redis}
use auto_invest_manager.Automation.Lock.{LockLease}
use auto_invest_manager.Automation.Store.{
  Cycle, Services, Config, Call, BrokerAccountData, AutomationCycleRequest, AutomationCycleResult,
}
use auto_invest_manager.Automation.Repository.{audit_rejected, create}
use auto_invest_manager.Automation.Pipeline.{result_of, skip, fail_run}
use auto_invest_manager.Automation.Service.{
  run, run_resolved, run_failing, needs_rollback, failure_code, failure_message, run_guarded,
  run_synced, run_locked, resolve_run, rescued,
}
use auto_invest_manager.Base.Keeping.{Keeps, Keeps-bind, Keeps-then, Keeps-pure, Keeps-lift}
use auto_invest_manager.Automation.Service.Calls.{
  is_allowed, IsAllowed, K-retrying, K-step, K-counted, K-audit, K-mark, K-skip, K-fail,
}
use auto_invest_manager.Automation.Service.Phases.{K-finally, K-acquire, K-run_pipeline}

module _ (R : Redis) (services : Services) (config : Config) (st : SystemSettings) where
  abbrev K : {A : Type 0} → Action (Cycle R) A → Type 0
  K m = Keeps (IsAllowed R services config st) m

  K-run_locked :
      (id : ℕ) (actor : String) (mode : TradeMode) (account : BrokerAccountData)
      (lease : Option LockLease)
      → st.trade_mode ≡ mode
      → is_mode mode TradeMode.off ≡ false
      → st.kill_switch ≡ false
      → K (run_locked R services config id actor mode account lease)
  unfolding run_locked
  K-run_locked id actor mode account none p off q =
      Keeps-then (IsAllowed R services config st) _ _ (K-audit R services config st _ actor id)
        (K-skip R services config st id actor _)
  K-run_locked id actor mode account (some lease) p off q = K-finally R services config st lease _ (
      Keeps-then (IsAllowed R services config st) _ _
        (K-mark R services config st id account.account_id)
        (K-run_pipeline R services config st id actor mode account p off q))

  K-run_synced :
      (id : ℕ) (actor : String)
      → is_mode st.trade_mode TradeMode.off ≡ false
      → st.kill_switch ≡ false
      → K (run_synced R services config id actor st.trade_mode)
  unfolding run_synced is_allowed
  K-run_synced id actor off q =
      Keeps-bind (IsAllowed R services config st) _ _
        (Keeps-then (IsAllowed R services config st) _ _ (K-step R services config st id _) (
          K-retrying R services config st config.retry Call.get_accounts services.get_accounts
            (ground arith)))
        λ accounts.
          Keeps-bind (IsAllowed R services config st) _ _
            (Keeps-lift (IsAllowed R services config st) _)
            λ account.
              Keeps-bind (IsAllowed R services config st) _ _
                (K-acquire R services config st account.account_id)
                λ lease. K-run_locked id actor st.trade_mode account lease refl off q

  K-run_guarded : (id : ℕ) (actor : String) → K (run_guarded R services config id actor st)
  unfolding run_guarded
  K-run_guarded id actor =
      Keeps-then (IsAllowed R services config st) _ _
        (Keeps-then (IsAllowed R services config st) _ _ (K-step R services config st id _)
          (K-counted R services config st id _))
        (mode-branch (is_mode st.trade_mode TradeMode.off) refl)
    where
      kill-branch :
          (b : Bool)
          → is_mode st.trade_mode TradeMode.off ≡ false
          → st.kill_switch ≡ b
          → K (elim b as (λ c. Action (Cycle R) AutomationCycleResult) [
            | true ↦
                audit_rejected R "automation.safety.rejected" actor id
                >> skip R services config id actor "kill_switch_enabled"
            | false ↦ run_synced R services config id actor st.trade_mode
          ])
      kill-branch true off e =
          Keeps-then (IsAllowed R services config st) _ _ (K-audit R services config st _ actor id)
            (K-skip R services config st id actor _)
      kill-branch false off e = K-run_synced id actor off e

      mode-branch :
          (b : Bool)
          → is_mode st.trade_mode TradeMode.off ≡ b
          → K (elim b as (λ c. Action (Cycle R) AutomationCycleResult) [
            | true ↦ skip R services config id actor "trade_mode_off"
            | false ↦ elim st.kill_switch as (λ c. Action (Cycle R) AutomationCycleResult) [
              | true ↦
                  audit_rejected R "automation.safety.rejected" actor id
                  >> skip R services config id actor "kill_switch_enabled"
              | false ↦ run_synced R services config id actor st.trade_mode
            ]
          ])
      mode-branch true e = K-skip R services config st id actor _
      mode-branch false e = kill-branch st.kill_switch e refl

  K-failing : (id : ℕ) (actor : String) (e : Error) → K (run_failing R services config id actor e)
  unfolding run_failing
  K-failing id actor e = turn (needs_rollback R services config e)
    where
      turn :
          (b : Bool)
          → K (elim b as (λ c. Action (Cycle R) AutomationCycleResult) [
            | true ↦ raise Error.other
            | false ↦
                fail_run R services config id actor
                  (failure_code R services config e)
                  (failure_message R services config e)
                >> pure (
                    result_of id AutomationRunStatus.failed
                      (some (failure_code R services config e)))
          ])
      turn true = Keeps-lift (IsAllowed R services config st) (err Error.other)
      turn false =
          Keeps-then (IsAllowed R services config st) _ _ (K-fail R services config st id actor _ _)
            (Keeps-pure (IsAllowed R services config st) _)

  K-run_resolved :
      (r : AutomationRun) (created : Bool) (actor : String)
      → K (run_resolved R services config r created actor st)
  unfolding run_resolved Keeps
  K-run_resolved r created actor s h =
      resolved-branch (created && is_run_status r.status AutomationRunStatus.pending)
    where
      rescue :
          (p : Result AutomationCycleResult × Cycle R)
          → (IsAllowed R services config st) p.1
          → (IsAllowed R services config st)
              (rescued R services config (run_failing R services config r.id actor) p).1
      rescue (ok a, t) ht = ht
      rescue (err e, t) ht = K-failing r.id actor e t ht

      resolved-branch :
          (b : Bool)
          → (IsAllowed R services config st)
              (elim b as (λ c. Result AutomationCycleResult × Cycle R) [
                | false ↦ (ok (result_of r.id r.status (some "duplicate_correlation_id")), s)
                | true ↦
                    rescued R services config
                      (run_failing R services config r.id actor)
                      (run_guarded R services config r.id actor st s)
              ]).1
      resolved-branch false = h
      resolved-branch true =
          rescue (run_guarded R services config r.id actor st s) (K-run_guarded r.id actor s h)

  K-resolve_run :
      (request : AutomationCycleRequest) (mode : TradeMode)
      → K (resolve_run R services config request mode)
  unfolding resolve_run create Keeps IsAllowed
  K-resolve_run request mode s h = ground arith

  K-run_settled :
      (request : AutomationCycleRequest)
      → K (
          resolve_run R services config request st.trade_mode >>= λ resolved.
          run_resolved R services config resolved.0 resolved.1 request.actor st)
  K-run_settled request =
      Keeps-bind (IsAllowed R services config st) _ _ (K-resolve_run request st.trade_mode)
        λ resolved. K-run_resolved resolved.0 resolved.1 request.actor

-- Whatever the services answer and wherever they fail or the time runs out, a run makes only calls
-- that the settings allow: no call at all in the mode off or under the kill switch, no planning in
-- the mode of signals only, `execute` only in a dry run and `execute_sandbox` only in the sandbox.
pub run_allowed :
    (R : Redis) (services : Services) (config : Config) (st : SystemSettings)
    (request : AutomationCycleRequest) (s : Cycle R)
    → s.settings ≡ some st
    → all (is_allowed st) s.trace ≡ true
    → all (is_allowed st) (run R services config request s).1.trace ≡ true
unfolding run IsAllowed Keeps
run_allowed R services config st request s p h =
    subst
      (λ (found : Option SystemSettings).
        all (is_allowed st)
          ((or_raise found Error.resource_not_found >>= λ settings.
              resolve_run R services config request settings.trade_mode >>= λ resolved.
              run_resolved R services config resolved.0 resolved.1 request.actor settings)
            s).1.trace
        ≡ true)
      (sym p) (K-run_settled R services config st request s h)
