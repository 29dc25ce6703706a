-- ===== src/Automation/Service.antt =====
-- app/automation/service.py: a whole run: its row, the safety check, the lock around the pipeline, and
-- what becomes of an exception.
pub mod Calls
pub mod Phases
pub mod Safety
pub mod Endings
use auto_invest_manager.Base.{
  ℕ, zero, suc, ◌+◌, ◌==◌, Bool, true, false, ◌&&◌, ◌||◌, not, Option, none, some, List, [], ◌∷◌,
  ◌++◌, String, str_eq, ltb, find, keep, any, length, if◌then◌else◌, Result, ok, err, Error, Action,
  pure, raise, gets, or_raise, lift, modify, raise_if, ◌>>=◌, ◌>>◌,
}
use auto_invest_manager.Models.Enums.{
  TradeMode, AutomationRunStatus, AutomationStep, AllocationAction, PlannedOrderStatus, is_mode,
  is_status, is_run_status,
}
use auto_invest_manager.Models.Entities.{
  SystemSettings, AutomationRun, RebalancePlan, TargetAllocation, PlannedOrder,
}
use auto_invest_manager.Execution.Dto.{TradingStatusData}
use auto_invest_manager.Redis.{Redis}
use auto_invest_manager.Automation.Lock.{LockLease, acquire, release}
use auto_invest_manager.Automation.Store.{
  Cycle, Services, Config, Call, BrokerAccountData, AutomationCycleRequest, AutomationCycleResult,
  call, retrying, notify,
}
use auto_invest_manager.Automation.Repository.{
  add_audit, audit_rejected, get, create, update_run, mark_running, update_step, finish,
}
use auto_invest_manager.Automation.Pipeline.{
  result_of, select_account, skip, succeed, fail_run, run_pipeline, counted,
}

module _ (R : Redis) (services : Services) (config : Config) where
  abbrev pub acquire_lock : String → Action (Cycle R) (Option LockLease)
  acquire_lock account_id s =
      let held =
        acquire R config.lock_ttl_seconds (services.owner_token s.calls) account_id s.redis
          (services.clock s.calls) in
      (ok held.1, record s { redis = held.0; calls = s.calls + 1 })

  abbrev pub release_lock : LockLease → Cycle R → Cycle R
  release_lock lease s = record s {
    redis = (release R lease s.redis (services.clock s.calls)).0;
    calls = s.calls + 1;
  }

  -- `try: … finally: release`
  abbrev pub finally : {A : Type 0} → Action (Cycle R) A → (Cycle R → Cycle R) → Action (Cycle R) A
  finally m cleanup s = let (r, t) = m s in (r, cleanup t)

  -- `_run_guarded` from the lock on.
  unfoldable pub run_locked :
      ℕ
      → String
      → TradeMode
      → BrokerAccountData
      → Option LockLease
      → Action (Cycle R) AutomationCycleResult
  run_locked id actor mode account none =
      audit_rejected R "automation.lock.rejected" actor id
      >> skip R services config id actor "cycle_already_running"
  run_locked id actor mode account (some lease) =
      finally
        (mark_running R services id account.account_id
          >> run_pipeline R services config id actor mode account)
        (release_lock lease)

  -- `_run_guarded` behind the safety check.
  unfoldable pub run_synced : ℕ → String → TradeMode → Action (Cycle R) AutomationCycleResult
  run_synced id actor mode =
      update_step R services id AutomationStep.account_sync
      >> retrying R services config.retry Call.get_accounts services.get_accounts
      >>= λ accounts. lift (select_account config.preferred_account_id accounts) >>= λ account.
          acquire_lock account.account_id >>= λ lease. run_locked id actor mode account lease

  unfoldable pub run_guarded : ℕ → String → SystemSettings → Action (Cycle R) AutomationCycleResult
  run_guarded id actor settings =
      update_step R services id AutomationStep.safety_check
      >> counted R services config id (λ r. record r { trade_mode = settings.trade_mode })
      >> elim (is_mode settings.trade_mode TradeMode.off) [
        | true ↦ skip R services config id actor "trade_mode_off"
        | false ↦ elim settings.kill_switch [
          | true ↦
              audit_rejected R "automation.safety.rejected" actor id
              >> skip R services config id actor "kill_switch_enabled"
          | false ↦ run_synced id actor settings.trade_mode
        ]
      ]

  unfoldable pub resolve_run :
      AutomationCycleRequest → TradeMode → Action (Cycle R) (AutomationRun × Bool)
  resolve_run request mode = elim request.run_id [
    | none ↦ create R request.trigger request.correlation_id mode request.actor
    | some id ↦ gets (get R id) >>= λ found. or_raise found Error.resource_not_found >>= λ r.
        pure (r, is_run_status r.status AutomationRunStatus.pending)
  ]

  -- The codes and messages of the `except` clauses of `run`.
  abbrev pub failure_code : Error → String
  failure_code Error.timeout = "run_timeout"
  failure_code (Error.rate_limit d) = "broker_rate_limited"
  failure_code _ = "cycle_failed"

  abbrev pub failure_message : Error → String
  failure_message Error.timeout = "Automation cycle timed out"
  failure_message (Error.rate_limit d) = "Broker read rate limit exceeded"
  failure_message _ = "Automation cycle failed"

  -- A statement that the database refused leaves the session in need of a rollback.
  abbrev pub needs_rollback : Error → Bool
  needs_rollback Error.integrity = true
  needs_rollback _ = false

  -- `_fail` rolls nothing back: it raises on a session that needs it, and writes nothing.
  unfoldable pub run_failing : ℕ → String → Error → Action (Cycle R) AutomationCycleResult
  run_failing id actor e = elim (needs_rollback e) [
    | true ↦ raise Error.other
    | false ↦
        fail_run R services config id actor (failure_code e) (failure_message e)
        >> pure (result_of id AutomationRunStatus.failed (some (failure_code e)))
  ]

  abbrev pub rescued :
      {A : Type 0} → (Error → Action (Cycle R) A) → Result A × Cycle R → Result A × Cycle R
  rescued handler (ok a, t) = (ok a, t)
  rescued handler (err e, t) = handler e t

  unfoldable pub run_resolved :
      AutomationRun → Bool → String → SystemSettings → Action (Cycle R) AutomationCycleResult
  run_resolved r created actor settings s =
      elim (created && is_run_status r.status AutomationRunStatus.pending) [
        | false ↦ (ok (result_of r.id r.status (some "duplicate_correlation_id")), s)
        | true ↦ rescued (run_failing r.id actor) (run_guarded r.id actor settings s)
      ]

  unfoldable pub run : AutomationCycleRequest → Action (Cycle R) AutomationCycleResult
  run request = gets (λ s. s.settings) >>= λ found.
      or_raise found Error.resource_not_found >>= λ settings.
      resolve_run request settings.trade_mode >>= λ resolved.
      run_resolved resolved.0 resolved.1 request.actor settings
