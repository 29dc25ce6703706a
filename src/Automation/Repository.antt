-- ===== src/Automation/Repository.antt =====
-- app/automation/repository.py: the rows of the runs. A method is one transaction of the store; the
-- race of two transactions that insert one correlation id is not modelled.
use auto_invest_manager.Base.{
  ℕ, ◌+◌, ◌==◌, Bool, true, false, ◌&&◌, Option, none, some, List, [], ◌∷◌, ◌++◌, String, str_eq,
  ltb, find, keep, update, length, if◌then◌else◌, ok, Action, modify,
}
use auto_invest_manager.Models.Enums.{
  TradeMode, AutomationTrigger, AutomationRunStatus, AutomationStep, is_run_status,
}
use auto_invest_manager.Models.Entities.{AutomationRun}
use auto_invest_manager.Redis.{Redis}
use auto_invest_manager.Automation.Store.{Cycle, Services}

module _ (R : Redis) where
  abbrev pub add_audit : String → String → String → ℕ → Cycle R → Cycle R
  add_audit event_type severity actor subject s = record s {
    audit =
        s.audit
        ++ record { event_type = event_type; severity = severity; actor = actor; subject = subject }
          ∷ [];
  }

  abbrev pub audit_rejected : String → String → ℕ → Action (Cycle R) (Unit {0})
  audit_rejected event_type actor subject = modify (add_audit event_type "info" actor subject)

  abbrev pub get : ℕ → Cycle R → Option AutomationRun
  get id s = find (λ r. r.id == id) s.runs

  abbrev pub get_by_correlation : String → Cycle R → Option AutomationRun
  get_by_correlation cid s = find (λ r. str_eq r.correlation_id cid) s.runs

  abbrev pub new_run : ℕ → AutomationTrigger → String → TradeMode → AutomationRun
  new_run id trigger correlation_id trade_mode = record {
    id = id;
    trigger = trigger;
    status = AutomationRunStatus.pending;
    trade_mode = trade_mode;
    started_at = none;
    finished_at = none;
    heartbeat_at = none;
    account_id = none;
    correlation_id = correlation_id;
    current_step = AutomationStep.safety_check;
    signals_count = 0;
    rebalance_plan_id = none;
    planned_orders_count = 0;
    executed_orders_count = 0;
    virtual_trades_count = 0;
    error_code = none;
    error_message = none;
    run_metadata = [];
  }

  abbrev create_new :
      AutomationTrigger → String → TradeMode → String → Action (Cycle R) (AutomationRun × Bool)
  create_new trigger correlation_id trade_mode actor s = (
    ok (new_run s.next_id trigger correlation_id trade_mode, true),
    add_audit "automation.run.started" "info" actor s.next_id (record s {
      runs = s.runs ++ new_run s.next_id trigger correlation_id trade_mode ∷ [];
      next_id = s.next_id + 1;
    }),
  )

  unfoldable pub create :
      AutomationTrigger → String → TradeMode → String → Action (Cycle R) (AutomationRun × Bool)
  create trigger correlation_id trade_mode actor s = elim (get_by_correlation correlation_id s) [
    | some existing ↦ (ok (existing, false), s)
    | none ↦ create_new trigger correlation_id trade_mode actor s
  ]

  abbrev pub update_run : ℕ → (AutomationRun → AutomationRun) → Cycle R → Cycle R
  update_run id f s = record s { runs = update (λ r. r.id == id) f s.runs }

  abbrev pub marked_running : ℕ → String → AutomationRun → AutomationRun
  marked_running now account_id r = record r {
    status = AutomationRunStatus.running;
    account_id = some account_id;
    started_at = some now;
    heartbeat_at = some now;
  }

  unfoldable pub mark_running : Services → ℕ → String → Action (Cycle R) (Unit {0})
  mark_running services id account_id s = (
    ok tt,
    record (update_run id (marked_running (services.clock s.calls) account_id) s) {
      calls = s.calls + 1;
    },
  )

  unfoldable pub update_step : Services → ℕ → AutomationStep → Action (Cycle R) (Unit {0})
  update_step services id step s = (
    ok tt,
    record (update_run id
        (λ r. record r { current_step = step; heartbeat_at = some (services.clock s.calls) }) s) {
          calls = s.calls + 1;
        },
  )

  abbrev pub run_event : AutomationRunStatus → String
  run_event AutomationRunStatus.succeeded = "automation.run.succeeded"
  run_event AutomationRunStatus.skipped = "automation.run.skipped"
  run_event AutomationRunStatus.failed = "automation.run.failed"
  run_event _ = "automation.run.finished"

  -- Of two values under one key of the metadata the later one counts.
  abbrev pub finished :
      AutomationRunStatus
      → ℕ
      → Option String
      → Option String
      → List (String × String)
      → AutomationRun
      → AutomationRun
  finished status now code message metadata r = record r {
    status = status;
    finished_at = some now;
    heartbeat_at = some now;
    error_code = code;
    error_message = message;
    run_metadata = r.run_metadata ++ metadata;
  }

  unfoldable pub finish :
      Services
      → ℕ
      → AutomationRunStatus
      → String
      → Option String
      → Option String
      → List (String × String)
      → Action (Cycle R) (Unit {0})
  finish services id status actor code message metadata s = (
    ok tt,
    record (add_audit (run_event status)
        (if is_run_status status AutomationRunStatus.succeeded then "info" else "warning") actor id
        (update_run id (finished status (services.clock s.calls) code message metadata) s)) {
          calls = s.calls + 1;
        },
  )

  abbrev heartbeat_before : Option ℕ → ℕ → Bool
  heartbeat_before none threshold = false
  heartbeat_before (some t) threshold = ltb t threshold

  abbrev pub is_stale : ℕ → AutomationRun → Bool
  is_stale threshold r =
      is_run_status r.status AutomationRunStatus.running
      && heartbeat_before r.heartbeat_at threshold

  abbrev recover_runs : Services → List AutomationRun → Cycle R → Cycle R
  recover_runs services [] s = s
  recover_runs services (r ∷ rs) s = recover_runs services rs (
      add_audit "automation.stale_run.recovered" "info" "system" r.id
        (finish services r.id AutomationRunStatus.failed "system" (some "stale_worker_run")
          (some "Worker heartbeat expired") [] s).1)

  unfoldable pub recover_stale : Services → ℕ → Cycle R → List AutomationRun × Cycle R
  unfolding finish
  recover_stale services threshold s =
      (keep (is_stale threshold) s.runs, recover_runs services (keep (is_stale threshold) s.runs) s)

  unfoldable pub running_count : Cycle R → ℕ
  running_count s = length (keep (λ r. is_run_status r.status AutomationRunStatus.running) s.runs)
