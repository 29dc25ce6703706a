-- ===== src/Checks/Automation.antt =====
-- The theorems on app/automation at concrete inputs.
use auto_invest_manager.Base.{
  ℕ, zero, suc, ◌≡◌, ◌≤◌, ◌<◌, ◌⊎◌, refl, true, false, none, some, [], ◌∷◌, ◌++◌, all, All, length,
  eq_iff, Result, ok, err, Error, arith,
}
use auto_invest_manager.Base.Decimal.{from_int}
use auto_invest_manager.Models.Enums.{
  TradeMode, AutomationTrigger, AutomationRunStatus, PlannedOrderStatus,
}
use auto_invest_manager.Models.Entities.{SystemSettings, AutomationRun}
use auto_invest_manager.Redis.Memory.{memory, memory-IsRedis}
use auto_invest_manager.Automation.Lock.{LockLease, lock_key, acquire, release}
use auto_invest_manager.Automation.Lock.Ownership.{acquire_exclusive}
use auto_invest_manager.Automation.Retry.{RetryPolicy, run_with_retry}
use auto_invest_manager.Automation.Retry.Attempts.{Ends, run_with_retry-Ends, run_with_retry_waits}
use auto_invest_manager.Automation.Store.{Cycle, Services, Config, AutomationCycleRequest}
use auto_invest_manager.Automation.Repository.{create}
use auto_invest_manager.Automation.Service.{run, run_guarded}
use auto_invest_manager.Automation.Service.Endings.{run-Ends, Ends as RunEnds}
use auto_invest_manager.Automation.Service.Calls.{is_allowed}
use auto_invest_manager.Automation.Service.Safety.{run_allowed}
use auto_invest_manager.Checks.Data.{plan_one, order_in, rubles}

abbrev policy : RetryPolicy
policy = record { max_attempts = 3; base_delay = 500; max_delay = 800; jitter = false }

abbrev uniform : ℕ → ℕ → ℕ
uniform n d = 0

-- Two timeouts, then an answer.
abbrev flaky : ℕ → Result ℕ
flaky zero = err Error.timeout
flaky (suc zero) = err Error.timeout
flaky (suc (suc zero)) = err (Error.rate_limit (some 9000))
flaky (suc (suc (suc n))) = ok 42

run_with_retry-Ends_example : Ends flaky 1 3 (run_with_retry policy uniform flaky)
run_with_retry-Ends_example = run_with_retry-Ends policy uniform flaky (omega arith)

run_with_retry_waits_example :
    All (λ d. d ≤ 800) (run_with_retry policy uniform flaky).slept
    × (suc (length (run_with_retry policy uniform flaky).slept)
        ≡ (run_with_retry policy uniform flaky).calls)
run_with_retry_waits_example =
    run_with_retry_waits policy uniform flaky (λ n d. omega arith) (omega arith)

acquire_exclusive_example :
    let mine : LockLease = record { key = lock_key "acc"; owner_token = "a" } in
    let (s1, _) = acquire memory 30 "a" "acc" (λ k. none) 10 in
    let (s2, second) = acquire memory 30 "b" "acc" s1 50 in
    ((50 < 40) × (second ≡ none) × (s2 ≡ s1))
    ⊎ ((40 ≤ 50)
        × (second ≡ some (record { key = lock_key "acc"; owner_token = "b" }))
        × (release memory mine s2 60 ≡ (s2, false)))
acquire_exclusive_example =
    acquire_exclusive memory memory-IsRedis 30 (λ k. none) 10 50 60 "a" "b" "acc" refl
      (λ e. ground (arith, (eq_iff "a" "b").1 e)) (omega arith) (omega arith) (omega arith)

abbrev services : Services
services = record {
  clock = λ n. n;
  expired = λ n. false;
  owner_token = λ n. "token";
  get_accounts = λ n. ok (
      record {
        account_id = "acc";
        name = "main";
        status = "OPEN";
        account_type = "broker";
        opened_at = none;
      }
      ∷ []);
  get_portfolio = λ n account. ok (record {
    account_id = account;
    total_amount = rubles 100;
    expected_yield = from_int 0;
    positions = [];
    captured_at = 1;
  });
  get_trading_status = λ n uid. ok (record {
    instrument_uid = uid;
    api_trade_available = true;
    market_order_available = true;
    limit_order_available = true;
  });
  save_broker_state = λ n account portfolio sandbox. ok tt;
  run_signals = λ n. ok 4;
  create_plan = λ n. ok plan_one;
  plan_orders = λ n id. ok (order_in 5 PlannedOrderStatus.planned TradeMode.sandbox ∷ []);
  execute = λ n id. ok tt;
  execute_sandbox = λ n id. ok tt;
  uniform = uniform;
}

abbrev config : Config
config = record { retry = policy; lock_ttl_seconds = 60; preferred_account_id = none }

abbrev sandbox_settings : SystemSettings
sandbox_settings = record { trade_mode = TradeMode.sandbox; kill_switch = false }

abbrev fresh : Cycle memory
fresh = record {
  settings = some sandbox_settings;
  runs = [];
  audit = [];
  sent = [];
  redis = λ k. none;
  trace = [];
  next_id = 1;
  calls = 0;
}

abbrev request : AutomationCycleRequest
request = record {
  trigger = AutomationTrigger.manual;
  correlation_id = "c-1";
  actor = "admin";
  run_id = none;
}

run_allowed_example :
    all (is_allowed sandbox_settings) (run memory services config request fresh).1.trace ≡ true
run_allowed_example = run_allowed memory services config sandbox_settings request fresh refl refl

-- The first read of the broker takes too long.
abbrev late_services : Services
late_services = record services { expired = λ n. true }

run-Ends_example :
    let created =
      (create memory AutomationTrigger.manual "c-1" TradeMode.sandbox "admin" fresh).1 in
    ((row : AutomationRun) × (created.runs ≡ fresh.runs ++ row ∷ [])
      × (row.id ≡ 1)
      × (row.correlation_id ≡ "c-1")
      × (row.status ≡ AutomationRunStatus.pending))
    × RunEnds memory late_services config sandbox_settings 1
        (run_guarded memory late_services config 1 "admin" sandbox_settings created)
        (run memory late_services config request fresh)
run-Ends_example =
    run-Ends memory late_services config sandbox_settings request fresh refl refl refl
