-- ===== src/Automation/Store.antt =====
-- The tables that the automation cycle reads and writes, its lock and the calls it makes. The
-- broker, and the services of app/signals, app/portfolio and app/execution, are the interface
-- `Services`: every call is numbered and may fail. `expired n` says that `asyncio.timeout` ends the
-- cycle at call number n.
use auto_invest_manager.Base.{
  ℕ, ◌+◌, Bool, Option, List, [], ◌∷◌, ◌++◌, String, Result, ok, err, Error, Action, if◌then◌else◌,
}
use auto_invest_manager.Models.Enums.{AutomationTrigger, AutomationRunStatus}
use auto_invest_manager.Models.Entities.{
  SystemSettings, AutomationRun, AuditLog, RebalancePlan, PlannedOrder,
}
use auto_invest_manager.Execution.Dto.{PortfolioData, TradingStatusData}
use auto_invest_manager.Redis.{Redis}
use auto_invest_manager.Automation.Retry.{RetryPolicy, run_with_retry}

-- app/broker/dto.py
pub record BrokerAccountData : Type 0 where
  pub account_id : String
  pub name : String
  pub status : String
  pub account_type : String
  pub opened_at : Option ℕ

-- app/automation/dto.py
pub record AutomationCycleRequest : Type 0 where
  pub trigger : AutomationTrigger
  pub correlation_id : String
  pub actor : String
  pub run_id : Option ℕ

pub record AutomationCycleResult : Type 0 where
  pub run_id : ℕ
  pub status : AutomationRunStatus
  pub reason : Option String

-- A call that leaves the cycle.
pub data Call : Type 0 where
  get_accounts save_broker_state run_signals create_plan : Call
  get_portfolio : String → Call
  get_trading_status : String → Call
  plan_orders : ℕ → Call
  execute : ℕ → Call
  execute_sandbox : ℕ → Call

pub record Services : Type 0 where
  pub clock : ℕ → ℕ
  pub expired : ℕ → Bool
  -- `uuid4().hex`
  pub owner_token : ℕ → String
  pub get_accounts : ℕ → Result (List BrokerAccountData)
  pub get_portfolio : ℕ → String → Result PortfolioData
  pub get_trading_status : ℕ → String → Result TradingStatusData
  pub save_broker_state : ℕ → BrokerAccountData → PortfolioData → Bool → Result (Unit {0})
  -- how many signals were computed
  pub run_signals : ℕ → Result ℕ
  pub create_plan : ℕ → Result RebalancePlan
  pub plan_orders : ℕ → ℕ → Result (List PlannedOrder)
  pub execute : ℕ → ℕ → Result (Unit {0})
  pub execute_sandbox : ℕ → ℕ → Result (Unit {0})
  pub uniform : ℕ → ℕ → ℕ

pub record Config : Type 0 where
  pub retry : RetryPolicy
  pub lock_ttl_seconds : ℕ
  pub preferred_account_id : Option String

module _ (R : Redis) where
  pub record Cycle : Type 0 where
    pub settings : Option SystemSettings
    pub runs : List AutomationRun
    pub audit : List AuditLog
    -- titles of the notifications
    pub sent : List String
    pub redis : R.State
    pub trace : List Call
    pub next_id : ℕ
    pub calls : ℕ

  -- A call that is made, unless the time is over by then.
  abbrev pub call : {A : Type 0} → Services → Call → (ℕ → Result A) → Action Cycle A
  call services c f s = (
    if services.expired s.calls then err Error.timeout else f s.calls,
    record s { trace = s.trace ++ c ∷ []; calls = s.calls + 1 },
  )

  -- `self._retry.run`: the calls of one operation stand in the trace once.
  abbrev pub retrying :
      {A : Type 0} → Services → RetryPolicy → Call → (ℕ → Result A) → Action Cycle A
  retrying services policy c f s =
      let o = run_with_retry policy services.uniform (λ k. f (s.calls + k)) in
      (
        if services.expired s.calls then err Error.timeout else o.result,
        record s { trace = s.trace ++ c ∷ []; calls = s.calls + o.calls + 1 },
      )

  abbrev pub notify : String → Action Cycle (Unit {0})
  notify title s = (ok tt, record s { sent = s.sent ++ title ∷ [] })
