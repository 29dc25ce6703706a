-- ===== src/Execution/Store.antt =====
-- The tables that app/execution reads and writes, what it has sent, and its surroundings: the
-- broker (app/broker/interface.py), the clock and the configuration. Every call of the broker or
-- the clock is numbered, so its answers may change from call to call and may be errors.
use auto_invest_manager.Base.{ℕ, ◌+◌, Option, List, [], ◌∷◌, ◌++◌, String, Result, Action, ok}
use auto_invest_manager.Models.Entities.{
  SystemSettings, RiskProfile, WatchlistItem, RebalancePlan, PlannedOrder, VirtualTrade,
  ExecutionOrder, AuditLog,
}
use auto_invest_manager.Execution.Dto.{
  PortfolioData, LastPriceData, TradingStatusData, SandboxOrderRequest, SandboxOrderResult,
}

pub record Store : Type 0 where
  pub settings : Option SystemSettings
  pub risk_profiles : List RiskProfile
  pub watchlist : List WatchlistItem
  pub plans : List RebalancePlan
  pub orders : List PlannedOrder
  pub trades : List VirtualTrade
  pub executions : List ExecutionOrder
  pub audit : List AuditLog
  -- titles of the notifications
  pub sent : List String
  -- the orders that the broker has been asked to post
  pub posted : List SandboxOrderRequest
  pub next_id : ℕ
  -- calls of the broker and the clock so far
  pub calls : ℕ

pub record Environment : Type 0 where
  pub clock : ℕ → ℕ
  pub get_portfolio : ℕ → String → Result PortfolioData
  pub get_last_prices : ℕ → List String → Result (List LastPriceData)
  pub get_trading_status : ℕ → String → Result TradingStatusData
  pub post_sandbox_order : ℕ → SandboxOrderRequest → Result SandboxOrderResult
  pub broker_provider : String
  pub tinvest_target : String
  pub market_price_max_age_seconds : ℕ

-- A read of the broker or the clock.
abbrev pub call : {A : Type 0} → (ℕ → Result A) → Action Store A
call f s = (f s.calls, record s { calls = s.calls + 1 })

abbrev pub add_audit : String → String → String → ℕ → Store → Store
add_audit event_type severity actor subject s = record s {
  audit =
      s.audit
      ++ record { event_type = event_type; severity = severity; actor = actor; subject = subject }
        ∷ [];
}

-- `notifier.send`: a failed delivery is logged and not raised.
abbrev pub notify : String → Action Store (Unit {0})
notify title s = (ok tt, record s { sent = s.sent ++ title ∷ [] })
