-- ===== src/Portfolio/Store.antt =====
-- The tables that app/portfolio reads and writes, and its surroundings: the broker
-- (app/broker/interface.py) and the configured account. Every call of the broker is numbered, so its
-- answers may change from call to call and may be errors.
use auto_invest_manager.Base.{ℕ, ◌+◌, List, [], ◌∷◌, ◌++◌, String, Result, Action, ok}
use auto_invest_manager.Models.Entities.{
  RiskProfile, WatchlistItem, Signal, RebalancePlan, AuditLog,
}
use auto_invest_manager.Execution.Dto.{PortfolioData, LastPriceData}
use auto_invest_manager.Automation.Store.{BrokerAccountData}

pub record Tables : Type 0 where
  pub risk_profiles : List RiskProfile
  pub watchlist : List WatchlistItem
  pub signals : List Signal
  pub plans : List RebalancePlan
  pub audit : List AuditLog
  -- titles of the notifications
  pub sent : List String
  pub next_id : ℕ
  -- calls of the broker so far
  pub calls : ℕ

pub record Market : Type 0 where
  pub get_accounts : ℕ → Result (List BrokerAccountData)
  pub get_portfolio : ℕ → String → Result PortfolioData
  pub get_last_prices : ℕ → List String → Result (List LastPriceData)
  pub tinvest_account_id : String
  -- how many rounds the loop of the optimizer may take
  pub rounds : ℕ

abbrev pub call : {A : Type 0} → (ℕ → Result A) → Action Tables A
call f s = (f s.calls, record s { calls = s.calls + 1 })

-- `notifier.send`: a failed delivery is logged and not raised.
abbrev pub notify : String → Action Tables (Unit {0})
notify title s = (ok tt, record s { sent = s.sent ++ title ∷ [] })
