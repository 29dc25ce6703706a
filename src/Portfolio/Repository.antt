-- ===== src/Portfolio/Repository.antt =====
-- app/portfolio/repository.py. `save_plan` ends in a commit, so it is one change of the tables.
use auto_invest_manager.Base.{
  ℕ, suc, ◌+◌, ◌==◌, ltb, Option, none, some, List, [], ◌∷◌, ◌++◌, find, length, String,
  if◌then◌else◌, Result, ok, err, Error, Action, gets,
}
use auto_invest_manager.Base.Decimal.{Decimal}
use auto_invest_manager.Models.Enums.{RebalancePlanStatus}
use auto_invest_manager.Models.Entities.{
  RiskProfile, WatchlistItem, Signal, Instrument, RebalancePlan, TargetAllocation,
}
use auto_invest_manager.Models.Ordering.{by_priority}
use auto_invest_manager.Portfolio.Dto.{PlannedAllocation, RebalanceResult}
use auto_invest_manager.Portfolio.Store.{Tables}

abbrev pub get_risk_profile : Action Tables (Option RiskProfile)
get_risk_profile = gets λ s. find (λ r. r.is_active) s.risk_profiles

abbrev pub get_watchlist : Action Tables (List WatchlistItem)
get_watchlist = gets λ s. by_priority s.watchlist

-- The instrument's signal of the greatest `calculated_at`.
unfoldable pub latest_signal : ℕ → List Signal → Option Signal
latest_signal instrument_id [] = none
latest_signal instrument_id (s ∷ rest) =
    let later = latest_signal instrument_id rest in
    if s.instrument_id == instrument_id
    then elim later [
      | none ↦ some s
      | some t ↦ if ltb s.calculated_at t.calculated_at then some t else some s
    ]
    else later

-- `TargetAllocation(...)`
abbrev pub target_row : ℕ → PlannedAllocation → Instrument → TargetAllocation
target_row id a instrument = record {
  id = id;
  instrument_id = instrument.id;
  target_weight = a.target_weight;
  current_weight = a.current_weight;
  signal_score = a.asset.signal_score;
  target_amount = a.target_amount;
  delta_amount = a.delta_amount;
  action = a.action;
  recommended_lots = a.lots;
  reason = a.reason;
  instrument = instrument;
}

abbrev pub joined_row :
    TargetAllocation → Result (List TargetAllocation) → Result (List TargetAllocation)
joined_row a (ok rest) = ok (a ∷ rest)
joined_row a (err e) = err e

-- The loop of `save_plan`; the ids are counted from the first.
unfoldable pub target_rows :
    (String → Option Instrument) → ℕ → List PlannedAllocation → Result (List TargetAllocation)
target_rows instruments id [] = ok []
target_rows instruments id (a ∷ rest) = elim (instruments a.asset.instrument_uid) [
  | none ↦ err Error.key_error
  | some i ↦ joined_row (target_row id a i) (target_rows instruments (suc id) rest)
]

abbrev pub new_plan :
    ℕ → String → Decimal → Decimal → RebalanceResult → List TargetAllocation → RebalancePlan
new_plan id account_id value cash result allocations = record {
  id = id;
  source_account_id = account_id;
  status = RebalancePlanStatus.draft;
  portfolio_value = value;
  cash_available = cash;
  target_cash_weight = result.target_cash_weight;
  reason = "Long-only allocation from latest complete signals";
  allocations = allocations;
}

-- `session.add(plan)`, the audit record, whose subject is here the plan, and the commit.
abbrev pub add_plan : RebalancePlan → Tables → Tables
add_plan plan s = record s {
  plans = s.plans ++ plan ∷ [];
  audit =
      s.audit
      ++ record {
        event_type = "rebalance_plan.created";
        severity = "info";
        actor = "system";
        subject = plan.id;
      }
        ∷ [];
  next_id = s.next_id + suc (length plan.allocations);
}

unfoldable pub save_plan :
    String
    → Decimal
    → Decimal
    → RebalanceResult
    → (String → Option Instrument)
    → Action Tables RebalancePlan
save_plan account_id value cash result instruments s =
    elim (target_rows instruments (suc s.next_id) result.allocations) [
      | err e ↦ (err e, s)
      | ok rows ↦
          let plan = new_plan s.next_id account_id value cash result rows in
          (ok plan, add_plan plan s)
    ]
