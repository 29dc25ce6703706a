-- ===== src/Checks/Portfolio.antt =====
-- The theorems on app/portfolio at concrete inputs.
use auto_invest_manager.Base.{
  ℕ, ◌*◌, ◌≡◌, refl, true, false, none, some, List, [], ◌∷◌, map, All, keep, Result, ok, err, arith,
  String,
}
use auto_invest_manager.Base.Decimal.{Decimal, from_int, ◌+D◌, ◌-D◌, ◌*D◌, ◌≤D◌, max_decimal}
use auto_invest_manager.Portfolio.Dto.{
  AssetInput, OptimizationConstraints, OptimizationResult, TargetWeight, RebalanceResult,
}
use auto_invest_manager.Portfolio.Optimizer.{
  is_valid, optimize, distribute, first_slot, cap, fill, share, score_sum, distributed,
}
use auto_invest_manager.Portfolio.Optimizer.Shares.{IsLimit}
use auto_invest_manager.Portfolio.Optimizer.Outcome.{IsTarget, optimize_weights}
use auto_invest_manager.Portfolio.Planner.{
  plan, allocate, decide, sorted, insert, key_lt, bought, sold,
}
use auto_invest_manager.Portfolio.Planner.Cash.{IsPriced, IsSound}
use auto_invest_manager.Portfolio.Planner.Sorting.{InOrder, same_rank}
use auto_invest_manager.Portfolio.Planner.Spending.{payments, target_of, plan_allowed, plan_order}
use auto_invest_manager.Models.Enums.{SignalRecommendation}
use auto_invest_manager.Models.Entities.{Signal, RebalancePlan}
use auto_invest_manager.Checks.Data.{profile, watched, rubles}
use auto_invest_manager.Portfolio.Repository.{latest_signal, save_plan, target_rows}
use auto_invest_manager.Portfolio.Service.{
  optimize_and_plan, create_plan, plan_portfolio, resolve_account_id, assets_of, asset_of,
  current_lots_of,
}
use auto_invest_manager.Portfolio.Service.Reserve.{IsRow, optimize_and_plan_reserve}
use auto_invest_manager.Portfolio.Service.Creation.{IsMade, create_plan-IsMade}
use auto_invest_manager.Portfolio.Store.{Tables, Market}

abbrev percent : ℕ → Decimal
percent n = record { pos = n; neg = 0; den = 100 }

abbrev asset : String → ℕ → ℕ → AssetInput
asset uid score lots = record {
  instrument_uid = uid;
  signal_score = percent score;
  current_value = from_int (100 * lots);
  current_lots = from_int lots;
  price = from_int 100;
  lot_size = 1;
  buy_enabled = true;
  sell_enabled = true;
  max_weight = some (percent 50);
  manual_target_weight = none;
  priority = 1;
  cooldown_active = false;
}

abbrev assets : List AssetInput
assets = asset "A" 80 0 ∷ asset "B" 20 6 ∷ []

abbrev constraints : OptimizationConstraints
constraints = record {
  max_position_weight = percent 40;
  min_cash_weight = percent 10;
  rebalance_threshold = percent 1;
}

limit : IsLimit constraints
limit = record { position = omega arith; position_pos = omega arith; cash = omega arith }

asset-IsRow : (uid : String) (score lots : ℕ) → IsRow (asset uid score lots)
asset-IsRow uid score lots = record {
  asset = record {
    score = omega arith;
    score_nonneg = omega arith;
    max_weight = (omega arith, omega arith);
    manual = tt;
  };
  price = omega arith;
  value = omega arith;
}

rows : All IsRow assets
rows = (asset-IsRow "A" 80 0, (asset-IsRow "B" 20 6, tt))

abbrev or_else : {A : Type 0} → A → Result A → A
or_else a (ok b) = b
or_else a (err e) = a

abbrev optimized : OptimizationResult
optimized =
    or_else (record { targets = []; cash_weight = from_int 0 }) (optimize 4 assets constraints)

optimized_ok : optimize 4 assets constraints ≡ ok optimized
unfolding optimize is_valid distribute first_slot cap fill share score_sum distributed
optimized_ok = refl

optimize_weights_example :
    All (IsTarget constraints) optimized.targets
    × (constraints.min_cash_weight ≤D optimized.cash_weight)
    × (map (λ (t : TargetWeight). t.asset) optimized.targets ≡ assets)
optimize_weights_example =
    optimize_weights 4 assets constraints optimized limit (rows.0.asset, (rows.1.0.asset, tt))
      optimized_ok

abbrev targets : OptimizationResult
targets = record {
  targets =
      record { asset = asset "A" 80 0; weight = percent 40 }
      ∷ record { asset = asset "B" 20 6; weight = percent 40 }
      ∷ [];
  cash_weight = percent 20;
}

targets-IsPriced : All IsPriced targets.targets
targets-IsPriced = (
  record { weight = omega arith; value = omega arith; cost = omega arith; cost_pos = omega arith },
  (
    record {
      weight = omega arith;
      value = omega arith;
      cost = omega arith;
      cost_pos = omega arith;
    },
    tt,
  ),
)

abbrev planned : RebalanceResult
planned =
    or_else
      (record { allocations = []; target_cash_weight = from_int 0; unallocated_cash = from_int 0 })
      (plan targets constraints (from_int 1000) (from_int 400))

planned_ok : plan targets constraints (from_int 1000) (from_int 400) ≡ ok planned
unfolding plan allocate decide sorted insert key_lt bought sold
planned_ok = refl

plan_allowed_example : All (IsSound constraints (from_int 1000)) planned.allocations
plan_allowed_example =
    plan_allowed targets constraints (from_int 1000) (from_int 400) (omega arith) (omega arith)
      (omega arith) targets-IsPriced planned planned_ok

plan_order_example :
    InOrder (map target_of planned.allocations)
    × (keep
          (same_rank (record { asset = asset "A" 80 0; weight = percent 40 }))
          (map target_of planned.allocations)
        ≡ keep (same_rank (record { asset = asset "A" 80 0; weight = percent 40 })) targets.targets)
plan_order_example =
    plan_order targets constraints (from_int 1000) (from_int 400) (omega arith) (omega arith)
      (omega arith) targets-IsPriced planned
      (record { asset = asset "A" 80 0; weight = percent 40 }) (omega arith) planned_ok

abbrev rebalanced : RebalanceResult
rebalanced =
    or_else
      (record { allocations = []; target_cash_weight = from_int 0; unallocated_cash = from_int 0 })
      (optimize_and_plan 4 assets constraints (from_int 1000) (from_int 400))

rebalanced_ok :
    optimize_and_plan 4 assets constraints (from_int 1000) (from_int 400) ≡ ok rebalanced
unfolding optimize_and_plan optimize is_valid distribute first_slot cap fill share score_sum
    distributed plan allocate decide sorted insert key_lt bought sold
rebalanced_ok = refl

optimize_and_plan_reserve_example :
    ((payments rebalanced.allocations +D rebalanced.unallocated_cash)
      ≤D max_decimal (from_int 0) (from_int 400 -D from_int 1000 *D constraints.min_cash_weight))
    × (from_int 0 ≤D rebalanced.unallocated_cash)
    × All (IsTarget constraints) (map target_of rebalanced.allocations)
optimize_and_plan_reserve_example =
    optimize_and_plan_reserve 4 assets constraints (from_int 1000) (from_int 400) rebalanced limit
      rows (omega arith) (omega arith) rebalanced_ok

abbrev signal : Signal
signal = record {
  instrument_id = 7;
  timeframe = "1d";
  trend_score = percent 80;
  moving_average_score = percent 80;
  volatility_score = percent 80;
  volume_score = percent 80;
  drawdown_score = percent 80;
  final_score = percent 80;
  recommendation = SignalRecommendation.buy;
  price = from_int 100;
  reason = "trend";
  model_version = "baseline-v1";
  calculated_at = 5;
}

abbrev tables : Tables
tables = record {
  risk_profiles = profile ∷ [];
  watchlist = watched ∷ [];
  signals = signal ∷ [];
  plans = [];
  audit = [];
  sent = [];
  next_id = 10;
  calls = 0;
}

abbrev market : Market
market = record {
  get_accounts = λ n. ok [];
  get_portfolio = λ n a. ok (record {
    account_id = a;
    total_amount = rubles 1000;
    expected_yield = from_int 0;
    positions = [];
    captured_at = 5;
  });
  get_last_prices = λ n uids.
      ok (map (λ uid. record { instrument_uid = uid; price = from_int 100; time = 5 }) uids);
  tinvest_account_id = "acc";
  rounds = 4;
}

create_plan-IsMade_example :
    IsMade tables (create_plan market tables).0 (create_plan market tables).1
create_plan-IsMade_example = create_plan-IsMade market tables

created_plans : map (λ (p : RebalancePlan). p.id) (create_plan market tables).1.plans ≡ 10 ∷ []
unfolding create_plan plan_portfolio resolve_account_id assets_of asset_of latest_signal
    current_lots_of save_plan target_rows optimize_and_plan optimize is_valid distribute first_slot
    cap fill share score_sum distributed plan allocate decide sorted insert key_lt bought sold
created_plans = refl
