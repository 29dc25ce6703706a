-- ===== src/Portfolio/Service.antt =====
-- app/portfolio/service.py: a plan from the watchlist, the latest signals and the broker's portfolio.
pub mod Reserve
pub mod Creation
use auto_invest_manager.Base.{
  ℕ, ◌+◌, ◌-◌, ◌==◌, Bool, true, false, Option, none, some, List, [], ◌∷◌, map, keep, length,
  String, str_eq, if◌then◌else◌, Result, ok, err, Error, Action, pure, raise, gets, or_raise, lift,
  raise_if, ◌>>=◌, ◌>>◌,
}
use auto_invest_manager.Base.Decimal.{
  Decimal, from_int, ◌-D◌, ◌/D◌, is_neg, ceil_div, truncate, le_decimal, max_decimal, sum_decimal,
}
use auto_invest_manager.Models.Entities.{
  WatchlistItem, Signal, Instrument, RiskProfile, RebalancePlan,
}
use auto_invest_manager.Execution.Dto.{PortfolioData, PositionData, LastPriceData}
use auto_invest_manager.Execution.Context.{value_of}
use auto_invest_manager.Execution.Repository.{find_last}
use auto_invest_manager.Automation.Store.{BrokerAccountData}
use auto_invest_manager.Portfolio.Dto.{
  AssetInput, OptimizationConstraints, OptimizationResult, RebalanceResult,
}
use auto_invest_manager.Portfolio.Optimizer.{optimize}
use auto_invest_manager.Portfolio.Planner.{plan}
use auto_invest_manager.Portfolio.Store.{Tables, Market, call, notify}
use auto_invest_manager.Portfolio.Repository.{
  get_risk_profile, get_watchlist, latest_signal, save_plan,
}

-- `to_integral_value(rounding=ROUND_FLOOR)`
unfoldable pub floor_decimal : Decimal → Decimal
floor_decimal a =
    if is_neg a
    then record { pos = 0; neg = ceil_div (a.neg - a.pos) a.den; den = 1 }
    else from_int (truncate a)

-- `current_lots`
unfoldable pub current_lots_of : Option PositionData → ℕ → Result Decimal
current_lots_of none lot = ok (from_int 0)
current_lots_of (some p) lot =
    if lot == 0 then err Error.division_by_zero else ok (floor_decimal (p.quantity /D from_int lot))

abbrev pub eligible_score : WatchlistItem → Signal → Decimal
eligible_score item signal =
    if le_decimal item.min_signal_score signal.final_score then signal.final_score else from_int 0

-- `AssetInput(...)`, without a cooldown
abbrev pub new_asset :
    WatchlistItem → Signal → Option PositionData → Decimal → LastPriceData → AssetInput
new_asset item signal position lots price = record {
  instrument_uid = item.instrument.instrument_uid;
  signal_score = eligible_score item signal;
  current_value = value_of position;
  current_lots = lots;
  price = price.price;
  lot_size = item.instrument.lot;
  buy_enabled = item.buy_enabled;
  sell_enabled = item.sell_enabled;
  max_weight = item.max_weight;
  manual_target_weight = item.manual_target_weight;
  priority = item.priority;
  cooldown_active = false;
}

module _ (signals : List Signal) (positions : List PositionData) (prices : List LastPriceData) where
  -- `positions.get(uid)`
  abbrev pub dict_position : String → Option PositionData
  dict_position uid = find_last (λ p. str_eq p.instrument_uid uid) positions

  -- `prices[uid]`
  abbrev pub dict_price : String → Option LastPriceData
  dict_price uid = find_last (λ p. str_eq p.instrument_uid uid) prices

  abbrev pub priced_asset :
      WatchlistItem → Signal → Option LastPriceData → Result Decimal → Result AssetInput
  priced_asset item signal price (err e) = err e
  priced_asset item signal none (ok lots) = err Error.key_error
  priced_asset item signal (some p) (ok lots) =
      ok (new_asset item signal (dict_position item.instrument.instrument_uid) lots p)

  -- The body of the loop over the watchlist.
  unfoldable pub asset_of : WatchlistItem → Result AssetInput
  asset_of item = elim (latest_signal item.instrument.id signals) [
    | none ↦ err Error.resource_not_found
    | some signal ↦
        priced_asset item signal (dict_price item.instrument.instrument_uid)
          (current_lots_of (dict_position item.instrument.instrument_uid) item.instrument.lot)
  ]

  abbrev pub joined_asset : Result AssetInput → Result (List AssetInput) → Result (List AssetInput)
  joined_asset (err e) rest = err e
  joined_asset (ok a) (err e) = err e
  joined_asset (ok a) (ok rest) = ok (a ∷ rest)

  unfoldable pub assets_of : List WatchlistItem → Result (List AssetInput)
  assets_of [] = ok []
  assets_of (item ∷ rest) = joined_asset (asset_of item) (assets_of rest)

-- `positions_value`: what the positions of the watchlist are worth.
abbrev pub held_value : List AssetInput → Decimal
held_value assets = sum_decimal (map (λ a. a.current_value) assets)

abbrev pub constraints_of : RiskProfile → OptimizationConstraints
constraints_of risk = record {
  max_position_weight = risk.max_position_weight;
  min_cash_weight = risk.min_cash_weight;
  rebalance_threshold = risk.rebalance_threshold_percent;
}

abbrev pub then_plan :
    OptimizationConstraints → Decimal → Decimal → Result OptimizationResult → Result RebalanceResult
then_plan c value cash (ok o) = plan o c value cash
then_plan c value cash (err e) = err e

-- The calls of the optimizer and the planner.
unfoldable pub optimize_and_plan :
    ℕ → List AssetInput → OptimizationConstraints → (value cash : Decimal) → Result RebalanceResult
optimize_and_plan rounds assets c value cash = then_plan c value cash (optimize rounds assets c)

abbrev pub free_cash : Decimal → List AssetInput → Decimal
free_cash value assets = max_decimal (from_int 0) (value -D held_value assets)

-- `instrument_map`
abbrev pub instrument_map : List WatchlistItem → String → Option Instrument
instrument_map items uid =
    find_last (λ i. str_eq i.instrument_uid uid) (map (λ w. w.instrument) items)

unfoldable pub only_account : List BrokerAccountData → Result String
only_account (a ∷ []) = ok a.account_id
only_account [] = err Error.value_error
only_account (a ∷ b ∷ rest) = err Error.value_error

module _ (market : Market) where
  -- `_resolve_account_id`
  unfoldable pub resolve_account_id : Action Tables String
  resolve_account_id =
      if str_eq market.tinvest_account_id ""
      then (call market.get_accounts >>= λ accounts. lift (only_account accounts))
      else pure market.tinvest_account_id

  -- From the portfolio's value on.
  unfoldable pub plan_portfolio :
      String → RiskProfile → List WatchlistItem → PortfolioData → Action Tables RebalancePlan
  plan_portfolio account_id risk watchlist portfolio = do
    raise_if (le_decimal portfolio.total_amount.amount (from_int 0)) Error.value_error
    prices ← call (λ n. market.get_last_prices n (map (λ w. w.instrument.instrument_uid) watchlist))
    signals ← gets (λ s. s.signals)
    assets ← lift (assets_of signals portfolio.positions prices watchlist)
    result ← lift (
        optimize_and_plan market.rounds assets (constraints_of risk) portfolio.total_amount.amount
          (free_cash portfolio.total_amount.amount assets))
    created ←
        save_plan account_id portfolio.total_amount.amount
          (free_cash portfolio.total_amount.amount assets) result (instrument_map watchlist)
    notify "План ребалансировки создан"
    pure created

  abbrev pub is_empty : List WatchlistItem → Bool
  is_empty [] = true
  is_empty (item ∷ rest) = false

  -- `RebalanceService.create_plan`
  unfoldable pub create_plan : Action Tables RebalancePlan
  create_plan = do
    profile ← get_risk_profile
    risk ← or_raise profile Error.resource_not_found
    watchlist ← get_watchlist
    raise_if (is_empty watchlist) Error.resource_not_found
    account_id ← resolve_account_id
    portfolio ← call (λ n. market.get_portfolio n account_id)
    plan_portfolio account_id risk watchlist portfolio
