-- ===== src/Portfolio/Optimizer.antt =====
-- app/portfolio/optimizer.py: target weights by signal score, within the caps. The uids of the
-- assets are checked to be unique, so the dict `weights` and the list `uncapped` are here one list
-- of slots, in the order of the assets: each has its weight, and says whether its asset is in
-- `uncapped`.
pub mod Shares
pub mod Weights
pub mod Rounds
pub mod Outcome
use auto_invest_manager.Base.{
  ℕ, zero, suc, ◌==◌, Bool, true, false, ◌&&◌, ◌||◌, not, Option, none, some, List, [], ◌∷◌, map,
  any, all, keep, length, String, str_eq, if◌then◌else◌, is_some, Result, ok, err, Error,
}
use auto_invest_manager.Base.Decimal.{
  Decimal, from_int, ◌+D◌, ◌-D◌, ◌*D◌, ◌/D◌, is_zero, lt_decimal, le_decimal, max_decimal,
  min_decimal, sum_decimal,
}
use auto_invest_manager.Portfolio.Dto.{
  AssetInput, OptimizationConstraints, OptimizationResult, TargetWeight,
}

-- `value or default` of an optional decimal: zero counts as absent.
abbrev pub weight_or : Option Decimal → Decimal → Decimal
weight_or none default = default
weight_or (some d) default = if is_zero d then default else d

unfoldable pub cap : OptimizationConstraints → AssetInput → Decimal
cap c asset = min_decimal c.max_position_weight (weight_or asset.max_weight (from_int 1))

pub record Slot : Type 0 where
  pub asset : AssetInput
  pub weight : Decimal
  pub uncapped : Bool

abbrev pub is_manual : AssetInput → Bool
is_manual asset = is_some asset.manual_target_weight

abbrev pub is_candidate : AssetInput → Bool
is_candidate asset =
    not (is_manual asset) && (asset.buy_enabled && lt_decimal (from_int 0) asset.signal_score)

-- The weight and the place of an asset before the first round.
unfoldable pub first_slot : OptimizationConstraints → AssetInput → Slot
first_slot c asset = record {
  asset = asset;
  weight =
      if is_manual asset
      then min_decimal (weight_or asset.manual_target_weight (from_int 0)) (cap c asset)
      else from_int 0;
  uncapped = is_candidate asset;
}

abbrev pub is_uncapped : Slot → Bool
is_uncapped s = s.uncapped

-- The sum of the scores in `uncapped`.
unfoldable pub score_sum : List Slot → Decimal
score_sum [] = from_int 0
score_sum (s ∷ rest) = if s.uncapped then s.asset.signal_score +D score_sum rest else score_sum rest

module _ (c : OptimizationConstraints) (remaining total : Decimal) where
  -- `allocated`
  unfoldable pub share : Slot → Decimal
  share s =
      min_decimal (remaining *D s.asset.signal_score /D total)
        (max_decimal (from_int 0) (cap c s.asset -D s.weight))

  -- One pass of the `for` loop over `uncapped`.
  unfoldable pub fill : Slot → Slot
  fill s =
      if s.uncapped
      then record s {
        weight = s.weight +D share s;
        uncapped = lt_decimal (s.weight +D share s) (cap c s.asset);
      }
      else s

  unfoldable pub distributed : List Slot → Decimal
  distributed [] = from_int 0
  distributed (s ∷ rest) = if s.uncapped then share s +D distributed rest else distributed rest

abbrev pub fill_all : OptimizationConstraints → Decimal → List Slot → List Slot
fill_all c remaining slots = map (fill c remaining (score_sum slots)) slots

abbrev pub round_total : OptimizationConstraints → Decimal → List Slot → Decimal
round_total c remaining slots = distributed c remaining (score_sum slots) slots

-- The `while` loop, when its condition is tested at most `fuel` times; `none` stands for a loop that
-- goes on. The code has no such bound.
unfoldable pub distribute : OptimizationConstraints → ℕ → Decimal → List Slot → Option (List Slot)
distribute c zero remaining slots = none
distribute c (suc fuel) remaining slots =
    let rest =
      distribute c fuel (remaining -D round_total c remaining slots) (fill_all c remaining slots) in
    if not (lt_decimal (from_int 0) remaining && any is_uncapped slots)
    then some slots
    else if le_decimal (score_sum slots) (from_int 0)
    then some slots
    else if le_decimal (round_total c remaining slots) (from_int 0)
    then some (fill_all c remaining slots)
    else rest

abbrev pub has_uid : String → AssetInput → Bool
has_uid uid asset = str_eq asset.instrument_uid uid

abbrev pub are_unique : List AssetInput → Bool
are_unique [] = true
are_unique (a ∷ rest) = not (any (has_uid a.instrument_uid) rest) && are_unique rest

abbrev pub is_negative : Decimal → Bool
is_negative d = lt_decimal d (from_int 0)

-- The tests of `_validate` on one asset.
abbrev pub is_valid_asset : AssetInput → Bool
is_valid_asset a =
    not (le_decimal a.price (from_int 0) || a.lot_size == 0)
    && (not (is_negative a.current_value || is_negative a.current_lots)
        && (le_decimal (from_int 0) a.signal_score && le_decimal a.signal_score (from_int 1)))

abbrev pub manual_total : List AssetInput → Decimal
manual_total assets = sum_decimal (map (λ a. weight_or a.manual_target_weight (from_int 0)) assets)

-- `_validate`; its errors are of one class.
unfoldable pub is_valid : List AssetInput → OptimizationConstraints → Bool
is_valid assets c =
    (le_decimal (from_int 0) c.min_cash_weight && le_decimal c.min_cash_weight (from_int 1))
    && ((lt_decimal (from_int 0) c.max_position_weight
          && le_decimal c.max_position_weight (from_int 1))
        && (are_unique assets
            && (all is_valid_asset assets
                && le_decimal (manual_total assets) (from_int 1 -D c.min_cash_weight))))

abbrev pub first_slots : OptimizationConstraints → List AssetInput → List Slot
first_slots c assets = map (first_slot c) assets

abbrev pub weight_sum : List Slot → Decimal
weight_sum slots = sum_decimal (map (λ s. s.weight) slots)

-- `investable - sum(weights.values())` before the loop
abbrev pub first_remaining : OptimizationConstraints → List AssetInput → Decimal
first_remaining c assets = (from_int 1 -D c.min_cash_weight) -D weight_sum (first_slots c assets)

abbrev pub result_of : List Slot → OptimizationResult
result_of slots = record {
  targets = map (λ s. record { asset = s.asset; weight = s.weight }) slots;
  cash_weight = from_int 1 -D weight_sum slots;
}

abbrev pub finished : Option (List Slot) → Result OptimizationResult
finished none = err Error.runtime
finished (some slots) = ok (result_of slots)

-- `PortfolioOptimizer.optimize`, when the tests of its loop are at most `rounds`.
unfoldable pub optimize : ℕ → List AssetInput → OptimizationConstraints → Result OptimizationResult
optimize rounds assets c =
    if is_valid assets c
    then finished (distribute c rounds (first_remaining c assets) (first_slots c assets))
    else err Error.portfolio_optimization
