-- ===== src/Portfolio/Optimizer/Rounds.antt =====
-- The loop of the optimizer on exact fractions: a round fills a slot up to its cap, or gives out all
-- that is left.
use auto_invest_manager.Base.{
  ℕ, zero, suc, ◌+◌, ◌<◌, ◌≤◌, ◌≡◌, refl, ap, Bool, true, false, ◌&&◌, not, Option, some, List, [],
  ◌∷◌, map, All, any, arith, inl, inr, ◌⊎◌, Bool-cases, Option-cases, length, ok, err, Error,
  if◌then◌else◌, is_some,
}
use auto_invest_manager.Base.Decimal.{
  Decimal, from_int, ◌+D◌, ◌-D◌, ◌*D◌, ◌/D◌, ◌≤D◌, min_decimal, max_decimal, lt_decimal, le_decimal,
}
use auto_invest_manager.Base.Decimal.Order.{
  IsFraction, IsPositive, mul-pos, le_trans_D, le_refl_D, add_mono, le_add_sub, le-div-mul,
  le_mul_add, mul_cancel, le-max_right,
}
use auto_invest_manager.Portfolio.Dto.{AssetInput, OptimizationConstraints, OptimizationResult}
use auto_invest_manager.Portfolio.Optimizer.{
  Slot, cap, share, fill, fill_all, round_total, distributed, score_sum, is_uncapped, first_slots,
  first_remaining, is_valid, distribute, optimize, result_of,
}
use auto_invest_manager.Portfolio.Optimizer.Shares.{IsAsset, IsCapped, IsLimit, cap-IsFraction}
use auto_invest_manager.Portfolio.Optimizer.Weights.{IsOpen, next-IsOpen, score_sum-IsFraction}
use auto_invest_manager.Portfolio.Optimizer.Outcome.{valid-IsOpen}

-- How many slots are in `uncapped`.
unfoldable open_count : List Slot → ℕ
open_count [] = 0
open_count (s ∷ rest) = (if s.uncapped then 1 else 0) + open_count rest

open_count-length : (slots : List Slot) → open_count slots ≤ length slots
unfolding open_count
open_count-length [] = omega arith
open_count-length (s ∷ rest) = ground (arith, open_count-length rest)

-- A share that leaves its slot below the cap is the proposed one.
open-share :
    (p w k : Decimal)
    → IsFraction k
    → IsFraction w
    → lt_decimal (w +D min_decimal p (max_decimal (from_int 0) (k -D w))) k ≡ true
    → min_decimal p (max_decimal (from_int 0) (k -D w)) ≡ p
open-share p w k kf wf h = elim (Bool-cases (lt_decimal (max_decimal (from_int 0) (k -D w)) p)) [
  | inr q ↦ ground arith
  | inl q ↦
      let m = max_decimal (from_int 0) (k -D w) in
      let l : k ≤D (w +D m) =
        le_trans_D k (w +D (k -D w)) (w +D m) (mul-pos _ _ wf (mul-pos _ _ kf wf)) (le_add_sub k w)
          (add_mono w w (k -D w) m (le_refl_D w) (le-max_right (from_int 0) (k -D w))) in
      full m q l h
]
  where
    full :
        (m : Decimal)
        → lt_decimal m p ≡ true
        → k ≤D (w +D m)
        → lt_decimal (w +D min_decimal p m) k ≡ true
        → min_decimal p m ≡ p
    full m q l g = ground arith

module _ (c : OptimizationConstraints) (remaining total : Decimal) (limit : IsLimit c)
    (tp : IsPositive total) where
  open-share_lem :
      (s : Slot)
      → IsCapped c s
      → lt_decimal (s.weight +D share c remaining total s) (cap c s.asset) ≡ true
      → (remaining *D s.asset.signal_score) ≤D (share c remaining total s *D total)
  unfolding share
  open-share_lem s h e =
      rw
        (open-share (remaining *D s.asset.signal_score /D total) s.weight (cap c s.asset)
          (cap-IsFraction c s.asset limit h.asset).0 h.weight e)
        (le-div-mul (remaining *D s.asset.signal_score) total tp)

  -- A round closes a slot, or gives out all that is left.
  round-cases :
      (slots : List Slot)
      → All (IsCapped c) slots
      → (open_count (map (fill c remaining total) slots) ≤ open_count slots)
        × ((open_count (map (fill c remaining total) slots) < open_count slots)
            ⊎ ((remaining *D score_sum slots) ≤D (distributed c remaining total slots *D total)))
  unfolding fill open_count score_sum distributed
  round-cases [] h = (omega arith, inr (omega arith))
  round-cases (s ∷ rest) (h, hs) =
      let (l, ih) = round-cases rest hs in
      step s.uncapped (lt_decimal (s.weight +D share c remaining total s) (cap c s.asset))
        (open-share_lem s h) l ih
    where
      step :
          (u o : Bool)
          → (o ≡ true → (remaining *D s.asset.signal_score) ≤D (share c remaining total s *D total))
          → (open_count (map (fill c remaining total) rest) ≤ open_count rest)
          → ((open_count (map (fill c remaining total) rest) < open_count rest)
              ⊎ ((remaining *D score_sum rest) ≤D (distributed c remaining total rest *D total)))
          → ((if (if u
                    then record s { weight = s.weight +D share c remaining total s; uncapped = o }
                    else record s { uncapped = u }).uncapped
                  then 1
                  else 0)
                + open_count (map (fill c remaining total) rest)
              ≤ (if u then 1 else 0) + open_count rest)
            × (((if (if u
                        then record s {
                          weight = s.weight +D share c remaining total s;
                          uncapped = o;
                        }
                        else record s { uncapped = u }).uncapped
                      then 1
                      else 0)
                    + open_count (map (fill c remaining total) rest)
                  < (if u then 1 else 0) + open_count rest)
                ⊎ ((remaining
                      *D (if u then s.asset.signal_score +D score_sum rest else score_sum rest))
                    ≤D ((if u
                          then share c remaining total s +D distributed c remaining total rest
                          else distributed c remaining total rest)
                        *D total)))
      step true true p l (inl q) = (omega arith, inl (omega arith))
      step true true p l (inr q) = (
        omega arith,
        inr (le_mul_add _ _ total remaining s.asset.signal_score (score_sum rest) (p refl) q),
      )
      step true false p l q = (omega arith, inl (omega arith))
      step false o p l (inl q) = (omega arith, inl (omega arith))
      step false o p l (inr q) = (omega arith, inr q)

loop-is_some :
    (a b d : Bool) (x y : List Slot) (r : Option (List Slot))
    → (b ≡ false → is_some r ≡ true)
    → is_some (if not a then some x else if b then some x else if d then some y else r) ≡ true
loop-is_some false b d x y r h = refl
loop-is_some true true d x y r h = refl
loop-is_some true false true x y r h = refl
loop-is_some true false false x y r h = h refl

spent-is_some :
    (c : OptimizationConstraints) (fuel : ℕ) (remaining : Decimal) (slots : List Slot)
    → 0 < fuel
    → lt_decimal (from_int 0) remaining ≡ false
    → is_some (distribute c fuel remaining slots) ≡ true
unfolding distribute
spent-is_some c zero remaining slots h e = ground arith
spent-is_some c (suc fuel) remaining slots h e = ground arith

module _ (c : OptimizationConstraints) (limit : IsLimit c) (investable : Decimal) where
  -- Fuel for one round more than there are open slots is enough.
  distribute-is_some :
      (fuel : ℕ) (remaining : Decimal) (slots : List Slot)
      → IsOpen c investable remaining slots
      → suc (open_count slots) < fuel
      → is_some (distribute c fuel remaining slots) ≡ true
  unfolding distribute
  distribute-is_some zero remaining slots h l = ground arith
  distribute-is_some (suc fuel) remaining slots h l =
      loop-is_some (lt_decimal (from_int 0) remaining && any is_uncapped slots)
        (le_decimal (score_sum slots) (from_int 0))
        (le_decimal (round_total c remaining slots) (from_int 0)) slots (fill_all c remaining slots)
        _
        (λ b.
          let p : IsPositive (score_sum slots) = ground arith in
          let f = score_sum-IsFraction c limit investable slots h.capped in
          let (k, e) = round-cases c remaining (score_sum slots) limit p slots h.capped in
          elim e [
            | inl q ↦
                distribute-is_some fuel _ _ (next-IsOpen c limit investable remaining slots h f p)
                  (omega (arith, q, l))
            | inr q ↦
                let m =
                  mul_cancel remaining (round_total c remaining slots) (score_sum slots) p f q in
                spent-is_some c fuel _ _ (omega (arith, l)) (ground (arith, m))
          ])

length-first_slots :
    (c : OptimizationConstraints) (assets : List AssetInput)
    → length (first_slots c assets) ≡ length assets
length-first_slots c [] = refl
length-first_slots c (a ∷ rest) = ap suc (length-first_slots c rest)

-- On exact fractions the loop of the optimizer stops within as many rounds as there are assets and two more
-- for a valid input, and a result is returned; on any other input PortfolioOptimizationError is raised.
-- With Python's 28 digits the loop may go on for many more rounds with what the rounding leaves. The
-- decimals of the assets and the constraints have denominators other than zero, and the scores and
-- optional weights are at least zero.
pub optimize_ends :
    (assets : List AssetInput) (c : OptimizationConstraints)
    → IsLimit c
    → All IsAsset assets
    → ((is_valid assets c ≡ true)
        × ((r : OptimizationResult) × (optimize (suc (suc (length assets))) assets c ≡ ok r)))
      ⊎ ((is_valid assets c ≡ false)
          × (optimize (suc (suc (length assets))) assets c ≡ err Error.portfolio_optimization))
unfolding optimize
optimize_ends assets c limit h = elim (Bool-cases (is_valid assets c)) [
  | inr p ↦ inr (p, ground arith)
  | inl p ↦
      let o = valid-IsOpen c limit assets h p in
      let b : suc (open_count (first_slots c assets)) < suc (suc (length assets)) =
        omega (arith, open_count-length (first_slots c assets), length-first_slots c assets) in
      let e =
        distribute-is_some c limit (from_int 1 -D c.min_cash_weight) (suc (suc (length assets)))
          (first_remaining c assets) (first_slots c assets) o b in
      elim (Option-cases (
        distribute c (suc (suc (length assets))) (first_remaining c assets)
          (first_slots c assets))) [
            | inl q ↦ ground arith
            | inr (out, q) ↦ inl (p, (result_of out, ground arith))
          ]
]
