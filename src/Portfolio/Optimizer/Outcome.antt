-- ===== src/Portfolio/Optimizer/Outcome.antt =====
-- The result of the optimizer: the weights stay within the caps and leave the cash.
use auto_invest_manager.Base.{
  ℕ, ◌≡◌, refl, ap, ◌∙◌, subst, Bool, true, false, List, [], ◌∷◌, map, All, arith, inl, inr,
  Bool-cases, Option-cases, ok, if◌then◌else◌,
}
use auto_invest_manager.Base.Decimal.{Decimal, from_int, ◌-D◌, ◌≤D◌, min_decimal}
use auto_invest_manager.Base.Decimal.Order.{
  IsFraction, mul-pos, le_trans_D, add_mono, add_sub_le, min-IsFraction, min-le_left, min-le_right,
  le-min,
}
use auto_invest_manager.Portfolio.Dto.{
  AssetInput, OptimizationConstraints, OptimizationResult, TargetWeight,
}
use auto_invest_manager.Portfolio.Optimizer.{
  Slot, weight_or, cap, first_slot, first_slots, first_remaining, manual_total, is_manual, is_valid,
  weight_sum, distribute, optimize, result_of,
}
use auto_invest_manager.Portfolio.Optimizer.Shares.{
  IsAsset, IsCapped, IsLimit, weight_or-IsFraction, cap-IsFraction,
}
use auto_invest_manager.Portfolio.Optimizer.Weights.{
  IsOpen, distribute-IsDone, weight_sum-IsFraction,
}

manual_weight : AssetInput → Decimal
manual_weight a = weight_or a.manual_target_weight (from_int 0)

module _ (c : OptimizationConstraints) (limit : IsLimit c) where
  first_slot-IsCapped :
      (a : AssetInput)
      → IsAsset a
      → IsCapped c (first_slot c a)
        × ((first_slot c a).weight ≤D weight_or a.manual_target_weight (from_int 0))
  unfolding first_slot
  first_slot-IsCapped a h =
      let w =
        weight_or-IsFraction a.manual_target_weight (from_int 0) h.manual (omega arith)
          (omega arith) in
      let k = cap-IsFraction c a limit h in
      let (mf, mn, ml, mr) =
        first (is_manual a) (weight_or a.manual_target_weight (from_int 0)) (cap c a) w.0 w.1 k.0
          k.1 in
      (record { asset = h; weight = mf; nonneg = mn; below = ml }, mr)
    where
      first :
          (b : Bool) (x k : Decimal)
          → IsFraction x
          → from_int 0 ≤D x
          → IsFraction k
          → from_int 0 ≤D k
          → IsFraction (if b then min_decimal x k else from_int 0)
            × (from_int 0 ≤D (if b then min_decimal x k else from_int 0))
            × ((if b then min_decimal x k else from_int 0) ≤D k)
            × ((if b then min_decimal x k else from_int 0) ≤D x)
      first true x k f p g q =
          (min-IsFraction x k f g, le-min x k (from_int 0) p q, min-le_right x k, min-le_left x k)
      first false x k f p g q = (omega arith, omega arith, q, p)

  first_slots-IsCapped :
      (assets : List AssetInput)
      → All IsAsset assets
      → All (IsCapped c) (first_slots c assets)
        × (weight_sum (first_slots c assets) ≤D manual_total assets)
        × (map (λ (s : Slot). s.asset) (first_slots c assets) ≡ assets)
  unfolding first_slot
  first_slots-IsCapped [] h = (tt, omega arith, refl)
  first_slots-IsCapped (a ∷ rest) (h, hs) =
      let (k, l) = first_slot-IsCapped a h in
      let (ks, ls, e) = first_slots-IsCapped rest hs in
      ((k, ks), add_mono _ _ _ _ l ls, ap (λ (t : List AssetInput). a ∷ t) e)

  pub first-IsOpen :
      (assets : List AssetInput)
      → All IsAsset assets
      → manual_total assets ≤D (from_int 1 -D c.min_cash_weight)
      → IsOpen c (from_int 1 -D c.min_cash_weight) (first_remaining c assets) (first_slots c assets)
  first-IsOpen assets h m =
      let (k, l, e) = first_slots-IsCapped assets h in
      let w = weight_sum (first_slots c assets) in
      let wf = weight_sum-IsFraction c (first_slots c assets) k in
      let i = from_int 1 -D c.min_cash_weight in
      let n : w ≤D i =
        le_trans_D w (manual_total assets) i (manual_total-IsFraction assets h) l m in
      record {
        capped = k;
        fraction = mul-pos _ _ (mul-pos 1 c.min_cash_weight.den (omega arith) limit.cash) wf;
        nonneg = omega (arith, n);
        total = add_sub_le i w;
      }
    where
      manual_total-IsFraction :
          (assets : List AssetInput) → All IsAsset assets → IsFraction (manual_total assets)
      manual_total-IsFraction [] h = omega arith
      manual_total-IsFraction (a ∷ rest) (h, hs) =
          mul-pos _ _
            (weight_or-IsFraction a.manual_target_weight (from_int 0) h.manual (omega arith)
              (omega arith)).0
            (manual_total-IsFraction rest hs)

  pub valid-IsOpen :
      (assets : List AssetInput)
      → All IsAsset assets
      → is_valid assets c ≡ true
      → IsOpen c (from_int 1 -D c.min_cash_weight) (first_remaining c assets) (first_slots c assets)
  unfolding is_valid
  valid-IsOpen assets h v = first-IsOpen assets h (ground arith)

-- A target weight of at least zero and at most the cap of its asset.
pub record IsTarget (c : OptimizationConstraints) (t : TargetWeight) : Type 0 where
  pub fraction : IsFraction t.weight
  pub nonneg : from_int 0 ≤D t.weight
  pub below : t.weight ≤D cap c t.asset

targets-IsTarget :
    (c : OptimizationConstraints) (slots : List Slot)
    → All (IsCapped c) slots
    → All (IsTarget c) (result_of slots).targets
targets-IsTarget c [] h = tt
targets-IsTarget c (s ∷ rest) (h, hs) =
    (record { fraction = h.weight; nonneg = h.nonneg; below = h.below }, targets-IsTarget c rest hs)

targets-assets :
    (slots : List Slot)
    → map (λ (t : TargetWeight). t.asset) (result_of slots).targets
      ≡ map (λ (s : Slot). s.asset) slots
targets-assets [] = refl
targets-assets (s ∷ rest) = ap (λ (l : List AssetInput). s.asset ∷ l) (targets-assets rest)

pub record IsOptimized (c : OptimizationConstraints) (assets : List AssetInput)
    (r : OptimizationResult) : Type 0 where
  pub targets : All (IsTarget c) r.targets
  pub cash : c.min_cash_weight ≤D r.cash_weight
  pub order : map (λ (t : TargetWeight). t.asset) r.targets ≡ assets
  pub fraction : IsFraction r.cash_weight
  pub valid : is_valid assets c ≡ true

pub optimize-IsOptimized :
    (rounds : ℕ) (assets : List AssetInput) (c : OptimizationConstraints) (r : OptimizationResult)
    → IsLimit c
    → All IsAsset assets
    → optimize rounds assets c ≡ ok r
    → IsOptimized c assets r
unfolding optimize
optimize-IsOptimized rounds assets c r limit h e = elim (Bool-cases (is_valid assets c)) [
  | inr p ↦ ground arith
  | inl p ↦
      elim (Option-cases (distribute c rounds (first_remaining c assets) (first_slots c assets))) [
        | inl q ↦ ground arith
        | inr (out, q) ↦
            let d =
              distribute-IsDone c limit (from_int 1 -D c.min_cash_weight) _ _ _ out
                (valid-IsOpen c limit assets h p) q in
            subst (λ (x : OptimizationResult). IsOptimized c assets x) {x = result_of out}
              (ground arith)
              (record {
                targets = targets-IsTarget c out d.capped;
                cash = omega (arith, d.total);
                order = targets-assets out ∙ d.assets ∙ (first_slots-IsCapped c limit assets h).2;
                fraction = mul-pos 1 _ (omega arith) (weight_sum-IsFraction c out d.capped);
                valid = p;
              })
      ]
]

-- An optimization that succeeds, after however many rounds, has a target for each asset, in their order, with a weight of at least
-- zero and at most the asset's cap, and leaves at least `min_cash_weight` for cash. The decimals of
-- the assets and the constraints have denominators other than zero, and the scores and optional
-- weights are at least zero.
pub optimize_weights :
    (rounds : ℕ) (assets : List AssetInput) (c : OptimizationConstraints) (r : OptimizationResult)
    → IsLimit c
    → All IsAsset assets
    → optimize rounds assets c ≡ ok r
    → All (IsTarget c) r.targets
      × (c.min_cash_weight ≤D r.cash_weight)
      × (map (λ (t : TargetWeight). t.asset) r.targets ≡ assets)
optimize_weights rounds assets c r limit h e =
    let k = optimize-IsOptimized rounds assets c r limit h e in (k.targets, k.cash, k.order)
