-- ===== src/Portfolio/Service/Reserve.antt =====
-- The optimizer and the planner together: a plan leaves the cash that the risk profile asks for.
use auto_invest_manager.Base.{
  ℕ, ◌+◌, ◌-◌, ◌<◌, ◌≡◌, sym, subst, Bool, true, ◌&&◌, List, [], ◌∷◌, map, All, all, arith, inl,
  inr, Result-cases, ok,
}
use auto_invest_manager.Base.Decimal.{Decimal, from_int, ◌+D◌, ◌-D◌, ◌*D◌, ◌≤D◌, max_decimal}
use auto_invest_manager.Base.Decimal.Order.{
  IsFraction, IsPositive, mul-pos, le_trans_D, max-IsFraction, mul_mono_left, rest_mono,
}
use auto_invest_manager.Portfolio.Dto.{
  AssetInput, OptimizationConstraints, OptimizationResult, TargetWeight, RebalanceResult,
}
use auto_invest_manager.Portfolio.Optimizer.{is_valid, is_valid_asset, optimize}
use auto_invest_manager.Portfolio.Optimizer.Shares.{IsAsset, IsLimit}
use auto_invest_manager.Portfolio.Optimizer.Outcome.{IsTarget, optimize-IsOptimized}
use auto_invest_manager.Portfolio.Planner.{plan, lot_cost}
use auto_invest_manager.Portfolio.Planner.Cash.{IsPriced}
use auto_invest_manager.Portfolio.Planner.Sorting.{All-sorted}
use auto_invest_manager.Portfolio.Planner.Spending.{
  payments, target_of, plan_ends, plan_spending, plan-IsPlan,
}
use auto_invest_manager.Portfolio.Service.{optimize_and_plan}

-- A row whose amounts are decimals.
pub record IsRow (a : AssetInput) : Type 0 where
  pub asset : IsAsset a
  pub price : IsFraction a.price
  pub value : IsFraction a.current_value

rows-IsAsset : (assets : List AssetInput) → All IsRow assets → All IsAsset assets
rows-IsAsset [] h = tt
rows-IsAsset (a ∷ rest) (h, hs) = (h.asset, rows-IsAsset rest hs)

cost-pos : (a : AssetInput) → is_valid_asset a ≡ true → IsPositive (lot_cost a)
cost-pos a h =
    let (p, l) = parts in
    let e : a.price.pos ≡ a.price.neg + (a.price.pos - a.price.neg) = omega arith in
    rw e (omega (arith, mul-pos (a.price.pos - a.price.neg) a.lot_size (omega arith) l))
  where
    parts : IsPositive a.price × (0 < a.lot_size)
    parts = ground arith

targets-IsPriced :
    (c : OptimizationConstraints) (targets : List TargetWeight) (assets : List AssetInput)
    → map (λ (t : TargetWeight). t.asset) targets ≡ assets
    → All (IsTarget c) targets
    → All IsRow assets
    → all is_valid_asset assets ≡ true
    → All IsPriced targets
targets-IsPriced c targets assets e h k v =
    priced targets h (subst (λ (l : List AssetInput). All IsRow l) (sym e) k)
      (subst (λ (l : List AssetInput). all is_valid_asset l ≡ true) (sym e) v)
  where
    priced :
        (targets : List TargetWeight)
        → All (IsTarget c) targets
        → All IsRow (map (λ (t : TargetWeight). t.asset) targets)
        → all is_valid_asset (map (λ (t : TargetWeight). t.asset) targets) ≡ true
        → All IsPriced targets
    priced [] h k v = tt
    priced (t ∷ rest) (h, hs) (k, ks) v =
        let (v, vs) =
          all-cons (is_valid_asset t.asset)
            (all is_valid_asset (map (λ (t : TargetWeight). t.asset) rest)) v in
        (
          record {
            weight = h.fraction;
            value = k.value;
            cost = mul-pos _ 1 k.price (omega arith);
            cost_pos = cost-pos t.asset v;
          },
          priced rest hs ks vs,
        )
      where
        all-cons : (a b : Bool) → (a && b) ≡ true → (a ≡ true) × (b ≡ true)
        all-cons a b h = ground arith

valid-all :
    (assets : List AssetInput) (c : OptimizationConstraints)
    → is_valid assets c ≡ true
    → all is_valid_asset assets ≡ true
unfolding is_valid
valid-all assets c h = ground arith

-- A plan that is made for assets, of a portfolio and its cash, keeps the targets within their caps, and
-- the cost of its purchases together with the unallocated cash within the cash less the share
-- `min_cash_weight` of the portfolio's value, or within nothing when that share is greater. The
-- decimals have denominators other than zero, and the scores and optional weights are at least zero.
pub optimize_and_plan_reserve :
    (rounds : ℕ) (assets : List AssetInput) (c : OptimizationConstraints) (value cash : Decimal)
    (r : RebalanceResult)
    → IsLimit c
    → All IsRow assets
    → IsFraction value
    → IsFraction cash
    → optimize_and_plan rounds assets c value cash ≡ ok r
    → ((payments r.allocations +D r.unallocated_cash)
        ≤D max_decimal (from_int 0) (cash -D value *D c.min_cash_weight))
      × (from_int 0 ≤D r.unallocated_cash)
      × All (IsTarget c) (map target_of r.allocations)
unfolding optimize_and_plan
optimize_and_plan_reserve rounds assets c value cash r limit h vf cf e =
    elim (Result-cases (optimize rounds assets c)) [
      | inr (x, p) ↦ ground arith
      | inl (o, p) ↦
          let k = optimize-IsOptimized rounds assets c o limit (rows-IsAsset assets h) p in
          let t =
            targets-IsPriced c o.targets assets k.order k.targets h (valid-all assets c k.valid) in
          let q : plan o c value cash ≡ ok r = ground arith in
          let (s, n) = plan_spending o c value cash vf cf k.fraction t r q in
          let served = (plan-IsPlan o c value cash vf cf k.fraction t r q).spent.served in
          let v : IsPositive value = positive o t k.fraction q in
          let m =
            rest_mono cash (value *D c.min_cash_weight) (value *D o.cash_weight) cf
              (mul-pos _ _ vf limit.cash)
              (mul_mono_left value c.min_cash_weight o.cash_weight v k.cash) in
          (
            le_trans_D (payments r.allocations +D r.unallocated_cash)
                (max_decimal (from_int 0) (cash -D value *D o.cash_weight)) _
                (max-IsFraction (from_int 0) (cash -D value *D o.cash_weight) (omega arith)
                  (mul-pos _ _ cf (mul-pos _ _ vf k.fraction)))
                s m,
            n,
            subst (λ (l : List TargetWeight). All (IsTarget c) l) (sym served)
                (All-sorted (IsTarget c) o.targets k.targets),
          )
    ]
  where
    positive :
        (o : OptimizationResult)
        → All IsPriced o.targets
        → IsFraction o.cash_weight
        → plan o c value cash ≡ ok r
        → IsPositive value
    positive o t f q = elim (plan_ends o c value cash vf cf f t) [
      | inl (p, x) ↦ p
      | inr (p, x) ↦ ground arith
    ]
