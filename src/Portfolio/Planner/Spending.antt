-- ===== src/Portfolio/Planner/Spending.antt =====
-- The whole plan: the cash that it spends, its allocations and their order.
use auto_invest_manager.Base.{
  ◌*◌, ◌≤◌, ◌≡◌, refl, ap, sym, ◌∙◌, subst, List, [], ◌∷◌, map, All, keep, arith, inl, inr, ◌⊎◌,
  Bool-cases, ok, err, Error,
}
use native.Mathlib.Nat.{mul-le-mul_right, le_of_mul-le-mul_right}
use auto_invest_manager.Base.Decimal.{
  Decimal, from_int, ◌+D◌, ◌-D◌, ◌*D◌, ◌/D◌, ◌≤D◌, abs, max_decimal, le_decimal, sum_decimal,
}
use auto_invest_manager.Base.Decimal.Order.{
  IsFraction, IsPositive, mul-pos, max-IsFraction, le-max_left,
}
use auto_invest_manager.Portfolio.Dto.{
  OptimizationConstraints, OptimizationResult, TargetWeight, PlannedAllocation, RebalanceResult,
}
use auto_invest_manager.Portfolio.Planner.{
  Decision, decide, delta_of, allocation_of, allocate, spendable, sorted, plan,
}
use auto_invest_manager.Portfolio.Planner.Cash.{IsPriced, IsSound, payment, decide-ends}
use auto_invest_manager.Portfolio.Planner.Sorting.{
  InOrder, same_rank, HasFraction, All-sorted, sorted-InOrder, sorted-keep_rank,
}

abbrev pub payments : List PlannedAllocation → Decimal
payments allocations = sum_decimal (map payment allocations)

-- The target that an allocation is for.
abbrev pub target_of : PlannedAllocation → TargetWeight
target_of a = record { asset = a.asset; weight = a.target_weight }

pub record IsSpent (c : OptimizationConstraints) (value cash : Decimal)
    (targets : List TargetWeight) (allocations : List PlannedAllocation) (left : Decimal)
    : Type 0 where
  pub sound : All (IsSound c value) allocations
  pub fraction : IsFraction left
  pub nonneg : from_int 0 ≤D left
  pub paid : (payments allocations +D left) ≤D cash
  pub served : map target_of allocations ≡ targets

paid-next :
    (p s l d c : Decimal) → IsFraction d → (s +D l) ≤D d → (p +D d) ≤D c → ((p +D s) +D l) ≤D c
paid-next p s l d c f h k =
    le_of_mul-le-mul_right {k = d.den}
      (omega (arith, mul-le-mul_right (p.den * c.den) h, mul-le-mul_right (s.den * l.den) k)) f

module _ (c : OptimizationConstraints) (value : Decimal) (vf : IsFraction value) where
  allocate-cons :
      (t : TargetWeight) (rest : List TargetWeight) (cash : Decimal) (d : Decision)
      (allocations : List PlannedAllocation) (left : Decimal)
      → decide c t.asset (delta_of value t) (abs (delta_of value t) /D value) cash ≡ ok d
      → allocate c value d.spendable_cash rest ≡ ok (allocations, left)
      → allocate c value cash (t ∷ rest) ≡ ok (allocation_of value t d ∷ allocations, left)
  unfolding allocate
  allocate-cons t rest cash d allocations left e k = ground (arith, e, k)

  -- The loop ends with the cash that is left.
  allocate-ends :
      (targets : List TargetWeight) (cash : Decimal)
      → All IsPriced targets
      → IsFraction cash
      → from_int 0 ≤D cash
      → (allocations : List PlannedAllocation) × ((left : Decimal) × ((allocate c value cash targets
              ≡ ok (allocations, left))
            × IsSpent c value cash targets allocations left))
  unfolding allocate
  allocate-ends [] cash h cf cn = (
    [],
    (
      cash,
      (refl, record { sound = tt; fraction = cf; nonneg = cn; paid = omega arith; served = refl }),
    ),
  )
  allocate-ends (t ∷ rest) cash (h, hs) cf cn =
      let (d, e, s) = decide-ends c value t cash vf h cf cn in
      let (allocations, (left, (e', k))) =
        allocate-ends rest d.spendable_cash hs s.fraction s.nonneg in
      (
        allocation_of value t d ∷ allocations,
        (
          left,
          (
            allocate-cons t rest cash d allocations left e e',
            record {
              sound = (s.allowed, k.sound);
              fraction = k.fraction;
              nonneg = k.nonneg;
              paid =
                  paid-next (payment (allocation_of value t d)) (payments allocations) left
                    d.spendable_cash cash s.fraction k.paid s.paid;
              served = ap (λ (l : List TargetWeight). t ∷ l) k.served;
            },
          ),
        ),
      )

module _ (o : OptimizationResult) (c : OptimizationConstraints) (value cash : Decimal)
    (vf : IsFraction value) (cf : IsFraction cash) (wf : IsFraction o.cash_weight)
    (h : All IsPriced o.targets) where
  -- A plan of a portfolio of a positive value.
  pub record IsPlan (r : RebalanceResult) : Type 0 where
    pub spent :
        IsSpent c value (spendable o value cash) (sorted o.targets) r.allocations r.unallocated_cash
    pub weight : r.target_cash_weight ≡ o.cash_weight

  plan_returns :
      IsPositive value → (r : RebalanceResult) × ((plan o c value cash ≡ ok r) × IsPlan r)
  unfolding plan
  plan_returns p =
      let sf =
        max-IsFraction (from_int 0) (cash -D value *D o.cash_weight) (omega arith)
          (mul-pos _ _ cf (mul-pos _ _ vf wf)) in
      let (allocations, (left, (e, s))) =
        allocate-ends c value vf (sorted o.targets) (spendable o value cash)
          (All-sorted IsPriced o.targets h) sf
          (le-max_left (from_int 0) (cash -D value *D o.cash_weight)) in
      (
        record {
          allocations = allocations;
          target_cash_weight = o.cash_weight;
          unallocated_cash = left;
        },
        (ground (arith, p, e), record { spent = s; weight = refl }),
      )

  -- The planner raises PortfolioOptimizationError exactly when the value of the portfolio is not positive,
  -- and otherwise returns a plan. The decimals have denominators other than zero and a lot of
  -- each asset costs something.
  pub plan_ends :
      (IsPositive value × ((r : RebalanceResult) × (plan o c value cash ≡ ok r)))
      ⊎ ((value.pos ≤ value.neg) × (plan o c value cash ≡ err Error.portfolio_optimization))
  unfolding plan
  plan_ends = elim (Bool-cases (le_decimal value (from_int 0))) [
    | inl p ↦ inr (ground arith, ground arith)
    | inr p ↦
        let q : IsPositive value = ground arith in
        let (r, (e, k)) = plan_returns q in inl (q, (r, e))
  ]

  pub plan-IsPlan : (r : RebalanceResult) → plan o c value cash ≡ ok r → IsPlan r
  unfolding plan
  plan-IsPlan r e = elim (Bool-cases (le_decimal value (from_int 0))) [
    | inl p ↦ ground arith
    | inr p ↦
        let (r', (e', k)) = plan_returns (ground arith) in
        let q : r' ≡ r = ok-injective (sym e' ∙ e) in subst (λ (x : RebalanceResult). IsPlan x) q k
  ]
    where
      ok-injective : {x y : RebalanceResult} → ok x ≡ ok y → x ≡ y
      ok-injective p = cc

  -- What the purchases of a plan cost, together with the cash that the plan reports as unallocated, is
  -- at most the available cash less the share of the portfolio that stays in cash (at most nothing when
  -- that share is greater than the cash), and the unallocated cash is not negative. The decimals have denominators other than zero and a lot of each asset costs something.
  pub plan_spending :
      (r : RebalanceResult)
      → plan o c value cash ≡ ok r
      → ((payments r.allocations +D r.unallocated_cash)
          ≤D max_decimal (from_int 0) (cash -D value *D o.cash_weight))
        × (from_int 0 ≤D r.unallocated_cash)
  plan_spending r e = let k = plan-IsPlan r e in (k.spent.paid, k.spent.nonneg)

  -- Each allocation of a plan is allowed: a purchase is of an asset that may be bought and is not in its
  -- cooldown, for a change of weight of at least the threshold, of at least one lot, and costs at
  -- most the delta; a sale is of an asset that may be sold, with the same conditions, of at most the lots
  -- held; and an asset that is held has no lots. The decimals have denominators other than zero and a lot of each asset costs
  -- something.
  pub plan_allowed :
      (r : RebalanceResult) → plan o c value cash ≡ ok r → All (IsSound c value) r.allocations
  plan_allowed r e = (plan-IsPlan r e).spent.sound

  -- A plan serves the targets in a stable order: a target is followed by those of a
  -- lower priority, or of the same one and no greater weight, and the targets of one priority and weight are those of the optimization, in the same order.
  -- The decimals have denominators other than zero and a lot of each asset costs something.
  pub plan_order :
      (r : RebalanceResult) (t : TargetWeight)
      → IsFraction t.weight
      → plan o c value cash ≡ ok r
      → InOrder (map target_of r.allocations)
        × (keep (same_rank t) (map target_of r.allocations) ≡ keep (same_rank t) o.targets)
  plan_order r t tf e =
      let k = plan-IsPlan r e in
      rw k.spent.served
        (sorted-InOrder o.targets (weights o.targets h), sorted-keep_rank t o.targets tf)
    where
      weights : (targets : List TargetWeight) → All IsPriced targets → All HasFraction targets
      weights [] h = tt
      weights (t ∷ rest) (h, hs) = (h.weight, weights rest hs)
