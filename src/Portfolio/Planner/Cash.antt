-- ===== src/Portfolio/Planner/Cash.antt =====
-- What the planner decides for one target: within its delta, its lots and the cash that is left.
use auto_invest_manager.Base.{
  ℕ, ◌<◌, ◌≤◌, ◌≡◌, ltb, refl, subst, true, false, ◌&&◌, arith, inl, inr, Bool-cases, ok, String,
  min,
}
use auto_invest_manager.Base.Decimal.{
  Decimal, from_int, ◌+D◌, ◌-D◌, ◌*D◌, ◌/D◌, ◌≤D◌, abs, truncate, min_decimal, lt_decimal,
  le_decimal,
}
use auto_invest_manager.Base.Decimal.Order.{
  IsFraction, IsPositive, mul-pos, le_trans_D, mul_mono, units-le, min-le_left, min-le_right,
  le-min, min-IsFraction, add_sub_le,
}
use auto_invest_manager.Models.Enums.{AllocationAction}
use auto_invest_manager.Portfolio.Dto.{
  AssetInput, OptimizationConstraints, TargetWeight, PlannedAllocation,
}
use auto_invest_manager.Portfolio.Planner.{
  Decision, lot_cost, whole_lots, bought, sold, held, decide, delta_of, allocation_of,
}

-- A target that the planner can price: proper decimals, and a lot that costs something.
pub record IsPriced (t : TargetWeight) : Type 0 where
  pub weight : IsFraction t.weight
  pub value : IsFraction t.asset.current_value
  pub cost : IsFraction (lot_cost t.asset)
  pub cost_pos : IsPositive (lot_cost t.asset)

-- What the plan pays for an allocation.
unfoldable pub payment_of : AllocationAction → ℕ → Decimal → Decimal
payment_of AllocationAction.buy lots cost = from_int lots *D cost
payment_of AllocationAction.sell lots cost = from_int 0
payment_of AllocationAction.hold lots cost = from_int 0

abbrev pub payment : PlannedAllocation → Decimal
payment a = payment_of a.action a.lots (lot_cost a.asset)

-- The least change of weight that is traded.
abbrev pub IsOutside : OptimizationConstraints → Decimal → Decimal → Type 0
IsOutside c value delta = le_decimal c.rebalance_threshold (abs delta /D value) ≡ true

-- An allocation that the rules allow.
unfoldable pub IsAllowed :
    OptimizationConstraints → Decimal → AssetInput → Decimal → AllocationAction → ℕ → Type 0
IsAllowed c value a delta AllocationAction.buy lots =
    (a.buy_enabled ≡ true)
    × (a.cooldown_active ≡ false)
    × IsOutside c value delta
    × (0 < lots)
    × ((from_int lots *D lot_cost a) ≤D delta)
IsAllowed c value a delta AllocationAction.sell lots =
    (a.sell_enabled ≡ true)
    × (a.cooldown_active ≡ false)
    × IsOutside c value delta
    × (0 < lots)
    × (lots ≤ truncate a.current_lots)
    × ((from_int lots *D lot_cost a) ≤D abs delta)
IsAllowed c value a delta AllocationAction.hold lots = lots ≡ 0

abbrev pub IsSound : OptimizationConstraints → Decimal → PlannedAllocation → Type 0
IsSound c value a = IsAllowed c value a.asset a.delta_amount a.action a.lots

pub record IsServed (c : OptimizationConstraints) (value : Decimal) (t : TargetWeight)
    (cash : Decimal) (d : Decision) : Type 0 where
  pub allowed : IsSound c value (allocation_of value t d)
  pub fraction : IsFraction d.spendable_cash
  pub nonneg : from_int 0 ≤D d.spendable_cash
  pub paid : (payment (allocation_of value t d) +D d.spendable_cash) ≤D cash

unit-le : (cash : Decimal) → (from_int 0 +D cash) ≤D cash
unit-le cash = omega arith

lots-le :
    (m n : ℕ) (cost : Decimal)
    → IsPositive cost
    → m ≤ n
    → (from_int m *D cost) ≤D (from_int n *D cost)
lots-le m n cost p h = mul_mono (from_int m) (from_int n) cost p (omega (arith, h))

abs-nonneg : (a : Decimal) → from_int 0 ≤D abs a
abs-nonneg a = ground arith

abs-IsFraction : (a : Decimal) → IsFraction a → IsFraction (abs a)
abs-IsFraction a h = ground arith

module _ (c : OptimizationConstraints) (value : Decimal) (t : TargetWeight) (cash : Decimal)
    (vf : IsFraction value) (h : IsPriced t) (cf : IsFraction cash) (cn : from_int 0 ≤D cash) where
  delta-IsFraction : IsFraction (delta_of value t)
  delta-IsFraction = mul-pos _ _ (mul-pos _ _ h.weight vf) h.value

  held-IsServed : (reason : String) → IsServed c value t cash (held reason cash)
  unfolding IsAllowed payment_of
  held-IsServed reason = record { allowed = refl; fraction = cf; nonneg = cn; paid = unit-le cash }

  bought-IsServed :
      (lots : ℕ)
      → t.asset.buy_enabled ≡ true
      → t.asset.cooldown_active ≡ false
      → IsOutside c value (delta_of value t)
      → (from_int lots *D lot_cost t.asset) ≤D delta_of value t
      → (from_int lots *D lot_cost t.asset) ≤D cash
      → IsServed c value t cash (bought t.asset cash lots)
  unfolding IsAllowed payment_of bought
  bought-IsServed lots e k o l m = elim (Bool-cases (ltb 0 lots)) [
    | inl p ↦
        subst (λ (d : Decision). IsServed c value t cash d)
          {x = record {
            action = AllocationAction.buy;
            lots = lots;
            reason = "underweight position";
            spendable_cash = cash -D (from_int lots *D lot_cost t.asset);
          }}
          (ground arith)
          (record {
            allowed = (e, k, o, ground arith, l);
            fraction = mul-pos _ _ cf (mul-pos 1 _ (omega arith) h.cost);
            nonneg = omega (arith, m);
            paid = add_sub_le cash (from_int lots *D lot_cost t.asset);
          })
    | inr p ↦
        subst (λ (d : Decision). IsServed c value t cash d)
          {x = record {
            action = AllocationAction.hold;
            lots = lots;
            reason = "insufficient cash for minimum lot";
            spendable_cash = cash;
          }}
          (ground arith)
          (record { allowed = ground arith; fraction = cf; nonneg = cn; paid = unit-le cash })
  ]

  sold-IsServed :
      (lots : ℕ)
      → t.asset.sell_enabled ≡ true
      → t.asset.cooldown_active ≡ false
      → IsOutside c value (delta_of value t)
      → lots ≤ truncate t.asset.current_lots
      → (from_int lots *D lot_cost t.asset) ≤D abs (delta_of value t)
      → IsServed c value t cash (sold cash lots)
  unfolding IsAllowed payment_of sold
  sold-IsServed lots e k o l m = elim (Bool-cases (ltb 0 lots)) [
    | inl p ↦
        subst (λ (d : Decision). IsServed c value t cash d)
          {x = record {
            action = AllocationAction.sell;
            lots = lots;
            reason = "overweight position";
            spendable_cash = cash;
          }}
          (ground arith)
          (record {
            allowed = (e, k, o, ground arith, l, m);
            fraction = cf;
            nonneg = cn;
            paid = unit-le cash;
          })
    | inr p ↦
        subst (λ (d : Decision). IsServed c value t cash d)
          {x = record {
            action = AllocationAction.hold;
            lots = lots;
            reason = "delta is below minimum lot";
            spendable_cash = cash;
          }}
          (ground arith)
          (record { allowed = ground arith; fraction = cf; nonneg = cn; paid = unit-le cash })
  ]

  whole_lots-eq :
      (amount : Decimal)
      → whole_lots amount (lot_cost t.asset) ≡ ok (truncate (amount /D lot_cost t.asset))
  whole_lots-eq amount = ground (arith, h.cost_pos)

  decide-bought :
      t.asset.buy_enabled ≡ true
      → t.asset.cooldown_active ≡ false
      → IsOutside c value (delta_of value t)
      → from_int 0 ≤D delta_of value t
      → IsServed c value t cash
          (bought t.asset cash (truncate (min_decimal (delta_of value t) cash /D lot_cost t.asset)))
  decide-bought e k o n =
      let mf = min-IsFraction (delta_of value t) cash delta-IsFraction cf in
      let u =
        units-le (min_decimal (delta_of value t) cash) (lot_cost t.asset) mf h.cost h.cost_pos
          (le-min (delta_of value t) cash (from_int 0) n cn) in
      bought-IsServed _ e k o
        (le_trans_D _ (min_decimal (delta_of value t) cash) _ mf u
          (min-le_left (delta_of value t) cash))
        (le_trans_D _ (min_decimal (delta_of value t) cash) _ mf u
          (min-le_right (delta_of value t) cash))

  decide-sold :
      t.asset.sell_enabled ≡ true
      → t.asset.cooldown_active ≡ false
      → IsOutside c value (delta_of value t)
      → IsServed c value t cash (
          sold cash (
            min
              (truncate t.asset.current_lots)
              (truncate (abs (delta_of value t) /D lot_cost t.asset))))
  decide-sold e k o =
      let lots = truncate (abs (delta_of value t) /D lot_cost t.asset) in
      let af = abs-IsFraction (delta_of value t) delta-IsFraction in
      let u =
        units-le (abs (delta_of value t)) (lot_cost t.asset) af h.cost h.cost_pos
          (abs-nonneg (delta_of value t)) in
      sold-IsServed _ e k o (omega arith) (
        le_trans_D _ (from_int lots *D lot_cost t.asset) _ (mul-pos 1 _ (omega arith) h.cost)
          (lots-le (min (truncate t.asset.current_lots) lots) lots (lot_cost t.asset) h.cost_pos
            (omega arith))
          u)

  -- A target that can be priced is served.
  pub decide-ends :
      (d : Decision) × (decide c t.asset (delta_of value t) (abs (delta_of value t) /D value) cash
        ≡ ok d)
      × IsServed c value t cash d
  unfolding decide
  decide-ends = elim (Bool-cases t.asset.cooldown_active) [
    | inl k ↦ (held "instrument cooldown is active" cash, ground arith, held-IsServed _)
    | inr k ↦
        elim (Bool-cases (
          le_decimal c.rebalance_threshold (abs (delta_of value t) /D value)
          && (lt_decimal (from_int 0) (delta_of value t) && t.asset.buy_enabled))) [
            | inl b ↦ (
              bought t.asset cash
                  (truncate (min_decimal (delta_of value t) cash /D lot_cost t.asset)),
              ground (arith, whole_lots-eq (min_decimal (delta_of value t) cash)),
              decide-bought (ground arith) k (ground arith) (ground arith),
            )
            | inr b ↦
                elim (Bool-cases (
                  le_decimal c.rebalance_threshold (abs (delta_of value t) /D value)
                  && (lt_decimal (delta_of value t) (from_int 0) && t.asset.sell_enabled))) [
                    | inl s ↦ (
                      sold cash (
                          min (truncate t.asset.current_lots)
                            (truncate (abs (delta_of value t) /D lot_cost t.asset))),
                      ground (arith, whole_lots-eq (abs (delta_of value t))),
                      decide-sold (ground arith) k (ground arith),
                    )
                    | inr s ↦
                        (held "within rebalance threshold" cash, ground arith, held-IsServed _)
                  ]
          ]
  ]
