-- ===== src/Portfolio/Optimizer/Shares.antt =====
-- One round of the optimizer: what each asset is given, and what all of them are given.
use auto_invest_manager.Base.{
  Option, none, some, List, [], ◌∷◌, All, arith, inl, inr, subst, Bool-cases,
}
use auto_invest_manager.Base.Decimal.{
  Decimal, from_int, ◌+D◌, ◌-D◌, ◌*D◌, ◌/D◌, ◌≤D◌, max_decimal, lt_decimal,
}
use auto_invest_manager.Base.Decimal.Order.{
  IsFraction, IsPositive, mul-pos, le_trans_D, le_refl_D, sum-nonneg, mul_add_le, product-nonneg,
  add_mono, mul_mono, div-den, div-nonneg, div-mul-le, min-IsFraction, max-IsFraction, min-le_left,
  min-le_right, le-min, max-le, le-max_left, add_sub_le,
}
use auto_invest_manager.Portfolio.Dto.{AssetInput, OptimizationConstraints}
use auto_invest_manager.Portfolio.Optimizer.{
  Slot, weight_or, cap, share, fill, distributed, score_sum,
}

-- An optional weight that is a decimal of at least zero.
abbrev pub IsWeight : Option Decimal → Type 0
IsWeight none = Unit
IsWeight (some d) = IsFraction d × (from_int 0 ≤D d)

-- What the database guarantees of an asset: proper decimals, and weights of at least zero.
pub record IsAsset (a : AssetInput) : Type 0 where
  pub score : IsFraction a.signal_score
  pub score_nonneg : from_int 0 ≤D a.signal_score
  pub max_weight : IsWeight a.max_weight
  pub manual : IsWeight a.manual_target_weight

-- A slot within its cap.
pub record IsCapped (c : OptimizationConstraints) (s : Slot) : Type 0 where
  pub asset : IsAsset s.asset
  pub weight : IsFraction s.weight
  pub nonneg : from_int 0 ≤D s.weight
  pub below : s.weight ≤D cap c s.asset

-- Constraints as the risk profile gives them.
pub record IsLimit (c : OptimizationConstraints) : Type 0 where
  pub position : IsFraction c.max_position_weight
  pub position_pos : IsPositive c.max_position_weight
  pub cash : IsFraction c.min_cash_weight

pub weight_or-IsFraction :
    (o : Option Decimal) (d : Decimal)
    → IsWeight o
    → IsFraction d
    → from_int 0 ≤D d
    → IsFraction (weight_or o d) × (from_int 0 ≤D weight_or o d)
weight_or-IsFraction none d h f p = (f, p)
weight_or-IsFraction (some x) d h f p = ground arith

pub cap-IsFraction :
    (c : OptimizationConstraints) (a : AssetInput)
    → IsLimit c
    → IsAsset a
    → IsFraction (cap c a) × (from_int 0 ≤D cap c a)
unfolding cap
cap-IsFraction c a l h =
    let w =
      weight_or-IsFraction a.max_weight (from_int 1) h.max_weight (omega arith) (omega arith) in
    (
      min-IsFraction _ _ l.position w.0,
      le-min c.max_position_weight (weight_or a.max_weight (from_int 1)) (from_int 0)
          (omega (arith, l.position_pos)) w.1,
    )

module _ (c : OptimizationConstraints) (remaining total : Decimal) (limit : IsLimit c)
    (rf : IsFraction remaining) (rn : from_int 0 ≤D remaining) (tf : IsFraction total)
    (tp : IsPositive total) where
  pub room-nonneg : (s : Slot) → IsCapped c s → from_int 0 ≤D (cap c s.asset -D s.weight)
  room-nonneg s h = omega (arith, h.below)

  proposed-IsFraction :
      (s : Slot) → IsCapped c s → IsFraction (remaining *D s.asset.signal_score /D total)
  proposed-IsFraction s h =
      div-den (remaining *D s.asset.signal_score) total (mul-pos _ _ rf h.asset.score) tp

  pub share-IsFraction : (s : Slot) → IsCapped c s → IsFraction (share c remaining total s)
  unfolding share
  share-IsFraction s h = min-IsFraction _ _ (proposed-IsFraction s h) (
      max-IsFraction (from_int 0) (cap c s.asset -D s.weight) (omega arith)
        (mul-pos _ _ (cap-IsFraction c s.asset limit h.asset).0 h.weight))

  pub share-nonneg : (s : Slot) → IsCapped c s → from_int 0 ≤D share c remaining total s
  unfolding share
  share-nonneg s h =
      le-min _ _ (from_int 0)
        (div-nonneg _ total tp
          (product-nonneg remaining s.asset.signal_score rn h.asset.score_nonneg))
        (le-max_left (from_int 0) (cap c s.asset -D s.weight))

  -- With its share an asset is still within its cap.
  pub share-below :
      (s : Slot) → IsCapped c s → (s.weight +D share c remaining total s) ≤D cap c s.asset
  unfolding share
  share-below s h =
      let room = cap c s.asset -D s.weight in
      let f : IsFraction room = mul-pos _ _ (cap-IsFraction c s.asset limit h.asset).0 h.weight in
      le_trans_D _ (s.weight +D room) (cap c s.asset) (mul-pos _ _ h.weight f)
        (add_mono s.weight s.weight (share c remaining total s) room (le_refl_D s.weight) (
          le_trans_D _ (max_decimal (from_int 0) room) room
            (max-IsFraction (from_int 0) room (omega arith) f)
            (min-le_right (remaining *D s.asset.signal_score /D total)
              (max_decimal (from_int 0) room))
            (max-le (from_int 0) room room (room-nonneg s h) (le_refl_D room))))
        (add_sub_le (cap c s.asset) s.weight)

  pub share-mul :
      (s : Slot)
      → IsCapped c s
      → (share c remaining total s *D total) ≤D (remaining *D s.asset.signal_score)
  unfolding share
  share-mul s h =
      le_trans_D _ ((remaining *D s.asset.signal_score /D total) *D total) _
        (mul-pos _ _ (proposed-IsFraction s h) tf)
        (mul_mono _ (remaining *D s.asset.signal_score /D total) total tp (min-le_left _ _))
        (div-mul-le (remaining *D s.asset.signal_score) total tp)

  pub fill-IsCapped : (s : Slot) → IsCapped c s → IsCapped c (fill c remaining total s)
  unfolding fill
  fill-IsCapped s h = elim (Bool-cases s.uncapped) [
    | inl p ↦
        subst (λ (t : Slot). IsCapped c t)
          {x = record s {
            weight = s.weight +D share c remaining total s;
            uncapped = lt_decimal (s.weight +D share c remaining total s) (cap c s.asset);
          }}
          (ground arith)
          (record {
            asset = h.asset;
            weight = mul-pos _ _ h.weight (share-IsFraction s h);
            nonneg = sum-nonneg s.weight (share c remaining total s) h.nonneg (share-nonneg s h);
            below = share-below s h;
          })
    | inr p ↦ subst (λ (t : Slot). IsCapped c t) {x = s} (ground arith) h
  ]

  -- All that is given out in one round is at most what is left, by the scores.
  pub distributed-mul :
      (slots : List Slot)
      → All (IsCapped c) slots
      → IsFraction (distributed c remaining total slots)
        × IsFraction (score_sum slots)
        × (from_int 0 ≤D distributed c remaining total slots)
        × ((distributed c remaining total slots *D total) ≤D (remaining *D score_sum slots))
  unfolding distributed score_sum share
  distributed-mul [] h = (omega arith, omega arith, omega arith, omega arith)
  distributed-mul (s ∷ rest) (h, hs) =
      let (df, sf, n, m) = distributed-mul rest hs in
      elim (Bool-cases s.uncapped) [
        | inl p ↦ rw p (
          mul-pos _ _ (share-IsFraction s h) df,
          mul-pos _ _ h.asset.score sf,
          sum-nonneg (share c remaining total s) (distributed c remaining total rest)
              (share-nonneg s h) n,
          mul_add_le (share c remaining total s) (distributed c remaining total rest) total
              remaining s.asset.signal_score (score_sum rest) (share-mul s h) m,
        )
        | inr p ↦ rw p (df, sf, n, m)
      ]
