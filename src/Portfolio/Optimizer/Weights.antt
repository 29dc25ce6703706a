-- ===== src/Portfolio/Optimizer/Weights.antt =====
-- The weights that the optimizer returns.
use auto_invest_manager.Base.{
  ℕ, zero, suc, ◌≡◌, refl, ◌∙◌, subst, Bool, true, false, ◌&&◌, not, Option, some, List, [], ◌∷◌,
  map, All, any, arith, inl, inr, ◌⊎◌, if◌then◌else◌,
}
use auto_invest_manager.Base.Decimal.{Decimal, from_int, ◌+D◌, ◌-D◌, ◌≤D◌, lt_decimal, le_decimal}
use auto_invest_manager.Base.Decimal.Order.{
  IsFraction, IsPositive, mul-pos, le_trans_D, le_add, mul_cancel, sum-grows, sum-keeps, moved-le,
}
use auto_invest_manager.Portfolio.Dto.{OptimizationConstraints}
use auto_invest_manager.Portfolio.Optimizer.{
  Slot, cap, share, fill, distributed, score_sum, fill_all, round_total, weight_sum, distribute,
  is_uncapped,
}
use auto_invest_manager.Portfolio.Optimizer.Shares.{
  IsCapped, IsLimit, fill-IsCapped, distributed-mul,
}

-- Filling adds what is given out.
pub fill-weight_sum :
    (c : OptimizationConstraints) (remaining total : Decimal) (slots : List Slot)
    → weight_sum (map (fill c remaining total) slots)
      ≤D (weight_sum slots +D distributed c remaining total slots)
unfolding fill distributed
fill-weight_sum c remaining total [] = omega arith
fill-weight_sum c remaining total (s ∷ rest) =
    let ih = fill-weight_sum c remaining total rest in filled s.uncapped ih
  where
    filled :
        (b : Bool)
        → weight_sum (map (fill c remaining total) rest)
          ≤D (weight_sum rest +D distributed c remaining total rest)
        → ((if b
              then record s {
                weight = s.weight +D share c remaining total s;
                uncapped = lt_decimal (s.weight +D share c remaining total s) (cap c s.asset);
              }
              else s).weight
            +D weight_sum (map (fill c remaining total) rest))
          ≤D ((s.weight +D weight_sum rest)
              +D (if b
                  then share c remaining total s +D distributed c remaining total rest
                  else distributed c remaining total rest))
    filled true ih = sum-grows s.weight (share c remaining total s) _ _ _ ih
    filled false ih = sum-keeps s.weight _ _ _ ih

fill_all-assets :
    (c : OptimizationConstraints) (remaining total : Decimal) (slots : List Slot)
    → map (λ (s : Slot). s.asset) (map (fill c remaining total) slots)
      ≡ map (λ (s : Slot). s.asset) slots
unfolding fill
fill_all-assets c remaining total [] = refl
fill_all-assets c remaining total (s ∷ rest) =
    ground (arith, fill_all-assets c remaining total rest)

pub weight_sum-IsFraction :
    (c : OptimizationConstraints) (slots : List Slot)
    → All (IsCapped c) slots
    → IsFraction (weight_sum slots)
weight_sum-IsFraction c [] h = omega arith
weight_sum-IsFraction c (s ∷ rest) (h, hs) = mul-pos _ _ h.weight (weight_sum-IsFraction c rest hs)

-- A state of the loop that keeps within the caps and within `investable`.
pub record IsOpen (c : OptimizationConstraints) (investable remaining : Decimal) (slots : List Slot)
    : Type 0 where
  pub capped : All (IsCapped c) slots
  pub fraction : IsFraction remaining
  pub nonneg : from_int 0 ≤D remaining
  pub total : (weight_sum slots +D remaining) ≤D investable

pub record IsDone (c : OptimizationConstraints) (investable : Decimal) (slots out : List Slot)
    : Type 0 where
  pub capped : All (IsCapped c) out
  pub total : weight_sum out ≤D investable
  pub assets : map (λ (s : Slot). s.asset) out ≡ map (λ (s : Slot). s.asset) slots

module _ (c : OptimizationConstraints) (limit : IsLimit c) (investable : Decimal) where
  fill_all-IsCapped :
      (remaining : Decimal) (slots : List Slot)
      → IsOpen c investable remaining slots
      → IsFraction (score_sum slots)
      → IsPositive (score_sum slots)
      → (rest : List Slot) → All (IsCapped c) rest
      → All (IsCapped c) (map (fill c remaining (score_sum slots)) rest)
  fill_all-IsCapped remaining slots h f p [] k = tt
  fill_all-IsCapped remaining slots h f p (s ∷ rest) (k, ks) = (
    fill-IsCapped c remaining (score_sum slots) limit h.fraction h.nonneg f p s k,
    fill_all-IsCapped remaining slots h f p rest ks,
  )

  -- A round gives out at most what is left.
  round_total-le :
      (remaining : Decimal) (slots : List Slot)
      → IsOpen c investable remaining slots
      → IsFraction (score_sum slots)
      → IsPositive (score_sum slots)
      → round_total c remaining slots ≤D remaining
  round_total-le remaining slots h f p =
      let (df, sf, n, m) =
        distributed-mul c remaining (score_sum slots) limit h.fraction h.nonneg f p slots
          h.capped in
      mul_cancel (round_total c remaining slots) remaining (score_sum slots) p f m

  pub next-IsOpen :
      (remaining : Decimal) (slots : List Slot)
      → IsOpen c investable remaining slots
      → IsFraction (score_sum slots)
      → IsPositive (score_sum slots)
      → IsOpen c investable
          (remaining -D round_total c remaining slots)
          (fill_all c remaining slots)
  next-IsOpen remaining slots h f p =
      let (df, sf, n, m) =
        distributed-mul c remaining (score_sum slots) limit h.fraction h.nonneg f p slots
          h.capped in
      record {
        capped = fill_all-IsCapped remaining slots h f p slots h.capped;
        fraction = mul-pos _ _ h.fraction df;
        nonneg = omega (arith, round_total-le remaining slots h f p);
        total =
            le_trans_D _ (weight_sum slots +D remaining) investable
              (mul-pos _ _ (weight_sum-IsFraction c slots h.capped) h.fraction)
              (moved-le (weight_sum slots) (weight_sum (fill_all c remaining slots)) remaining
                (round_total c remaining slots)
                (fill-weight_sum c remaining (score_sum slots) slots))
              h.total;
      }

  open-IsDone :
      (remaining : Decimal) (slots : List Slot)
      → IsOpen c investable remaining slots
      → IsDone c investable slots slots
  open-IsDone remaining slots h = record {
    capped = h.capped;
    total =
        le_trans_D _ (weight_sum slots +D remaining) investable
          (mul-pos _ _ (weight_sum-IsFraction c slots h.capped) h.fraction)
          (le_add (weight_sum slots) remaining h.nonneg) h.total;
    assets = refl;
  }

  pub score_sum-IsFraction :
      (slots : List Slot) → All (IsCapped c) slots → IsFraction (score_sum slots)
  unfolding score_sum
  score_sum-IsFraction [] h = omega arith
  score_sum-IsFraction (s ∷ rest) (h, hs) =
      let ih = score_sum-IsFraction rest hs in
      ground (arith, ih, mul-pos s.asset.signal_score.den (score_sum rest).den h.asset.score ih)

  -- How a round that returns can end: the slots as they are, filled, or after further rounds.
  loop-cases :
      (a b d : Bool) (x y out : List Slot) (r : Option (List Slot))
      → (if not a then some x else if b then some x else if d then some y else r) ≡ some out
      → (x ≡ out) ⊎ ((b ≡ false) × ((y ≡ out) ⊎ (r ≡ some out)))
  loop-cases false b d x y out r h = inl cc
  loop-cases true true d x y out r h = inl cc
  loop-cases true false true x y out r h = inr (refl, inl cc)
  loop-cases true false false x y out r h = inr (refl, inr h)

  pub distribute-IsDone :
      (fuel : ℕ) (remaining : Decimal) (slots out : List Slot)
      → IsOpen c investable remaining slots
      → distribute c fuel remaining slots ≡ some out
      → IsDone c investable slots out
  unfolding distribute
  distribute-IsDone zero remaining slots out h e = cc
  distribute-IsDone (suc fuel) remaining slots out h e =
      let f = score_sum-IsFraction slots h.capped in
      elim (loop-cases (lt_decimal (from_int 0) remaining && any is_uncapped slots)
        (le_decimal (score_sum slots) (from_int 0))
        (le_decimal (round_total c remaining slots) (from_int 0)) slots (fill_all c remaining slots)
        out
        (distribute c fuel (remaining -D round_total c remaining slots)
          (fill_all c remaining slots))
        e) [
          | inl p ↦
              subst (λ (o : List Slot). IsDone c investable slots o) p
                (open-IsDone remaining slots h)
          | inr (b, p) ↦
              let n = next-IsOpen remaining slots h f (ground arith) in
              let d : IsDone c investable (fill_all c remaining slots) out = elim p [
                | inl q ↦
                    subst (λ (o : List Slot). IsDone c investable (fill_all c remaining slots) o) q
                      (open-IsDone _ _ n)
                | inr q ↦ distribute-IsDone fuel _ _ out n q
              ] in
              record {
                capped = d.capped;
                total = d.total;
                assets = d.assets ∙ fill_all-assets c remaining (score_sum slots) slots;
              }
        ]
