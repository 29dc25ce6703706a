-- ===== src/Portfolio/Planner/Sorting.antt =====
-- The order in which the targets are served: a stable sort by priority and weight, the greatest first.
use auto_invest_manager.Base.{
  sym, ltb, ◌==◌, ◌<◌, ◌⊎◌, inl, inr, Bool-cases, ◌≡◌, refl, ◌∙◌, Bool, true, false, ◌&&◌, not,
  List, [], ◌∷◌, All, keep, arith, if◌then◌else◌,
}
use auto_invest_manager.Base.Decimal.{Decimal, lt_decimal, le_decimal, ◌≤D◌}
use auto_invest_manager.Base.Decimal.Order.{IsFraction, le_trans_D}
use auto_invest_manager.Portfolio.Dto.{TargetWeight}
use auto_invest_manager.Portfolio.Planner.{key_lt, insert, sorted}

-- The second target has a lower priority, or the same one and no greater weight.
pub ComesAfter : TargetWeight → TargetWeight → Type 0
ComesAfter t u =
    (u.asset.priority < t.asset.priority)
    ⊎ ((u.asset.priority ≡ t.asset.priority) × (u.weight ≤D t.weight))

-- Each target is followed by such ones.
abbrev pub InOrder : List TargetWeight → Type 0
InOrder [] = Unit
InOrder (t ∷ rest) = All (ComesAfter t) rest × InOrder rest

-- Of the same priority and weight.
abbrev pub same_rank : TargetWeight → TargetWeight → Bool
same_rank s t =
    s.asset.priority == t.asset.priority
    && (le_decimal s.weight t.weight && le_decimal t.weight s.weight)

-- The same by the comparison of the code.
abbrev IsSorted : List TargetWeight → Type 0
IsSorted [] = Unit
IsSorted (t ∷ rest) = All (λ (u : TargetWeight). key_lt t u ≡ false) rest × IsSorted rest

abbrev same_key : TargetWeight → TargetWeight → Bool
same_key s t = not (key_lt s t) && not (key_lt t s)

key_lt-ComesAfter : (t u : TargetWeight) → key_lt t u ≡ false → ComesAfter t u
unfolding key_lt ComesAfter
key_lt-ComesAfter t u h = elim (Bool-cases (ltb u.asset.priority t.asset.priority)) [
  | inl p ↦ inl (ground arith)
  | inr p ↦ inr (ground arith, ground arith)
]

same_key_rank : (s t : TargetWeight) → same_key s t ≡ same_rank s t
unfolding key_lt
same_key_rank s t = ground arith

key_lt_asym : (s t : TargetWeight) → key_lt s t ≡ true → key_lt t s ≡ false
unfolding key_lt
key_lt_asym s t h = ground arith

le_trans_lt :
    (a b c : Decimal)
    → IsFraction b
    → lt_decimal a b ≡ false
    → lt_decimal b c ≡ false
    → lt_decimal a c ≡ false
le_trans_lt a b c f h k = ground (arith, le_trans_D c b a f (ground arith) (ground arith))

key_lt_trans :
    (s t u : TargetWeight)
    → IsFraction t.weight
    → key_lt s t ≡ false
    → key_lt t u ≡ false
    → key_lt s u ≡ false
unfolding key_lt
key_lt_trans s t u f h k = ground (arith, le_trans_lt s.weight t.weight u.weight f)

pub All-insert {κ} :
    (P : TargetWeight → Type κ) (t : TargetWeight) (rest : List TargetWeight)
    → P t
    → All P rest
    → All P (insert t rest)
unfolding insert
All-insert P t [] h hs = (h, hs)
All-insert P t (u ∷ rest) h (k, ks) = let ih = All-insert P t rest h ks in inserted (key_lt t u) ih
  where
    inserted :
        (b : Bool) → All P (insert t rest) → All P (if b then u ∷ insert t rest else t ∷ u ∷ rest)
    inserted true ih = (k, ih)
    inserted false ih = (h, (k, ks))

pub All-sorted {κ} :
    (P : TargetWeight → Type κ) (targets : List TargetWeight)
    → All P targets
    → All P (sorted targets)
unfolding sorted
All-sorted P [] h = tt
All-sorted P (t ∷ rest) (h, hs) = All-insert P t (sorted rest) h (All-sorted P rest hs)

abbrev pub HasFraction : TargetWeight → Type 0
HasFraction t = IsFraction t.weight

All-trans :
    (t u : TargetWeight) (rest : List TargetWeight)
    → IsFraction u.weight
    → key_lt t u ≡ false
    → All (λ (v : TargetWeight). key_lt u v ≡ false) rest
    → All (λ (v : TargetWeight). key_lt t v ≡ false) rest
All-trans t u [] f h hs = tt
All-trans t u (v ∷ rest) f h (k, ks) = (key_lt_trans t u v f h k, All-trans t u rest f h ks)

insert-IsSorted :
    (t : TargetWeight) (rest : List TargetWeight)
    → All HasFraction rest
    → IsSorted rest
    → IsSorted (insert t rest)
unfolding insert
insert-IsSorted t [] f h = (tt, tt)
insert-IsSorted t (u ∷ rest) (f, fs) (h, hs) =
    let ih = insert-IsSorted t rest fs hs in inserted (key_lt t u) refl ih
  where
    inserted :
        (b : Bool)
        → key_lt t u ≡ b
        → IsSorted (insert t rest)
        → IsSorted (if b then u ∷ insert t rest else t ∷ u ∷ rest)
    inserted true e ih =
        (All-insert (λ (v : TargetWeight). key_lt u v ≡ false) t rest (key_lt_asym t u e) h, ih)
    inserted false e ih = ((e, All-trans t u rest f e h), (h, hs))

-- The elements of one key are those of the list before, in their order.
insert-keep :
    (k t : TargetWeight) (rest : List TargetWeight)
    → IsFraction k.weight
    → keep (same_key k) (insert t rest) ≡ keep (same_key k) (t ∷ rest)
unfolding insert
insert-keep k t [] f = refl
insert-keep k t (u ∷ rest) f = let ih = insert-keep k t rest f in inserted (key_lt t u) refl ih
  where
    inserted :
        (b : Bool)
        → key_lt t u ≡ b
        → keep (same_key k) (insert t rest) ≡ keep (same_key k) (t ∷ rest)
        → keep (same_key k) (if b then u ∷ insert t rest else t ∷ u ∷ rest)
          ≡ keep (same_key k) (t ∷ u ∷ rest)
    inserted true e ih = let d = key_lt_trans t k u f in ground (arith, ih, d, e)
    inserted false e ih = refl

sorted-IsSorted :
    (targets : List TargetWeight) → All HasFraction targets → IsSorted (sorted targets)
unfolding sorted
sorted-IsSorted [] f = tt
sorted-IsSorted (t ∷ rest) (f, fs) =
    insert-IsSorted t (sorted rest) (All-sorted HasFraction rest fs) (sorted-IsSorted rest fs)

sorted-keep :
    (k : TargetWeight) (targets : List TargetWeight)
    → IsFraction k.weight
    → keep (same_key k) (sorted targets) ≡ keep (same_key k) targets
unfolding sorted
sorted-keep k [] f = refl
sorted-keep k (t ∷ rest) f = insert-keep k t (sorted rest) f ∙ ground (arith, sorted-keep k rest f)

IsSorted-InOrder : (targets : List TargetWeight) → IsSorted targets → InOrder targets
IsSorted-InOrder [] h = tt
IsSorted-InOrder (t ∷ rest) (h, hs) = (all rest h, IsSorted-InOrder rest hs)
  where
    all :
        (us : List TargetWeight)
        → All (λ (u : TargetWeight). key_lt t u ≡ false) us
        → All (ComesAfter t) us
    all [] k = tt
    all (u ∷ us) (k, ks) = (key_lt-ComesAfter t u k, all us ks)

keep-rank :
    (t : TargetWeight) (us : List TargetWeight) → keep (same_key t) us ≡ keep (same_rank t) us
keep-rank t [] = refl
keep-rank t (u ∷ us) = let ih = keep-rank t us in kept (same_key_rank t u) ih
  where
    kept :
        {a b : Bool} {xs ys : List TargetWeight}
        → a ≡ b
        → xs ≡ ys
        → (if a then u ∷ xs else xs) ≡ (if b then u ∷ ys else ys)
    kept p q = cc

pub sorted-InOrder :
    (targets : List TargetWeight) → All HasFraction targets → InOrder (sorted targets)
sorted-InOrder targets f = IsSorted-InOrder (sorted targets) (sorted-IsSorted targets f)

pub sorted-keep_rank :
    (t : TargetWeight) (targets : List TargetWeight)
    → IsFraction t.weight
    → keep (same_rank t) (sorted targets) ≡ keep (same_rank t) targets
sorted-keep_rank t targets f =
    sym (keep-rank t (sorted targets)) ∙ sorted-keep t targets f ∙ keep-rank t targets
