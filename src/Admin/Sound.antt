-- ===== src/Admin/Sound.antt =====
-- app/admin/service.py: the limits that hold in the tables after whatever requests.
use auto_invest_manager.Base.{
  ℕ, ◌≡◌, refl, ap, Bool, true, false, ◌&&◌, not, Option, some, List, [], ◌∷◌, ◌++◌, find, update,
  all, leb, ok, arith,
}
use auto_invest_manager.Base.Decimal.{Decimal, from_int, ◌+D◌, lt_decimal}
use auto_invest_manager.Models.Entities.{WatchlistItem, RiskProfile}
use auto_invest_manager.Admin.{without_item}
use auto_invest_manager.Admin.Schemas.{
  WatchlistItemUpdate, RiskProfileUpdate, Change, is_ok, or_old, is_weight, passes, exceeds,
  is_valid_item_update, is_valid_risk_update, or_kept,
}
use auto_invest_manager.Admin.Changes.{item_applied, risk_applied, check_weights, sum_is_refused}
use auto_invest_manager.Admin.Store.{Tables}

-- The limits of the schema of an item, and its target within its maximum.
abbrev pub is_limited : WatchlistItem → Bool
is_limited x =
    passes is_weight x.max_weight
    && leb x.priority 10000
    && is_weight x.min_signal_score
    && passes is_weight x.manual_target_weight
    && not (exceeds x.manual_target_weight x.max_weight)

-- The weights of a profile are weights, and the position and the cash fit into the whole.
abbrev pub is_safe : RiskProfile → Bool
is_safe x =
    is_weight x.max_position_weight
    && is_weight x.min_cash_weight
    && passes is_weight x.max_sector_weight
    && is_weight x.max_slippage_percent
    && not (lt_decimal (from_int 1) (x.max_position_weight +D x.min_cash_weight))

pub record IsSound (s : Tables) : Type 0 where
  pub items : all is_limited s.watchlist ≡ true
  pub profiles : all is_safe s.risk_profiles ≡ true

module _ {A : Type 0} (p : A → Bool) where
  pub all-append :
      (xs : List A) (y : A) → all p xs ≡ true → p y ≡ true → all p (xs ++ y ∷ []) ≡ true
  all-append [] y h k = ground arith
  all-append (x ∷ xs) y h k = ground (arith, all-append xs y)

  pub all-update :
      (q : A → Bool) (f : A → A) (xs : List A)
      → ((x : A) → p x ≡ true → p (f x) ≡ true)
      → all p xs ≡ true
      → all p (update q f xs) ≡ true
  all-update q f [] k h = refl
  all-update q f (x ∷ xs) k h = ground (arith, k x, all-update q f xs k)

  pub all-find :
      (q : A → Bool) (xs : List A) {a : A} → all p xs ≡ true → find q xs ≡ some a → p a ≡ true
  all-find q [] h k = absurd cc
  all-find q (x ∷ xs) {a} h k = ground (arith, all-find q xs {a = a})

pub all-without :
    (id : ℕ) (xs : List WatchlistItem)
    → all is_limited xs ≡ true
    → all is_limited (without_item id xs) ≡ true
all-without id [] h = refl
all-without id (x ∷ xs) h = ground (arith, all-without id xs)

&&_both : (a b : Bool) → (a && b) ≡ true → (a ≡ true) × (b ≡ true)
&&_both a b h = (ground arith, ground arith)

both_&& : (a b : Bool) → a ≡ true → b ≡ true → (a && b) ≡ true
both_&& a b h k = ground arith

module _ {A : Type 0} (p : A → Bool) where
  or_old-ok : (old : A) (c : Change A) → p old ≡ true → is_ok p c ≡ true → p (or_old old c) ≡ true
  or_old-ok old Change.absent h k = h
  or_old-ok old Change.null h k = h
  or_old-ok old (Change.value new) h k = k

  or_kept-ok :
      (old : Option A) (c : Change A)
      → passes p old ≡ true
      → is_ok p c ≡ true
      → passes p (or_kept old c) ≡ true
  or_kept-ok old Change.absent h k = h
  or_kept-ok old Change.null h k = refl
  or_kept-ok old (Change.value new) h k = k

pub item_applied-limited :
    (p : WatchlistItemUpdate) (x : WatchlistItem)
    → is_valid_item_update p ≡ true
    → is_limited x ≡ true
    → exceeds
        (or_kept x.manual_target_weight p.manual_target_weight)
        (or_kept x.max_weight p.max_weight)
      ≡ false
    → is_limited (item_applied p x) ≡ true
item_applied-limited p x h k e =
    let (h_3, h4) = &&_both _ _ h in
    let (h_2, h3) = &&_both _ _ h_3 in
    let (h1, h2) = &&_both _ _ h_2 in
    let (k_4, k5) = &&_both _ _ k in
    let (k_3, k4) = &&_both _ _ k_4 in
    let (k_2, k3) = &&_both _ _ k_3 in
    let (k1, k2) = &&_both _ _ k_2 in
    both_&& _ _
      (both_&& _ _
        (both_&& _ _
          (both_&& _ _ (or_kept-ok is_weight x.max_weight p.max_weight k1 h1)
            (or_old-ok (λ n. leb n 10000) x.priority p.priority k2 h2))
          (or_old-ok is_weight x.min_signal_score p.min_signal_score k3 h3))
        (or_kept-ok is_weight x.manual_target_weight p.manual_target_weight k4 h4))
      (ap not e)

sum-accepted : (t : Bool) → sum_is_refused t ≡ ok tt → t ≡ false
sum-accepted true h = absurd cc
sum-accepted false h = refl

check_weights_lem :
    (max_position min_cash : Change Decimal) (x : RiskProfile)
    → check_weights max_position min_cash x ≡ ok tt
    → lt_decimal
        (from_int 1)
        (or_old x.max_position_weight max_position +D or_old x.min_cash_weight min_cash)
      ≡ false
check_weights_lem Change.null min_cash x h = absurd cc
check_weights_lem Change.absent Change.null x h = absurd cc
check_weights_lem (Change.value a) Change.null x h = absurd cc
check_weights_lem Change.absent Change.absent x h = sum-accepted _ h
check_weights_lem Change.absent (Change.value b) x h = sum-accepted _ h
check_weights_lem (Change.value a) Change.absent x h = sum-accepted _ h
check_weights_lem (Change.value a) (Change.value b) x h = sum-accepted _ h

pub risk_applied-safe :
    (p : RiskProfileUpdate) (x : RiskProfile)
    → is_valid_risk_update p ≡ true
    → is_safe x ≡ true
    → check_weights p.max_position_weight p.min_cash_weight x ≡ ok tt
    → is_safe (risk_applied p x) ≡ true
risk_applied-safe p x h k e =
    let (h_9, h10) = &&_both _ _ h in
    let (h_8, h9) = &&_both _ _ h_9 in
    let (h_7, h8) = &&_both _ _ h_8 in
    let (h_6, h7) = &&_both _ _ h_7 in
    let (h_5, h6) = &&_both _ _ h_6 in
    let (h_4, h5) = &&_both _ _ h_5 in
    let (h_3, h4) = &&_both _ _ h_4 in
    let (h_2, h3) = &&_both _ _ h_3 in
    let (h1, h2) = &&_both _ _ h_2 in
    let (k_4, k5) = &&_both _ _ k in
    let (k_3, k4) = &&_both _ _ k_4 in
    let (k_2, k3) = &&_both _ _ k_3 in
    let (k1, k2) = &&_both _ _ k_2 in
    both_&& _ _
      (both_&& _ _
        (both_&& _ _
          (both_&& _ _ (or_old-ok is_weight x.max_position_weight p.max_position_weight k1 h1)
            (or_old-ok is_weight x.min_cash_weight p.min_cash_weight k2 h3))
          (or_kept-ok is_weight x.max_sector_weight p.max_sector_weight k3 h2))
        (or_old-ok is_weight x.max_slippage_percent p.max_slippage_percent k4 h8))
      (ap not (check_weights_lem p.max_position_weight p.min_cash_weight x e))
