-- ===== src/Execution/Repository/Saving.antt =====
-- Saving the orders of a plan twice inserts them once.
use auto_invest_manager.Base.{
  ℕ, suc, ◌+◌, ◌≡◌, refl, ap, sym, subst, ◌∙◌, true, false, inl, inr, Bool-cases, Option-cases,
  Option, some, List, [], ◌∷◌, ◌++◌, any, find, length, All, any-append, any-find, arith, ok,
  Result-cases, String, eq_iff,
}
use mathlib.Core.List.{append-nil}
use auto_invest_manager.Models.Entities.{RebalancePlan, PlannedOrder, Instrument}
use auto_invest_manager.Execution.Dto.{PlannedOrderData}
use auto_invest_manager.Execution.Store.{Store}
use auto_invest_manager.Execution.Repository.{
  has_key, instrument_of, make_order, save_items, has_repeated_key, save_orders,
}

abbrev pub IsKnown : List PlannedOrder → PlannedOrderData → Type 0
IsKnown orders item = any (has_key item.idempotency_key) orders ≡ true

All-map :
    {P Q : PlannedOrderData → Type 0} (items : List PlannedOrderData)
    → ((i : PlannedOrderData) → P i → Q i)
    → All P items
    → All Q items
All-map [] f h = tt
All-map (i ∷ items) f h = (f i h.0, All-map items f h.1)

module _ (plan : RebalancePlan) where
  made-has_key :
      (id : ℕ) (item : PlannedOrderData) (o : Option Instrument) {order : PlannedOrder}
      → make_order plan id item o ≡ some order
      → has_key item.idempotency_key order ≡ true
  made-has_key id item o e = ground (arith, eq_iff item.idempotency_key item.idempotency_key)

  known-insert :
      (key : String) (existing added : List PlannedOrder) (order : PlannedOrder)
      → any (has_key key) (existing ++ added) ≡ true
      → any (has_key key) (existing ++ order ∷ added) ≡ true
  known-insert key existing added order h = ground (
    arith,
    any-append (has_key key) existing added,
    any-append (has_key key) existing (order ∷ added),
  )

  known-new :
      (key : String) (existing added : List PlannedOrder) (order : PlannedOrder)
      → has_key key order ≡ true
      → any (has_key key) (existing ++ order ∷ added) ≡ true
  known-new key existing added order h =
      ground (arith, any-append (has_key key) existing (order ∷ added))

  known-old :
      (key : String) (existing added : List PlannedOrder)
      → any (has_key key) existing ≡ true
      → any (has_key key) (existing ++ added) ≡ true
  known-old key existing added h = ground (arith, any-append (has_key key) existing added)

  -- After the loop every key is known, and as many orders are returned as were asked for.
  save_items-IsKnown :
      (existing : List PlannedOrder) (id : ℕ) (items : List PlannedOrderData)
      {orders added : List PlannedOrder}
      → save_items existing plan id items ≡ ok (orders, added)
      → All (IsKnown (existing ++ added)) items × (length orders ≡ length items)
  unfolding save_items
  save_items-IsKnown existing id [] e = (tt, ground arith)
  save_items-IsKnown existing id (item ∷ rest) {orders} {added} e =
      elim (Option-cases (find (has_key item.idempotency_key) existing)) [
        | inl n ↦ elim (Result-cases (save_items existing plan (id + 1) rest)) [
          | inr (x, p) ↦ absurd (ground arith)
          | inl ((os, news), p) ↦
              elim (Option-cases
                (make_order plan id item (instrument_of plan item.instrument_uid))) [
                  | inl m ↦ absurd (ground arith)
                  | inr (order, m) ↦
                      let a : added ≡ order ∷ news = ground arith in
                      let o : orders ≡ order ∷ os = ground arith in
                      let (known, len) = save_items-IsKnown existing (id + 1) rest p in
                      let key = made-has_key id item (instrument_of plan item.instrument_uid) m in
                      (
                        subst
                            (λ (l : List PlannedOrder). All (IsKnown (existing ++ l)) (item ∷ rest))
                            (sym a)
                            (
                              known-new item.idempotency_key existing news order key,
                              All-map rest (λ i. known-insert i.idempotency_key existing news order)
                                  known,
                            ),
                        ap length o ∙ ap suc len,
                      )
                ]
        ]
        | inr (order, f) ↦ elim (Result-cases (save_items existing plan id rest)) [
          | inr (x, p) ↦ absurd (ground arith)
          | inl ((os, news), p) ↦
              let a : added ≡ news = ground arith in
              let o : orders ≡ order ∷ os = ground arith in
              let (known, len) = save_items-IsKnown existing id rest p in
              let there : any (has_key item.idempotency_key) existing ≡ true =
                any-find (has_key item.idempotency_key) existing ∙ rw f in
              (
                subst (λ (l : List PlannedOrder). All (IsKnown (existing ++ l)) (item ∷ rest))
                    (sym a) (known-old item.idempotency_key existing news there, known),
                ap length o ∙ ap suc len,
              )
        ]
      ]

  -- A second loop over known keys inserts nothing.
  save_items_known :
      (existing : List PlannedOrder) (id : ℕ) (items : List PlannedOrderData)
      → All (IsKnown existing) items
      → (orders : List PlannedOrder) × (save_items existing plan id items ≡ ok (orders, []))
  unfolding save_items
  save_items_known existing id [] h = ([], refl)
  save_items_known existing id (item ∷ rest) h =
      elim (Option-cases (find (has_key item.idempotency_key) existing)) [
        | inl n ↦ absurd (ground (arith, any-find (has_key item.idempotency_key) existing))
        | inr (order, f) ↦
            let (orders, p) = save_items_known existing id rest h.1 in
            (order ∷ orders, ground arith)
      ]

  save_orders_none :
      (items : List PlannedOrderData) (t : Store) {again : List PlannedOrder}
      → save_items t.orders plan t.next_id items ≡ ok (again, [])
      → has_repeated_key t.orders ≡ false
      → ((save_orders plan items t).1.orders ≡ t.orders) × ((save_orders plan items t).0 ≡ ok again)
  unfolding save_orders
  save_orders_none items t q r = ground (arith, append-nil t.orders)

  -- A save that returns gives one order for each item, and saving the same items again leaves the
  -- orders as they are.
  pub save_orders_again :
      (items : List PlannedOrderData) (s : Store) {orders : List PlannedOrder}
      → (save_orders plan items s).0 ≡ ok orders
      → let s' = (save_orders plan items s).1 in
        (length orders ≡ length items)
        × ((save_orders plan items s').1.orders ≡ s'.orders)
        × (again : List PlannedOrder) × ((save_orders plan items s').0 ≡ ok again)
  unfolding save_orders
  save_orders_again items s {orders} e =
      elim (Result-cases (save_items s.orders plan s.next_id items)) [
        | inr (x, p) ↦ absurd (ground arith)
        | inl ((os, added), p) ↦ elim (Bool-cases (has_repeated_key (s.orders ++ added))) [
          | inl r ↦ absurd (ground arith)
          | inr r ↦
              let (known, len) = save_items-IsKnown s.orders s.next_id items p in
              let s' = (save_orders plan items s).1 in
              let rows : s'.orders ≡ s.orders ++ added = ground arith in
              let (again, q) = save_items_known (s.orders ++ added) s'.next_id items known in
              let (same, returned) = save_orders_none items s' (rw rows q) (rw rows r) in
              (ap length {x = orders} {y = os} (ground arith) ∙ len, same, again, returned)
        ]
      ]
