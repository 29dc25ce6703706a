-- ===== src/Execution/Lifecycle/Traces.antt =====
-- What any sequence of operations can make of an order.
use auto_invest_manager.Base.{
  ℕ, ◌≡◌, refl, sym, ap, ◌∙◌, ◌⊎◌, inl, inr, Bool-cases, some, none, List, [], ◌∷◌, find, arith,
  ◌==◌,
}
use auto_invest_manager.Models.Enums.{PlannedOrderStatus}
use auto_invest_manager.Models.Entities.{PlannedOrder}
use auto_invest_manager.Execution.Store.{Store, Environment}
use auto_invest_manager.Execution.Service.Execute.{order_at}
use auto_invest_manager.Execution.Lifecycle.{
  Transition, stay, to_simulated, to_submitted, to_refused, to_approved, waiting_to_rejected,
  approved_to_rejected, Moved, IsKeyed, Operation, perform, perform-Moved,
}

-- Any number of transitions.
pub data Leads (x : PlannedOrderStatus) : PlannedOrderStatus → Type 0 where
  here : Leads x x
  then : {y z : PlannedOrderStatus} → Leads x y → Transition y z → Leads x z

abbrev pub perform_all : Environment → List Operation → Store → Store
perform_all env [] s = s
perform_all env (op ∷ ops) s = perform_all env ops (perform env op s)

Moved-find-none :
    (id : ℕ) (xs ys : List PlannedOrder)
    → Moved xs ys
    → find (λ o. o.id == id) xs ≡ none
    → find (λ o. o.id == id) ys ≡ none
Moved-find-none id [] [] m f = refl
Moved-find-none id [] (y ∷ ys) m f = absurd m
Moved-find-none id (x ∷ xs) [] m f = absurd m
Moved-find-none id (x ∷ xs) (y ∷ ys) (e, t, m) f =
    ground (arith, Moved-find-none id xs ys m, ap (λ (o : PlannedOrder). o.id) e)

Moved-IsKeyed : (xs ys : List PlannedOrder) → Moved xs ys → IsKeyed xs → IsKeyed ys
Moved-IsKeyed [] [] m k = tt
Moved-IsKeyed [] (y ∷ ys) m k = absurd m
Moved-IsKeyed (x ∷ xs) [] m k = absurd m
Moved-IsKeyed (x ∷ xs) (y ∷ ys) (e, t, m) k = (
  rw (ap (λ (o : PlannedOrder). o.id) e) (Moved-find-none x.id xs ys m k.0),
  Moved-IsKeyed xs ys m k.1,
)

-- The row of an order after a move.
abbrev pub Progress : ℕ → PlannedOrder → List PlannedOrder → Type 0
Progress id order ys =
    (order' : PlannedOrder) × (find (λ o. o.id == id) ys ≡ some order')
    × Transition order.status order'.status
    × (order' ≡ record order { status = order'.status })

Moved-Progress :
    (id : ℕ) (xs ys : List PlannedOrder) (order : PlannedOrder)
    → Moved xs ys
    → find (λ o. o.id == id) xs ≡ some order
    → Progress id order ys
Moved-Progress id [] ys order m f = cc
Moved-Progress id (x ∷ xs) [] order m f = absurd m
Moved-Progress id (x ∷ xs) (y ∷ ys) order (e, t, m) f = elim (Bool-cases (x.id == id)) [
  | inl b ↦
      let same : x ≡ order = ground arith in
      let key : y.id ≡ x.id = ap (λ (o : PlannedOrder). o.id) e in
      (y, rw (key, b) refl, rw (sym same) t, rw (sym same) e)
  | inr b ↦
      let (order', g, t', e') = Moved-Progress id xs ys order m (ground arith) in
      (order', ground (arith, ap (λ (o : PlannedOrder). o.id) e), t', e')
]

Leads-trans : {x y z : PlannedOrderStatus} → Transition x y → Leads y z → Leads x z
Leads-trans t here = then here t
Leads-trans t (then l u) = then (Leads-trans t l) u

-- After any operations, with any answers of the broker, an order is the row it was but for its
-- status, which has changed along transitions only.
pub perform_all-Leads :
    (env : Environment) (ops : List Operation) (id : ℕ) (s : Store) (order : PlannedOrder)
    → IsKeyed s.orders
    → order_at id s ≡ some order
    → (order' : PlannedOrder) × (order_at id (perform_all env ops s) ≡ some order')
      × Leads order.status order'.status
      × (order' ≡ record order { status = order'.status })
perform_all-Leads env [] id s order k f = (order, f, here, refl)
perform_all-Leads env (op ∷ ops) id s order k f =
    let m = perform-Moved env op s k in
    let s' = perform env op s in
    let (order', f', t, e) = Moved-Progress id s.orders s'.orders order m f in
    let (last, f'', l, e') =
      perform_all-Leads env ops id s' order' (Moved-IsKeyed s.orders s'.orders m k) f' in
    (
      last,
      f'',
      Leads-trans t l,
      e' ∙ ap (λ (o : PlannedOrder). record o { status = last.status }) e,
    )

abbrev pub AwaitsHand : PlannedOrderStatus → Type 0
AwaitsHand status =
    (status ≡ PlannedOrderStatus.waiting_confirmation)
    ⊎ ((status ≡ PlannedOrderStatus.approved) ⊎ (status ≡ PlannedOrderStatus.rejected))

Transition-AwaitsHand : {x y : PlannedOrderStatus} → Transition x y → AwaitsHand x → AwaitsHand y
Transition-AwaitsHand stay h = h
Transition-AwaitsHand to_simulated h = ground arith
Transition-AwaitsHand to_submitted h = ground arith
Transition-AwaitsHand to_refused h = ground arith
Transition-AwaitsHand to_approved h = inr (inl refl)
Transition-AwaitsHand waiting_to_rejected h = inr (inr refl)
Transition-AwaitsHand approved_to_rejected h = inr (inr refl)

Leads-AwaitsHand : {x y : PlannedOrderStatus} → Leads x y → AwaitsHand x → AwaitsHand y
Leads-AwaitsHand here h = h
Leads-AwaitsHand (then l t) h = Transition-AwaitsHand t (Leads-AwaitsHand l h)

-- An order that waits for confirmation, or that was approved or rejected by hand, is never
-- simulated, submitted or refused by the risk check, whatever operations follow.
pub manual_never_executed :
    (env : Environment) (ops : List Operation) (id : ℕ) (s : Store) (order : PlannedOrder)
    → IsKeyed s.orders
    → order_at id s ≡ some order
    → AwaitsHand order.status
    → (order' : PlannedOrder) × (order_at id (perform_all env ops s) ≡ some order')
      × AwaitsHand order'.status
manual_never_executed env ops id s order k f h =
    let (order', g, l, _) = perform_all-Leads env ops id s order k f in
    (order', g, Leads-AwaitsHand l h)

abbrev pub IsFinal : PlannedOrderStatus → Type 0
IsFinal PlannedOrderStatus.planned = ⊥
IsFinal PlannedOrderStatus.waiting_confirmation = ⊥
IsFinal PlannedOrderStatus.approved = ⊥
IsFinal _ = Unit

Transition-IsFinal : {x y : PlannedOrderStatus} → Transition x y → IsFinal x → y ≡ x
Transition-IsFinal stay h = refl
Transition-IsFinal to_simulated h = absurd h
Transition-IsFinal to_submitted h = absurd h
Transition-IsFinal to_refused h = absurd h
Transition-IsFinal to_approved h = absurd h
Transition-IsFinal waiting_to_rejected h = absurd h
Transition-IsFinal approved_to_rejected h = absurd h

Leads-IsFinal : {x y : PlannedOrderStatus} → Leads x y → IsFinal x → y ≡ x
Leads-IsFinal here h = refl
Leads-IsFinal (then l t) h = let same = Leads-IsFinal l h in Transition-IsFinal t (rw same h) ∙ same

-- A simulated, submitted, refused or rejected order stays the row that it is.
pub final_stays :
    (env : Environment) (ops : List Operation) (id : ℕ) (s : Store) (order : PlannedOrder)
    → IsKeyed s.orders
    → order_at id s ≡ some order
    → IsFinal order.status
    → order_at id (perform_all env ops s) ≡ some order
final_stays env ops id s order k f h =
    let (order', g, l, e) = perform_all-Leads env ops id s order k f in
    let same : order' ≡ order =
      e ∙ ap (λ (t : PlannedOrderStatus). record order { status = t }) (Leads-IsFinal l h) in
    g ∙ ap some same
