-- ===== src/Execution/Lifecycle.antt =====
-- The life of a planned order under any sequence of the service's operations.
pub mod Traces
use auto_invest_manager.Base.{
  ℕ, ◌≡◌, refl, sym, ap, ◌⊎◌, inl, inr, true, false, Bool-cases, Option-cases, Result-cases, Option,
  none, some, List, [], ◌∷◌, find, find_passes, any, str_eq, subst, update, arith, ok, err, ◌==◌,
  ==_iff, Action,
}
use auto_invest_manager.Models.Enums.{TradeMode, PlannedOrderStatus, is_status, is_status→eq}
use auto_invest_manager.Models.Entities.{PlannedOrder}
use auto_invest_manager.Execution.Store.{Store, Environment}
use auto_invest_manager.Execution.Repository.{
  virtual_trade_of, simulate, reject, save_sandbox_execution,
}
use auto_invest_manager.Execution.Context.{sandbox_configured}
use auto_invest_manager.Execution.Service.{
  execute, execute_sandbox, approve, reject_order, ensure_admitted, run_sandbox, sandbox_request,
}
use auto_invest_manager.Execution.Service.Safety.{ensure_admitted_ok, ensure_admitted_err}
use auto_invest_manager.Execution.Service.Execute.{order_at, marked}
use auto_invest_manager.Execution.Service.Confirm.{orders-approve, orders-reject_order}

-- The changes of status that are allowed.
pub data Transition : PlannedOrderStatus → PlannedOrderStatus → Type 0 where
  stay : {x : PlannedOrderStatus} → Transition x x
  to_simulated : Transition PlannedOrderStatus.planned PlannedOrderStatus.simulated
  to_submitted : Transition PlannedOrderStatus.planned PlannedOrderStatus.submitted
  to_refused : Transition PlannedOrderStatus.planned PlannedOrderStatus.risk_rejected
  to_approved : Transition PlannedOrderStatus.waiting_confirmation PlannedOrderStatus.approved
  waiting_to_rejected :
      Transition PlannedOrderStatus.waiting_confirmation PlannedOrderStatus.rejected
  approved_to_rejected : Transition PlannedOrderStatus.approved PlannedOrderStatus.rejected

-- The rows before and after: only statuses have changed, and along transitions.
abbrev pub Moved : List PlannedOrder → List PlannedOrder → Type 0
Moved [] [] = Unit
Moved [] (y ∷ ys) = ⊥
Moved (x ∷ xs) [] = ⊥
Moved (x ∷ xs) (y ∷ ys) =
    (y ≡ record x { status = y.status }) × Transition x.status y.status × Moved xs ys

-- Ids are the primary key.
abbrev pub IsKeyed : List PlannedOrder → Type 0
IsKeyed [] = Unit
IsKeyed (o ∷ os) = (find (λ x. x.id == o.id) os ≡ none) × IsKeyed os

pub Moved-refl : (xs : List PlannedOrder) → Moved xs xs
Moved-refl [] = tt
Moved-refl (x ∷ xs) = (refl, stay, Moved-refl xs)

marked-none :
    (id : ℕ) (status : PlannedOrderStatus) (xs : List PlannedOrder)
    → find (λ o. o.id == id) xs ≡ none
    → marked id status xs ≡ xs
marked-none id status [] h = refl
marked-none id status (x ∷ xs) h = ground (arith, marked-none id status xs)

pub Moved-marked :
    (id : ℕ) (status : PlannedOrderStatus) (xs : List PlannedOrder) {order : PlannedOrder}
    → IsKeyed xs
    → find (λ o. o.id == id) xs ≡ some order
    → Transition order.status status
    → Moved xs (marked id status xs)
Moved-marked id status [] k f t = cc
Moved-marked id status (x ∷ xs) {order} k f t = elim (Bool-cases (x.id == id)) [
  | inl b ↦
      let same : x ≡ order = ground arith in
      let key : x.id ≡ id = (==_iff x.id id).0 b in
      let alone : find (λ o. o.id == id) xs ≡ none = rw (sym key) k.0 in
      rw (b, marked-none id status xs alone)
        (refl, rw (ap (λ (o : PlannedOrder). o.status) same) t, Moved-refl xs)
  | inr b ↦ rw b (refl, stay, Moved-marked id status xs {order = order} k.1 (ground arith) t)
]

-- The operations of the service on one order.
pub data Operation : Type 0 where
  run_dry run_in_sandbox confirm turn_down : ℕ → Operation

abbrev pub perform : Environment → Operation → Store → Store
perform env (run_dry id) s = (execute env id s).1
perform env (run_in_sandbox id) s = (execute_sandbox env id s).1
perform env (confirm id) s = (approve env id s).1
perform env (turn_down id) s = (reject_order env id s).1

-- What an operation on one order may do to the orders.
abbrev pub Effect : ℕ → Store → Store → Type 0
Effect id s s' =
    (s'.orders ≡ s.orders)
    ⊎ ((order : PlannedOrder) × (order_at id s ≡ some order)
        × (status : PlannedOrderStatus) × Transition order.status status
        × (s'.orders ≡ marked order.id status s.orders))

from_planned :
    (order : PlannedOrder) (status : PlannedOrderStatus)
    → is_status order.status PlannedOrderStatus.planned ≡ true
    → Transition PlannedOrderStatus.planned status
    → Transition order.status status
from_planned order status b t = rw (is_status→eq order.status PlannedOrderStatus.planned b) t

module _ (env : Environment) (id : ℕ) (s : Store) where
  execute-Effect : Effect id s (execute env id s).1
  unfolding execute simulate reject
  execute-Effect = elim (Option-cases (order_at id s)) [
    | inl n ↦ inl (ground arith)
    | inr (order, f) ↦ elim (Option-cases (virtual_trade_of order.id s)) [
      | inr (t, v) ↦ inl (ground arith)
      | inl v ↦ elim (Bool-cases (is_status order.status PlannedOrderStatus.planned)) [
        | inr b ↦ inl (ground arith)
        | inl b ↦ elim (Result-cases (ensure_admitted env order TradeMode.dry_run s).0) [
          | inl (u, p) ↦ inr (
            order,
            f,
            PlannedOrderStatus.simulated,
            from_planned order _ b to_simulated,
            ground (arith, ensure_admitted_ok env order TradeMode.dry_run s p),
          )
          | inr (x, p) ↦ elim (ensure_admitted_err env order TradeMode.dry_run s p) [
            | inl frame ↦ inl (ground arith)
            | inr (rs, q, frame) ↦ inr (
              order,
              f,
              PlannedOrderStatus.risk_rejected,
              from_planned order _ b to_refused,
              ground arith,
            )
          ]
        ]
      ]
    ]
  ]

  submitted-Effect :
      (order : PlannedOrder)
      → order_at id s ≡ some order
      → is_status order.status PlannedOrderStatus.planned ≡ true
      → Effect id s (run_sandbox env order none s).1
  unfolding save_sandbox_execution reject
  submitted-Effect order f b =
      elim (Result-cases (ensure_admitted env order TradeMode.sandbox s).0) [
        | inr (x, p) ↦ elim (ensure_admitted_err env order TradeMode.sandbox s p) [
          | inl frame ↦ inl (ground arith)
          | inr (rs, q, frame) ↦ inr (
            order,
            f,
            PlannedOrderStatus.risk_rejected,
            from_planned order _ b to_refused,
            ground arith,
          )
        ]
        | inl (u, p) ↦
            let s' = (ensure_admitted env order TradeMode.sandbox s).1 in
            elim (Result-cases (env.post_sandbox_order s'.calls (sandbox_request env order))) [
              | inr (x, q) ↦
                  inl (ground (arith, ensure_admitted_ok env order TradeMode.sandbox s p))
              | inl (r, q) ↦
                  elim (Bool-cases
                    (any (λ e. str_eq e.broker_order_id r.broker_order_id) s.executions)) [
                      | inl d ↦
                          inl (ground (arith, ensure_admitted_ok env order TradeMode.sandbox s p))
                      | inr d ↦ inr (
                        order,
                        f,
                        PlannedOrderStatus.submitted,
                        from_planned order _ b to_submitted,
                        ground (arith, ensure_admitted_ok env order TradeMode.sandbox s p),
                      )
                    ]
            ]
      ]

  execute_sandbox-Effect : Effect id s (execute_sandbox env id s).1
  unfolding execute_sandbox
  execute_sandbox-Effect = elim (Option-cases (order_at id s)) [
    | inl n ↦ inl (ground arith)
    | inr (order, f) ↦
        elim (Option-cases (find (λ e. e.planned_order_id == order.id) s.executions)) [
          | inr (x, v) ↦ inl (ground arith)
          | inl v ↦ elim (Bool-cases (is_status order.status PlannedOrderStatus.planned)) [
            | inr b ↦ inl (ground arith)
            | inl b ↦ elim (Bool-cases (sandbox_configured env)) [
              | inr c ↦ inl (ground arith)
              | inl c ↦
                  let same : (run_sandbox env order none s).1 ≡ (execute_sandbox env id s).1 =
                    ground arith in
                  subst (λ (t : Store). Effect id s t) same (submitted-Effect order f b)
            ]
          ]
        ]
  ]

  approve-Effect : Effect id s (approve env id s).1
  approve-Effect = elim (Option-cases (order_at id s)) [
    | inl n ↦ inl (unfold approve in ground arith)
    | inr (order, f) ↦ elim (orders-approve env id s f) [
      | inl e ↦ inl e
      | inr (w, e) ↦ inr (order, f, PlannedOrderStatus.approved, rw w to_approved, e)
    ]
  ]

  reject_order-Effect : Effect id s (reject_order env id s).1
  reject_order-Effect = elim (Option-cases (order_at id s)) [
    | inl n ↦ inl (unfold reject_order in ground arith)
    | inr (order, f) ↦ elim (orders-reject_order env id s f) [
      | inl e ↦ inl e
      | inr (inl w, e) ↦ inr (order, f, PlannedOrderStatus.rejected, rw w waiting_to_rejected, e)
      | inr (inr w, e) ↦ inr (order, f, PlannedOrderStatus.rejected, rw w approved_to_rejected, e)
    ]
  ]

Effect-Moved :
    (id : ℕ) (s s' : Store) → IsKeyed s.orders → Effect id s s' → Moved s.orders s'.orders
Effect-Moved id s s' k (inl e) = rw e (Moved-refl s.orders)
Effect-Moved id s s' k (inr (order, f, status, t, e)) =
    let key : order.id ≡ id = (==_iff order.id id).0 (find_passes (λ o. o.id == id) s.orders f) in
    rw (e, key) (Moved-marked id status s.orders {order = order} k f t)

-- Whatever the operation and its outcome, the orders are the same rows afterwards, and each status
-- is the old one or has changed along a transition.
pub perform-Moved :
    (env : Environment) (op : Operation) (s : Store)
    → IsKeyed s.orders
    → Moved s.orders (perform env op s).orders
perform-Moved env (run_dry id) s k =
    Effect-Moved id s (execute env id s).1 k (execute-Effect env id s)
perform-Moved env (run_in_sandbox id) s k =
    Effect-Moved id s (execute_sandbox env id s).1 k (execute_sandbox-Effect env id s)
perform-Moved env (confirm id) s k =
    Effect-Moved id s (approve env id s).1 k (approve-Effect env id s)
perform-Moved env (turn_down id) s k =
    Effect-Moved id s (reject_order env id s).1 k (reject_order-Effect env id s)
