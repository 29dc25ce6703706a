-- ===== src/Execution/Service/Execute.antt =====
-- When an order is executed, virtually or in the sandbox, and what that writes.
use auto_invest_manager.Base.{
  ℕ, ◌≡◌, refl, sym, ◌∙◌, true, false, Option, none, some, List, [], ◌∷◌, ◌++◌, find, update, arith,
  ok, err, Error, RiskReason, ◌⊎◌, inl, inr, Bool-cases, Option-cases, Result-cases, ◌==◌, ==_iff,
  find_passes, find-update, find-append_none, str_eq, eq_iff,
}
use auto_invest_manager.Models.Enums.{TradeMode, PlannedOrderStatus, is_status, is_status→eq}
use auto_invest_manager.Models.Entities.{SystemSettings, PlannedOrder, VirtualTrade}
use auto_invest_manager.Execution.Dto.{RiskContext}
use auto_invest_manager.Execution.Risk.Admission.{IsAdmissible}
use auto_invest_manager.Execution.Store.{Store, Environment}
use auto_invest_manager.Execution.Repository.{
  virtual_trade_of, simulate, reject, save_sandbox_execution,
}
use auto_invest_manager.Execution.Context.{build_risk_context, to_data}
use auto_invest_manager.Execution.Service.{
  ensure_admitted, execute, execute_sandbox, sandbox_request,
}
use auto_invest_manager.Execution.Service.Safety.{
  build_risk_context_settings, ensure_admitted_ok, ensure_admitted_err,
}

-- The row of `get_order`.
abbrev pub order_at : ℕ → Store → Option PlannedOrder
order_at id s = find (λ o. o.id == id) s.orders

abbrev pub marked : ℕ → PlannedOrderStatus → List PlannedOrder → List PlannedOrder
marked id status = update (λ o. o.id == id) (λ o. record o { status = status })

-- The switches under which an order may be executed in a mode.
abbrev pub IsEnabled : TradeMode → PlannedOrder → Store → Type 0
IsEnabled mode order s =
    (system : SystemSettings) × (s.settings ≡ some system)
    × (system.kill_switch ≡ false)
    × (system.trade_mode ≡ mode)
    × (order.trade_mode ≡ mode)

module _ (env : Environment) (order : PlannedOrder) (mode : TradeMode) (s : Store) where
  admitted-IsEnabled : (ensure_admitted env order mode s).0 ≡ ok tt → IsEnabled mode order s
  admitted-IsEnabled e =
      let (c, built, admissible, _) = ensure_admitted_ok env order mode s e in
      let (system, p, (k, m, r)) = build_risk_context_settings env order mode s built in
      (
        system,
        p,
        sym k ∙ admissible.kill_switch,
        sym m ∙ (admissible.system_mode ∙ r),
        admissible.order_mode ∙ r,
      )

  planned_of :
      is_status order.status PlannedOrderStatus.planned ≡ true
      → order.status ≡ PlannedOrderStatus.planned
  planned_of h = is_status→eq _ _ h

module _ (env : Environment) (id : ℕ) (s : Store) where
  -- A first virtual execution that succeeds: the order was planned, the switches allow dry-run, the
  -- risk check admitted the order, and exactly one trade for the whole order is recorded; nothing
  -- is posted to the broker.
  pub execute_ok :
      {order : PlannedOrder} {trade : VirtualTrade}
      → order_at id s ≡ some order
      → virtual_trade_of order.id s ≡ none
      → (execute env id s).0 ≡ ok trade
      → let s' = (execute env id s).1 in
        (order.status ≡ PlannedOrderStatus.planned)
        × IsEnabled TradeMode.dry_run order s
        × ((c : RiskContext) × ((build_risk_context env order TradeMode.dry_run s).0 ≡ ok c)
            × IsAdmissible (to_data order) c)
        × (s'.trades ≡ s.trades ++ trade ∷ [])
        × (trade.planned_order_id ≡ order.id)
        × (trade.lots ≡ order.lots)
        × (s'.orders ≡ marked order.id PlannedOrderStatus.simulated s.orders)
        × (s'.posted ≡ s.posted)
  unfolding execute simulate
  execute_ok {order} {trade} f v e =
      elim (Result-cases (ensure_admitted env order TradeMode.dry_run s).0) [
        | inr (x, p) ↦ absurd (ground arith)
        | inl (u, p) ↦
            let (c, built, admissible, frame) =
              ensure_admitted_ok env order TradeMode.dry_run s p in
            (
              ground arith,
              admitted-IsEnabled env order TradeMode.dry_run s p,
              (c, built, admissible),
              ground arith,
              ground arith,
              ground arith,
              ground arith,
              ground arith,
            )
      ]

  -- Whatever its outcome, a virtual execution posts nothing to the broker.
  pub posted-execute : (execute env id s).1.posted ≡ s.posted
  unfolding execute simulate reject
  posted-execute = elim (Option-cases (order_at id s)) [
    | inl n ↦ ground arith
    | inr (order, f) ↦ elim (Result-cases (ensure_admitted env order TradeMode.dry_run s).0) [
      | inl (u, p) ↦ ground (arith, ensure_admitted_ok env order TradeMode.dry_run s p)
      | inr (x, p) ↦ elim (ensure_admitted_err env order TradeMode.dry_run s p) [
        | inl frame ↦ ground arith
        | inr (rs, q, frame) ↦ ground arith
      ]
    ]
  ]

  -- A virtual execution that raises records no trade, and leaves every order as it was or marks
  -- this one as refused by the risk check.
  pub execute_err :
      {x : Error}
      → (execute env id s).0 ≡ err x
      → let s' = (execute env id s).1 in
        (s'.trades ≡ s.trades)
        × ((s'.orders ≡ s.orders)
            ⊎ ((rs : List RiskReason) × (x ≡ Error.risk_rejected rs)
                × (s'.orders ≡ marked id PlannedOrderStatus.risk_rejected s.orders)))
  unfolding execute simulate reject
  execute_err {x} e = elim (Option-cases (order_at id s)) [
    | inl n ↦ (ground arith, inl (ground arith))
    | inr (order, f) ↦ elim (Option-cases (virtual_trade_of order.id s)) [
      | inr (t, v) ↦ absurd (ground arith)
      | inl v ↦ elim (Bool-cases (is_status order.status PlannedOrderStatus.planned)) [
        | inr b ↦ (ground arith, inl (ground arith))
        | inl b ↦ elim (Result-cases (ensure_admitted env order TradeMode.dry_run s).0) [
          | inl (u, p) ↦ absurd (ground (arith, ensure_admitted_ok env order TradeMode.dry_run s p))
          | inr (y, p) ↦ elim (ensure_admitted_err env order TradeMode.dry_run s p) [
            | inl frame ↦ (ground arith, inl (ground arith))
            | inr (rs, q, frame) ↦ (
              ground arith,
              inr (
                rs,
                ground arith,
                ground (arith, ==_iff order.id id, find_passes (λ o. o.id == id) s.orders f),
              ),
            )
          ]
        ]
      ]
    ]
  ]

-- The row of an order after a change of its status.
pub order_at-marked :
    (id : ℕ) (status : PlannedOrderStatus) (orders : List PlannedOrder) {order : PlannedOrder}
    → find (λ o. o.id == id) orders ≡ some order
    → find (λ o. o.id == id) (marked order.id status orders)
      ≡ some (record order { status = status })
order_at-marked id status orders {order} f =
    find-update (λ o. o.id == id) (λ o. o.id == order.id) (λ o. record o { status = status }) orders
      (λ o. refl)
    ∙ rw f (ground arith)

execute_existing :
    (env : Environment) (id : ℕ) (s : Store) {order : PlannedOrder} {trade : VirtualTrade}
    → order_at id s ≡ some order
    → virtual_trade_of order.id s ≡ some trade
    → execute env id s ≡ (ok trade, s)
unfolding execute
execute_existing env id s f v = ground arith

find_last_trade :
    (trades : List VirtualTrade) (trade : VirtualTrade) (k : ℕ)
    → find (λ t. t.planned_order_id == k) trades ≡ none
    → trade.planned_order_id ≡ k
    → find (λ t. t.planned_order_id == k) (trades ++ trade ∷ []) ≡ some trade
find_last_trade trades trade k h e =
    find-append_none (λ t. t.planned_order_id == k) trades (trade ∷ []) h ∙ ground arith

execute_missing :
    (env : Environment) (id : ℕ) (s : Store)
    → order_at id s ≡ none
    → (execute env id s).0 ≡ err Error.resource_not_found
unfolding execute
execute_missing env id s n = ground arith

-- Executing an order again returns the trade that was recorded, and changes nothing.
pub execute_again :
    (env : Environment) (id : ℕ) (s : Store) {trade : VirtualTrade}
    → (execute env id s).0 ≡ ok trade
    → execute env id (execute env id s).1 ≡ (ok trade, (execute env id s).1)
execute_again env id s {trade} e = elim (Option-cases (order_at id s)) [
  | inl n ↦ absurd (ground (arith, execute_missing env id s n))
  | inr (order, f) ↦ elim (Option-cases (virtual_trade_of order.id s)) [
    | inr (t, v) ↦
        let same = execute_existing env id s f v in
        let t-eq : t ≡ trade = ground arith in rw same (rw same (ground arith))
    | inl v ↦
        let (_, _, _, trades, owner, _, orders, _) = execute_ok env id s f v e in
        execute_existing env id (execute env id s).1
          {order = record order { status = PlannedOrderStatus.simulated }}
          (rw orders (order_at-marked id PlannedOrderStatus.simulated s.orders f))
          (rw trades (find_last_trade s.trades trade order.id v owner))
  ]
]

module _ (env : Environment) (id : ℕ) (s : Store) where
  -- What a sandbox execution does to the broker: it posts nothing, or one request for the order,
  -- and then the configuration is that of the sandbox, the order was planned and had no execution,
  -- the switches allow the sandbox, and the risk check admitted the order.
  pub posted-execute_sandbox :
      let s' = (execute_sandbox env id s).1 in
      (s'.posted ≡ s.posted)
      ⊎ ((order : PlannedOrder) × (order_at id s ≡ some order)
          × (s'.posted ≡ s.posted ++ sandbox_request env order ∷ [])
          × (env.broker_provider ≡ "tinvest")
          × (env.tinvest_target ≡ "sandbox")
          × (order.status ≡ PlannedOrderStatus.planned)
          × (find (λ e. e.planned_order_id == order.id) s.executions ≡ none)
          × IsEnabled TradeMode.sandbox order s
          × ((c : RiskContext) × ((build_risk_context env order TradeMode.sandbox s).0 ≡ ok c)
              × IsAdmissible (to_data order) c))
  unfolding execute_sandbox save_sandbox_execution reject
  posted-execute_sandbox = elim (Option-cases (order_at id s)) [
    | inl n ↦ inl (ground arith)
    | inr (order, f) ↦
        elim (Option-cases (find (λ e. e.planned_order_id == order.id) s.executions)) [
          | inr (x, v) ↦ inl (ground arith)
          | inl v ↦ elim (Bool-cases (is_status order.status PlannedOrderStatus.planned)) [
            | inr b ↦ inl (ground arith)
            | inl b ↦ elim (Bool-cases (str_eq env.broker_provider "tinvest")) [
              | inr c ↦ inl (ground arith)
              | inl c ↦ elim (Bool-cases (str_eq env.tinvest_target "sandbox")) [
                | inr d ↦ inl (ground arith)
                | inl d ↦ elim (Result-cases (ensure_admitted env order TradeMode.sandbox s).0) [
                  | inr (y, p) ↦ elim (ensure_admitted_err env order TradeMode.sandbox s p) [
                    | inl frame ↦ inl (ground arith)
                    | inr (rs, q, frame) ↦ inl (ground arith)
                  ]
                  | inl (u, p) ↦
                      let (ctx, built, admissible, frame) =
                        ensure_admitted_ok env order TradeMode.sandbox s p in
                      inr (
                        order,
                        f,
                        ground arith,
                        (eq_iff _ _).0 c,
                        (eq_iff _ _).0 d,
                        is_status→eq _ _ b,
                        v,
                        admitted-IsEnabled env order TradeMode.sandbox s p,
                        (ctx, built, admissible),
                      )
                ]
              ]
            ]
          ]
        ]
  ]
