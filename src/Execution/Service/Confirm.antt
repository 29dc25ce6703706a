-- ===== src/Execution/Service/Confirm.antt =====
-- The manual confirmation of an order.
use auto_invest_manager.Base.{ℕ, ◌≡◌, ◌↔◌, ◌⊎◌, inl, inr, true, Bool-cases, some, arith, ok}
use auto_invest_manager.Models.Enums.{
  TradeMode, PlannedOrderStatus, is_status, is_status→eq, is_mode, is_mode→eq,
}
use auto_invest_manager.Models.Entities.{PlannedOrder}
use auto_invest_manager.Execution.Store.{Store, Environment}
use auto_invest_manager.Execution.Repository.{set_confirmation_status}
use auto_invest_manager.Execution.Service.{approve, reject_order, is_manual}
use auto_invest_manager.Execution.Service.Execute.{order_at, marked}

-- The order and the system are both in manual confirmation.
abbrev pub IsManual : Environment → PlannedOrder → Store → Type 0
IsManual env order s =
    (order.trade_mode ≡ TradeMode.real_manual_confirm) × (is_manual env s.settings ≡ true)

module _ (env : Environment) (id : ℕ) (s : Store) {order : PlannedOrder}
    (f : order_at id s ≡ some order) where
  -- An order is rejected by hand exactly when it and the system are in manual confirmation and it
  -- waits or was approved.
  pub reject_order_iff :
      ((reject_order env id s).0 ≡ ok (record order { status = PlannedOrderStatus.rejected })) ↔ (
        IsManual env order s
        × ((order.status ≡ PlannedOrderStatus.waiting_confirmation)
            ⊎ (order.status ≡ PlannedOrderStatus.approved)))
  unfolding reject_order set_confirmation_status
  reject_order_iff = (
    λ e. elim (Bool-cases (is_mode order.trade_mode TradeMode.real_manual_confirm)) [
      | inr b ↦ absurd (ground arith)
      | inl b ↦ elim (Bool-cases (is_manual env s.settings)) [
        | inr c ↦ absurd (ground arith)
        | inl c ↦
            elim (Bool-cases (is_status order.status PlannedOrderStatus.waiting_confirmation)) [
              | inl d ↦ ((is_mode→eq _ _ b, c), inl (is_status→eq _ _ d))
              | inr d ↦ elim (Bool-cases (is_status order.status PlannedOrderStatus.approved)) [
                | inl g ↦ ((is_mode→eq _ _ b, c), inr (is_status→eq _ _ g))
                | inr g ↦ absurd (ground arith)
              ]
            ]
      ]
    ],
    λ h. ground arith,
  )

  -- What the two methods do to the orders: nothing, or the change of status that they return.
  pub orders-approve :
      ((approve env id s).1.orders ≡ s.orders)
      ⊎ ((order.status ≡ PlannedOrderStatus.waiting_confirmation)
          × ((approve env id s).1.orders ≡ marked order.id PlannedOrderStatus.approved s.orders))
  unfolding approve set_confirmation_status
  orders-approve = elim (Bool-cases (is_mode order.trade_mode TradeMode.real_manual_confirm)) [
    | inr b ↦ inl (ground arith)
    | inl b ↦ elim (Bool-cases (is_manual env s.settings)) [
      | inr c ↦ inl (ground arith)
      | inl c ↦ elim (Bool-cases (is_status order.status PlannedOrderStatus.waiting_confirmation)) [
        | inr d ↦ inl (ground arith)
        | inl d ↦ inr (is_status→eq _ _ d, ground arith)
      ]
    ]
  ]

  pub orders-reject_order :
      ((reject_order env id s).1.orders ≡ s.orders)
      ⊎ (((order.status ≡ PlannedOrderStatus.waiting_confirmation)
            ⊎ (order.status ≡ PlannedOrderStatus.approved))
          × ((reject_order env id s).1.orders
              ≡ marked order.id PlannedOrderStatus.rejected s.orders))
  unfolding reject_order set_confirmation_status
  orders-reject_order = elim (Bool-cases (is_mode order.trade_mode TradeMode.real_manual_confirm)) [
    | inr b ↦ inl (ground arith)
    | inl b ↦ elim (Bool-cases (is_manual env s.settings)) [
      | inr c ↦ inl (ground arith)
      | inl c ↦ elim (Bool-cases (is_status order.status PlannedOrderStatus.waiting_confirmation)) [
        | inl d ↦ inr (inl (is_status→eq _ _ d), ground arith)
        | inr d ↦ elim (Bool-cases (is_status order.status PlannedOrderStatus.approved)) [
          | inl g ↦ inr (inr (is_status→eq _ _ g), ground arith)
          | inr g ↦ inl (ground arith)
        ]
      ]
    ]
  ]
