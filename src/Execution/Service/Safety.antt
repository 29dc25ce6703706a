-- ===== src/Execution/Service/Safety.antt =====
-- What the risk check before an execution reads, and that it writes nothing.
use auto_invest_manager.Base.{
  ◌≡◌, Option, some, List, arith, ok, err, Action, ◌⊎◌, inl, inr, Option-cases, find, ◌==◌,
  Result-cases, Error, RiskReason,
}
use auto_invest_manager.Models.Enums.{TradeMode}
use auto_invest_manager.Models.Entities.{SystemSettings, RiskProfile, WatchlistItem, PlannedOrder}
use auto_invest_manager.Execution.Dto.{RiskContext}
use auto_invest_manager.Execution.Risk.{evaluate}
use auto_invest_manager.Execution.Risk.Admission.{IsAdmissible, evaluate_allowed_iff}
use auto_invest_manager.Execution.Repository.{reject}
use auto_invest_manager.Execution.Store.{Store, Environment}
use auto_invest_manager.Execution.Context.{build_risk_context, to_data, risk_context, ask_broker}
use auto_invest_manager.Execution.Service.{ensure_admitted}

-- The action may ask the broker or the clock; it writes nothing.
abbrev pub ReadsOnly : {A : Type 0} → Action Store A → Type 0
ReadsOnly m = (s : Store) → (m s).1 ≡ record s { calls = (m s).1.calls }

module _ (env : Environment) (order : PlannedOrder) (mode : TradeMode) where
  ask_broker-ReadsOnly :
      (system : SystemSettings) (risk : RiskProfile) (w : Option WatchlistItem)
      → ReadsOnly (ask_broker env order mode system risk w)
  unfolding ask_broker
  ask_broker-ReadsOnly system risk w s = ground arith

  pub build_risk_context-ReadsOnly : ReadsOnly (build_risk_context env order mode)
  unfolding build_risk_context
  build_risk_context-ReadsOnly s = elim (Option-cases s.settings) [
    | inl n ↦ ground arith
    | inr (system, p) ↦ elim (Option-cases (find (λ r. r.is_active) s.risk_profiles)) [
      | inl n ↦ ground arith
      | inr (risk, q) ↦ ground (
        arith,
        ask_broker-ReadsOnly system risk
            (find (λ w. w.instrument_id == order.instrument_id) s.watchlist) s,
      )
    ]
  ]

  abbrev HasSwitches : SystemSettings → RiskContext → Type 0
  HasSwitches system c =
      (c.kill_switch ≡ system.kill_switch)
      × (c.trade_mode ≡ system.trade_mode)
      × (c.required_trade_mode ≡ mode)

  ask_broker-HasSwitches :
      (system : SystemSettings) (risk : RiskProfile) (w : Option WatchlistItem) (s : Store)
      {c : RiskContext}
      → (ask_broker env order mode system risk w s).0 ≡ ok c
      → HasSwitches system c
  unfolding ask_broker risk_context
  ask_broker-HasSwitches system risk w s e = ground arith

  -- A context that was built has the switches of the settings.
  pub build_risk_context_settings :
      (s : Store) {c : RiskContext}
      → (build_risk_context env order mode s).0 ≡ ok c
      → (system : SystemSettings) × (s.settings ≡ some system) × HasSwitches system c
  unfolding build_risk_context
  build_risk_context_settings s {c} e = elim (Option-cases s.settings) [
    | inl n ↦ absurd (ground arith)
    | inr (system, p) ↦ elim (Option-cases (find (λ r. r.is_active) s.risk_profiles)) [
      | inl n ↦ absurd (ground arith)
      | inr (risk, q) ↦ (
        system,
        p,
        ask_broker-HasSwitches system risk
            (find (λ w. w.instrument_id == order.instrument_id) s.watchlist) s {c = c}
            (ground arith),
      )
    ]
  ]

  -- The check passes only in a context that the order is admissible in, and writes nothing then.
  pub ensure_admitted_ok :
      (s : Store)
      → (ensure_admitted env order mode s).0 ≡ ok tt
      → (c : RiskContext) × ((build_risk_context env order mode s).0 ≡ ok c)
        × IsAdmissible (to_data order) c
        × ((ensure_admitted env order mode s).1
            ≡ record s { calls = (ensure_admitted env order mode s).1.calls })
  unfolding ensure_admitted
  ensure_admitted_ok s e = elim (Result-cases (build_risk_context env order mode s).0) [
    | inr (x, p) ↦ absurd (ground arith)
    | inl (c, p) ↦ elim (Result-cases (evaluate (to_data order) c)) [
      | inr (x, q) ↦ absurd (ground arith)
      | inl (d, q) ↦ (
        c,
        p,
        (evaluate_allowed_iff (to_data order) c q).0 (ground arith),
        ground (arith, build_risk_context-ReadsOnly s),
      )
    ]
  ]

  -- A check that raises has written nothing, or it has marked the order as refused.
  pub ensure_admitted_err :
      (s : Store) {x : Error}
      → (ensure_admitted env order mode s).0 ≡ err x
      → let s' = (ensure_admitted env order mode s).1 in
        (s' ≡ record s { calls = s'.calls })
        ⊎ ((rs : List RiskReason) × (x ≡ Error.risk_rejected rs)
            × (s' ≡ (reject order rs (record s { calls = s'.calls })).1))
  unfolding ensure_admitted reject
  ensure_admitted_err s e = elim (Result-cases (build_risk_context env order mode s).0) [
    | inr (y, p) ↦ inl (ground (arith, build_risk_context-ReadsOnly s))
    | inl (c, p) ↦ elim (Result-cases (evaluate (to_data order) c)) [
      | inr (y, q) ↦ inl (ground (arith, build_risk_context-ReadsOnly s))
      | inl (d, q) ↦ inr (d.reasons, ground arith, ground (arith, build_risk_context-ReadsOnly s))
    ]
  ]
