-- ===== src/Automation/Service/Phases.antt =====
-- app/automation/service.py: the phases of the pipeline keep to the calls that the settings allow.
use auto_invest_manager.Base.{
  ℕ, Bool, true, false, ◌≡◌, refl, List, [], keep, String, Action, arith,
}
use auto_invest_manager.Models.Enums.{TradeMode, AutomationStep, is_mode}
use auto_invest_manager.Models.Entities.{SystemSettings, RebalancePlan, PlannedOrder}
use auto_invest_manager.Redis.{Redis}
use auto_invest_manager.Automation.Lock.{LockLease}
use auto_invest_manager.Automation.Store.{
  Cycle, Services, Config, Call, BrokerAccountData, AutomationCycleResult,
}
use auto_invest_manager.Automation.Pipeline.{
  succeed, run_pipeline, is_actionable, market_is_open, conclude, execute_mode, plan_and_execute,
  rebalance,
}
use auto_invest_manager.Automation.Service.{acquire_lock, release_lock, finally}
use auto_invest_manager.Base.Keeping.{Keeps, Keeps-bind, Keeps-then, Keeps-pure, Keeps-raise_if}
use auto_invest_manager.Automation.Service.Calls.{
  is_allowed, IsAllowed, K-call, K-retrying, K-step, K-counted, K-audit, K-notify_if, K-if,
  K-branch, K-succeed, K-skip, K-each, K-open_for,
}

module _ (R : Redis) (services : Services) (config : Config) (st : SystemSettings) where
  abbrev K : {A : Type 0} → Action (Cycle R) A → Type 0
  K m = Keeps (IsAllowed R services config st) m

  pub K-conclude :
      (id : ℕ) (actor : String) (mode : TradeMode) (orders : List PlannedOrder)
      → K (conclude R services config id actor mode orders)
  unfolding conclude
  K-conclude id actor mode orders =
      Keeps-then (IsAllowed R services config st) _ _
        (Keeps-then (IsAllowed R services config st) _ _
          (Keeps-then (IsAllowed R services config st) _ _
            (K-if R services config st _ _ _ (K-audit R services config st _ actor id)
              (Keeps-pure (IsAllowed R services config st) tt))
            (K-notify_if R services config st _ _))
          (K-step R services config st id AutomationStep.final_reconciliation))
        (K-succeed R services config st id actor [])

  pub K-execute_mode :
      (id : ℕ) (actor : String) (mode : TradeMode) (orders : List PlannedOrder)
      → st.trade_mode ≡ mode
      → st.kill_switch ≡ false
      → K (execute_mode R services config id actor mode orders)
  unfolding execute_mode is_allowed
  K-execute_mode id actor TradeMode.dry_run orders p q =
      Keeps-then (IsAllowed R services config st) _ _
        (Keeps-then (IsAllowed R services config st) _ _
          (K-each R services config st _
            (λ o.
              K-call R services config st (Call.execute o.id) (λ n. services.execute n o.id)
                (ground arith))
            orders)
          (K-counted R services config st id _))
        (K-conclude id actor TradeMode.dry_run orders)
  K-execute_mode id actor TradeMode.sandbox orders p q =
      Keeps-then (IsAllowed R services config st) _ _
        (Keeps-then (IsAllowed R services config st) _ _
          (K-each R services config st _
            (λ o.
              K-call R services config st (Call.execute_sandbox o.id)
                (λ n. services.execute_sandbox n o.id) (ground arith))
            orders)
          (K-counted R services config st id _))
        (K-conclude id actor TradeMode.sandbox orders)
  K-execute_mode id actor TradeMode.real_manual_confirm orders p q =
      Keeps-then (IsAllowed R services config st) _ _
        (Keeps-raise_if (IsAllowed R services config st) _ _)
        (K-conclude id actor TradeMode.real_manual_confirm orders)
  K-execute_mode id actor TradeMode.off orders p q = K-skip R services config st id actor _
  K-execute_mode id actor TradeMode.signal_only orders p q = K-skip R services config st id actor _
  K-execute_mode id actor TradeMode.real_auto_safe orders p q =
      K-skip R services config st id actor _

  pub K-plan_and_execute :
      (id : ℕ) (actor : String) (mode : TradeMode) (plan : RebalancePlan)
      → st.trade_mode ≡ mode
      → st.kill_switch ≡ false
      → is_allowed st (Call.plan_orders plan.id) ≡ true
      → K (plan_and_execute R services config id actor mode plan)
  unfolding plan_and_execute
  K-plan_and_execute id actor mode plan p q h =
      Keeps-bind (IsAllowed R services config st) _ _
        (Keeps-then (IsAllowed R services config st) _ _ (K-step R services config st id _) (
          K-call R services config st (Call.plan_orders plan.id)
            (λ n. services.plan_orders n plan.id) h))
        λ orders.
          Keeps-then (IsAllowed R services config st) _ _
            (Keeps-then (IsAllowed R services config st) _ _
              (Keeps-then (IsAllowed R services config st) _ _
                (Keeps-then (IsAllowed R services config st) _ _
                  (K-counted R services config st id _)
                  (K-if R services config st _ _ _ (K-audit R services config st _ actor id)
                    (Keeps-pure (IsAllowed R services config st) tt)))
                (K-notify_if R services config st _ _))
              (K-step R services config st id _))
            (K-execute_mode id actor mode orders p q)

  pub K-finally :
      {A : Type 0} (lease : LockLease) (m : Action (Cycle R) A)
      → K m
      → K (finally R services config m (release_lock R services config lease))
  unfolding Keeps IsAllowed
  K-finally lease m hm s h = hm s h

  pub K-acquire : (account : String) → K (acquire_lock R services config account)
  unfolding Keeps IsAllowed
  K-acquire account s h = h

  pub K-rebalance :
      (id : ℕ) (actor : String) (mode : TradeMode)
      → st.trade_mode ≡ mode
      → is_mode mode TradeMode.off ≡ false
      → is_mode mode TradeMode.signal_only ≡ false
      → st.kill_switch ≡ false
      → K (rebalance R services config id actor mode)
  unfolding rebalance market_is_open is_allowed
  K-rebalance id actor mode p off only q =
      Keeps-bind (IsAllowed R services config st) _ _
        (Keeps-then (IsAllowed R services config st) _ _ (K-step R services config st id _)
          (K-call R services config st Call.create_plan services.create_plan (ground arith)))
        λ plan.
          Keeps-bind (IsAllowed R services config st) _ _
            (Keeps-then (IsAllowed R services config st) _ _ (K-counted R services config st id _) (
              K-open_for R services config st actor (λ uid. ground arith)
                (keep is_actionable plan.allocations)))
            λ open'.
              K-branch R services config st open' _ _
                (K-plan_and_execute id actor mode plan p q (ground arith))
                (K-succeed R services config st id actor _)

  pub K-run_pipeline :
      (id : ℕ) (actor : String) (mode : TradeMode) (account : BrokerAccountData)
      → st.trade_mode ≡ mode
      → is_mode mode TradeMode.off ≡ false
      → st.kill_switch ≡ false
      → K (run_pipeline R services config id actor mode account)
  unfolding run_pipeline is_allowed
  K-run_pipeline id actor mode account p off q =
      Keeps-bind (IsAllowed R services config st) _ _
        (Keeps-then (IsAllowed R services config st) _ _ (K-step R services config st id _) (
          K-retrying R services config st config.retry (Call.get_portfolio account.account_id)
            (λ n. services.get_portfolio n account.account_id) (ground arith)))
        λ portfolio.
          Keeps-bind (IsAllowed R services config st) _ _
            (Keeps-then (IsAllowed R services config st) _ _
              (Keeps-then (IsAllowed R services config st) _ _
                (Keeps-then (IsAllowed R services config st) _ _
                  (K-call R services config st Call.save_broker_state
                    (λ n.
                      services.save_broker_state n account portfolio
                        (is_mode mode TradeMode.sandbox))
                    (ground arith))
                  (K-step R services config st id _))
                (K-step R services config st id _))
              (K-call R services config st Call.run_signals services.run_signals (ground arith)))
            λ signals.
              Keeps-then (IsAllowed R services config st) _ _
                (Keeps-then (IsAllowed R services config st) _ _ (K-step R services config st id _)
                  (K-counted R services config st id _))
                (pipeline-branch (is_mode mode TradeMode.signal_only) refl)
    where
      pipeline-branch :
          (b : Bool)
          → is_mode mode TradeMode.signal_only ≡ b
          → K (elim b as (λ c. Action (Cycle R) AutomationCycleResult) [
            | true ↦ succeed R services config id actor []
            | false ↦ rebalance R services config id actor mode
          ])
      pipeline-branch true e = K-succeed R services config st id actor []
      pipeline-branch false e = K-rebalance id actor mode p off e q
