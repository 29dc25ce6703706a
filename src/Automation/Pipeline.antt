-- ===== src/Automation/Pipeline.antt =====
-- app/automation/service.py: the pipeline of a cycle, over any services and any Redis server. A
-- failed notification is logged and not raised, so a notification always goes through.
use auto_invest_manager.Base.{
  ℕ, Bool, true, false, ◌&&◌, ◌||◌, not, Option, none, some, List, [], ◌∷◌, String, str_eq, ltb,
  keep, any, length, if◌then◌else◌, Result, ok, err, Error, Action, pure, modify, raise_if, ◌>>=◌,
  ◌>>◌,
}
use auto_invest_manager.Models.Enums.{
  TradeMode, AutomationRunStatus, AutomationStep, AllocationAction, PlannedOrderStatus, is_mode,
  is_status,
}
use auto_invest_manager.Models.Entities.{
  AutomationRun, RebalancePlan, TargetAllocation, PlannedOrder,
}
use auto_invest_manager.Execution.Dto.{TradingStatusData}
use auto_invest_manager.Redis.{Redis}
use auto_invest_manager.Automation.Store.{
  Cycle, Services, Config, Call, BrokerAccountData, AutomationCycleResult, call, retrying, notify,
}
use auto_invest_manager.Automation.Repository.{audit_rejected, update_run, update_step, finish}

abbrev pub result_of : ℕ → AutomationRunStatus → Option String → AutomationCycleResult
result_of id status reason = record { run_id = id; status = status; reason = reason }

-- The first account of that id.
abbrev pub pick_account : String → List BrokerAccountData → Result BrokerAccountData
pick_account preferred [] = err Error.value_error
pick_account preferred (a ∷ as') =
    if str_eq a.account_id preferred then ok a else pick_account preferred as'

unfoldable pub select_account : Option String → List BrokerAccountData → Result BrokerAccountData
select_account (some preferred) accounts = pick_account preferred accounts
select_account none [] = err Error.value_error
select_account none (a ∷ []) = ok a
select_account none (a ∷ b ∷ rest) = err Error.value_error

abbrev pub is_trade : AllocationAction → Bool
is_trade AllocationAction.buy = true
is_trade AllocationAction.sell = true
is_trade AllocationAction.hold = false

abbrev pub is_actionable : TargetAllocation → Bool
is_actionable a = is_trade a.action && ltb 0 a.recommended_lots

abbrev pub is_not_waiting : PlannedOrder → Bool
is_not_waiting order = not (is_status order.status PlannedOrderStatus.waiting_confirmation)

module _ (R : Redis) (services : Services) (config : Config) where
  abbrev pub each :
      {A : Type 0} → (A → Action (Cycle R) (Unit {0})) → List A → Action (Cycle R) (Unit {0})
  each f [] = pure tt
  each f (x ∷ xs) = f x >> each f xs

  unfoldable pub succeed :
      ℕ → String → List (String × String) → Action (Cycle R) AutomationCycleResult
  succeed id actor metadata =
      update_step R services id AutomationStep.completed
      >> finish R services id AutomationRunStatus.succeeded actor none none metadata
      >> pure (result_of id AutomationRunStatus.succeeded none)

  abbrev pub is_safety_reason : String → Bool
  is_safety_reason reason = str_eq reason "trade_mode_off" || str_eq reason "kill_switch_enabled"

  abbrev pub notify_if : Bool → String → Action (Cycle R) (Unit {0})
  notify_if false title = pure tt
  notify_if true title = notify R title

  unfoldable pub skip : ℕ → String → String → Action (Cycle R) AutomationCycleResult
  skip id actor reason =
      finish R services id AutomationRunStatus.skipped actor none none (("reason", reason) ∷ [])
      >> notify_if (is_safety_reason reason) "Automation остановлена safety check"
      >> pure (result_of id AutomationRunStatus.skipped (some reason))

  unfoldable pub fail_run : ℕ → String → String → String → Action (Cycle R) (Unit {0})
  fail_run id actor code safe_message =
      finish R services id AutomationRunStatus.failed actor (some code) (some safe_message) []
      >> notify R "Automation cycle failed"

  abbrev pub is_tradable : TradingStatusData → Bool
  is_tradable status = status.api_trade_available && status.limit_order_available

  -- The loop of `_market_is_open` over the actionable allocations.
  abbrev pub open_for : String → List TargetAllocation → Action (Cycle R) Bool
  open_for actor [] = pure true
  open_for actor (a ∷ rest) =
      let uid = a.instrument.instrument_uid in
      retrying R services config.retry (Call.get_trading_status uid)
        (λ n. services.get_trading_status n uid)
      >>= λ status. elim (is_tradable status) [
        | true ↦ open_for actor rest
        | false ↦ audit_rejected R "automation.safety.rejected" actor 0 >> pure false
      ]

  unfoldable pub market_is_open : RebalancePlan → String → Action (Cycle R) Bool
  market_is_open plan actor = open_for actor (keep is_actionable plan.allocations)

  abbrev pub execute_one : PlannedOrder → Action (Cycle R) (Unit {0})
  execute_one order = call R services (Call.execute order.id) (λ n. services.execute n order.id)

  abbrev pub execute_one_sandbox : PlannedOrder → Action (Cycle R) (Unit {0})
  execute_one_sandbox order =
      call R services (Call.execute_sandbox order.id) (λ n. services.execute_sandbox n order.id)

  abbrev pub counted : ℕ → (AutomationRun → AutomationRun) → Action (Cycle R) (Unit {0})
  counted id f = modify (update_run R id f)

  -- The end of `_run_pipeline`, after the branch on the mode.
  unfoldable pub conclude :
      ℕ → String → TradeMode → List PlannedOrder → Action (Cycle R) AutomationCycleResult
  conclude id actor mode orders =
      let report =
        (is_mode mode TradeMode.dry_run || is_mode mode TradeMode.sandbox)
        && ltb 0 (length orders) in
      (if report then audit_rejected R "automation.execution.completed" actor id else pure tt)
      >> notify_if report "Automation execution завершён"
      >> update_step R services id AutomationStep.final_reconciliation
      >> succeed id actor []

  -- The branch of `_run_pipeline` on the mode.
  unfoldable pub execute_mode :
      ℕ → String → TradeMode → List PlannedOrder → Action (Cycle R) AutomationCycleResult
  execute_mode id actor TradeMode.dry_run orders =
      each execute_one orders
      >> counted id (λ r. record r { virtual_trades_count = length orders })
      >> conclude id actor TradeMode.dry_run orders
  execute_mode id actor TradeMode.sandbox orders =
      each execute_one_sandbox orders
      >> counted id (λ r. record r { executed_orders_count = length orders })
      >> conclude id actor TradeMode.sandbox orders
  execute_mode id actor TradeMode.real_manual_confirm orders =
      raise_if (any is_not_waiting orders) Error.runtime
      >> conclude id actor TradeMode.real_manual_confirm orders
  execute_mode id actor TradeMode.off orders = skip id actor "unsupported_trade_mode"
  execute_mode id actor TradeMode.signal_only orders = skip id actor "unsupported_trade_mode"
  execute_mode id actor TradeMode.real_auto_safe orders = skip id actor "unsupported_trade_mode"

  -- `_run_pipeline` from the planning of the orders on.
  unfoldable pub plan_and_execute :
      ℕ → String → TradeMode → RebalancePlan → Action (Cycle R) AutomationCycleResult
  plan_and_execute id actor mode plan =
      update_step R services id AutomationStep.execution_planning
      >> call R services (Call.plan_orders plan.id) (λ n. services.plan_orders n plan.id)
      >>= λ orders.
          counted id (λ r. record r { planned_orders_count = length orders })
          >> (if ltb 0 (length orders)
              then audit_rejected R "automation.orders.planned" actor id
              else pure tt)
          >> notify_if (ltb 0 (length orders)) "Automation создала заявки"
          >> update_step R services id AutomationStep.mode_execution
          >> execute_mode id actor mode orders

  -- `_run_pipeline` from the rebalance plan on.
  unfoldable pub rebalance : ℕ → String → TradeMode → Action (Cycle R) AutomationCycleResult
  rebalance id actor mode =
      update_step R services id AutomationStep.rebalance_planning
      >> call R services Call.create_plan services.create_plan
      >>= λ plan.
          counted id (λ r. record r { rebalance_plan_id = some plan.id })
          >> market_is_open plan actor
          >>= λ open'. elim open' [
            | false ↦ succeed id actor (("execution_skipped", "market_closed") ∷ [])
            | true ↦ plan_and_execute id actor mode plan
          ]

  unfoldable pub run_pipeline :
      ℕ → String → TradeMode → BrokerAccountData → Action (Cycle R) AutomationCycleResult
  run_pipeline id actor mode account =
      update_step R services id AutomationStep.portfolio_sync
      >> retrying R services config.retry (Call.get_portfolio account.account_id)
          (λ n. services.get_portfolio n account.account_id)
      >>= λ portfolio.
          call R services Call.save_broker_state
            (λ n. services.save_broker_state n account portfolio (is_mode mode TradeMode.sandbox))
          >> update_step R services id AutomationStep.market_data_sync
          >> update_step R services id AutomationStep.signal_analysis
          >> call R services Call.run_signals services.run_signals
          >>= λ signals.
              update_step R services id AutomationStep.portfolio_optimization
              >> counted id (λ r. record r { signals_count = signals })
              >> elim (is_mode mode TradeMode.signal_only) [
                | true ↦ succeed id actor []
                | false ↦ rebalance id actor mode
              ]
