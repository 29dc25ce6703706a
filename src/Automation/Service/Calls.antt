-- ===== src/Automation/Service/Calls.antt =====
-- app/automation/service.py: the calls that the settings allow, and the steps of a run that keep to them.
use auto_invest_manager.Base.{
  ℕ, Bool, true, false, ◌&&◌, ◌||◌, not, ◌≡◌, Option, none, List, [], ◌∷◌, ◌++◌, all, String,
  Result, Action, arith, if◌then◌else◌,
}
use auto_invest_manager.Models.Enums.{TradeMode, AutomationStep, AutomationRunStatus, is_mode}
use auto_invest_manager.Models.Entities.{SystemSettings, AutomationRun, TargetAllocation}
use auto_invest_manager.Redis.{Redis}
use auto_invest_manager.Automation.Retry.{RetryPolicy}
use auto_invest_manager.Automation.Store.{Cycle, Services, Config, Call, call, retrying}
use auto_invest_manager.Automation.Repository.{audit_rejected, mark_running, update_step, finish}
use auto_invest_manager.Automation.Pipeline.{
  skip, succeed, fail_run, counted, each, notify_if, open_for, is_tradable,
}
use auto_invest_manager.Base.Keeping.{Keeps, Keeps-bind, Keeps-then, Keeps-pure}

-- What the settings let a cycle call: nothing in the mode off or under the kill switch, no planning
-- in the mode of signals only, and the execution of orders only in the two modes that execute.
unfoldable pub is_allowed : SystemSettings → Call → Bool
is_allowed st Call.get_accounts = not (is_mode st.trade_mode TradeMode.off || st.kill_switch)
is_allowed st Call.save_broker_state = not (is_mode st.trade_mode TradeMode.off || st.kill_switch)
is_allowed st Call.run_signals = not (is_mode st.trade_mode TradeMode.off || st.kill_switch)
is_allowed st (Call.get_portfolio a) = not (is_mode st.trade_mode TradeMode.off || st.kill_switch)
is_allowed st Call.create_plan = not (
    is_mode st.trade_mode TradeMode.off
    || (is_mode st.trade_mode TradeMode.signal_only || st.kill_switch))
is_allowed st (Call.get_trading_status uid) = not (
    is_mode st.trade_mode TradeMode.off
    || (is_mode st.trade_mode TradeMode.signal_only || st.kill_switch))
is_allowed st (Call.plan_orders id) = not (
    is_mode st.trade_mode TradeMode.off
    || (is_mode st.trade_mode TradeMode.signal_only || st.kill_switch))
is_allowed st (Call.execute id) = is_mode st.trade_mode TradeMode.dry_run && not st.kill_switch
is_allowed st (Call.execute_sandbox id) =
    is_mode st.trade_mode TradeMode.sandbox && not st.kill_switch

pub all-append_one :
    {A : Type 0} (p : A → Bool) (xs : List A) (a : A)
    → all p xs ≡ true
    → p a ≡ true
    → all p (xs ++ a ∷ []) ≡ true
all-append_one p [] a h ha = ground arith
all-append_one p (x ∷ xs) a h ha = ground (arith, all-append_one p xs a)

module _ (R : Redis) (services : Services) (config : Config) (st : SystemSettings) where
  unfoldable pub IsAllowed : Cycle R → Type 0
  IsAllowed s = all (is_allowed st) s.trace ≡ true

  abbrev K : {A : Type 0} → Action (Cycle R) A → Type 0
  K m = Keeps IsAllowed m

  pub K-call :
      {A : Type 0} (c : Call) (f : ℕ → Result A) → is_allowed st c ≡ true → K (call R services c f)
  unfolding Keeps IsAllowed
  K-call c f hc s h = all-append_one (is_allowed st) s.trace c h hc

  pub K-retrying :
      {A : Type 0} (policy : RetryPolicy) (c : Call) (f : ℕ → Result A)
      → is_allowed st c ≡ true
      → K (retrying R services policy c f)
  unfolding Keeps IsAllowed
  K-retrying policy c f hc s h = all-append_one (is_allowed st) s.trace c h hc

  pub K-step : (id : ℕ) (step : AutomationStep) → K (update_step R services id step)
  unfolding Keeps IsAllowed update_step
  K-step id step s h = h

  pub K-counted : (id : ℕ) (f : AutomationRun → AutomationRun) → K (counted R services config id f)
  unfolding Keeps IsAllowed
  K-counted id f s h = h

  pub K-audit : (event actor : String) (id : ℕ) → K (audit_rejected R event actor id)
  unfolding Keeps IsAllowed
  K-audit event actor id s h = h

  pub K-notify_if : (b : Bool) (title : String) → K (notify_if R services config b title)
  unfolding Keeps IsAllowed
  K-notify_if true title s h = h
  K-notify_if false title s h = h

  pub K-finish :
      (id : ℕ) (status : AutomationRunStatus) (actor : String) (code message : Option String)
      (metadata : List (String × String))
      → K (finish R services id status actor code message metadata)
  unfolding Keeps IsAllowed finish
  K-finish id status actor code message metadata s h = h

  pub K-mark : (id : ℕ) (account : String) → K (mark_running R services id account)
  unfolding Keeps IsAllowed mark_running
  K-mark id account s h = h

  pub K-if : {A : Type 0} (b : Bool) (m n : Action (Cycle R) A) → K m → K n → K (if b then m else n)
  K-if true m n hm hn = hm
  K-if false m n hm hn = hn

  pub K-branch :
      {A : Type 0} (b : Bool) (m n : Action (Cycle R) A)
      → K m
      → K n
      → K (elim b as (λ c. Action (Cycle R) A) [ true ↦ m | false ↦ n ])
  K-branch true m n hm hn = hm
  K-branch false m n hm hn = hn

  pub K-succeed :
      (id : ℕ) (actor : String) (metadata : List (String × String))
      → K (succeed R services config id actor metadata)
  unfolding succeed Keeps IsAllowed update_step finish
  K-succeed id actor metadata s h = h

  pub K-skip : (id : ℕ) (actor reason : String) → K (skip R services config id actor reason)
  unfolding skip
  K-skip id actor reason =
      Keeps-then IsAllowed _ _
        (Keeps-then IsAllowed _ _ (K-finish id _ actor none none _) (K-notify_if _ _))
        (Keeps-pure IsAllowed _)

  pub K-fail :
      (id : ℕ) (actor code message : String) → K (fail_run R services config id actor code message)
  unfolding fail_run Keeps IsAllowed finish
  K-fail id actor code message s h = h

  pub K-each :
      {A : Type 0} (f : A → Action (Cycle R) (Unit {0}))
      → ((a : A) → K (f a))
      → (xs : List A) → K (each R services config f xs)
  K-each f h [] = Keeps-pure IsAllowed tt
  K-each f h (x ∷ xs) = Keeps-then IsAllowed _ _ (h x) (K-each f h xs)

  pub K-open_for :
      (actor : String)
      → ((uid : String) → is_allowed st (Call.get_trading_status uid) ≡ true)
      → (allocations : List TargetAllocation) → K (open_for R services config actor allocations)
  K-open_for actor h [] = Keeps-pure IsAllowed true
  K-open_for actor h (a ∷ rest) =
      Keeps-bind IsAllowed _ _
        (K-retrying config.retry _ (λ n. services.get_trading_status n a.instrument.instrument_uid)
          (h a.instrument.instrument_uid))
        λ status. K-branch (is_tradable R services config status) _ _ (K-open_for actor h rest) (
          Keeps-then IsAllowed _ _ (K-audit "automation.safety.rejected" actor 0)
            (Keeps-pure IsAllowed false))
