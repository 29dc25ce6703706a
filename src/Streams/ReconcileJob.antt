-- ===== src/Streams/ReconcileJob.antt =====
-- app/streams/processor.py, `run_reconciliation_job`: the debounced job reads the reasons that were
-- collected in Redis, reconciles the account and queues an automation cycle for what it has found.
pub mod Reasons
pub mod Triggers
use auto_invest_manager.Base.{
  ℕ, ◌+◌, ◌==◌, Bool, true, false, ◌&&◌, not, Option, none, some, List, [], ◌∷◌, ◌++◌, any, String,
  str_eq, if◌then◌else◌, Result, ok, err, Error, Action, pure, lift, modify, ◌>>=◌, ◌>>◌,
}
use Prim.Native.String.{◌++◌ as concat}
use auto_invest_manager.Models.Enums.{AccountEventType, AutomationTrigger, ReconciliationReason}
use auto_invest_manager.Models.Entities.{AuditLog}
use auto_invest_manager.Streams.Ledger.{Books, Bank, is_succeeded}
use auto_invest_manager.Streams.Reconciliation.{ReconciliationResult, reconcile}

-- The values of `ReconciliationReason`.
abbrev pub value : ReconciliationReason → String
value ReconciliationReason.portfolio_changed = "portfolio_changed"
value ReconciliationReason.positions_changed = "positions_changed"
value ReconciliationReason.user_trade = "user_trade"
value ReconciliationReason.stream_reconnected = "stream_reconnected"
value ReconciliationReason.manual = "manual"

-- `ReconciliationReason(text)`
abbrev pub reason_of_text : String → Result ReconciliationReason
reason_of_text text =
    if str_eq text "portfolio_changed"
    then ok ReconciliationReason.portfolio_changed
    else if str_eq text "positions_changed"
    then ok ReconciliationReason.positions_changed
    else if str_eq text "user_trade"
    then ok ReconciliationReason.user_trade
    else if str_eq text "stream_reconnected"
    then ok ReconciliationReason.stream_reconnected
    else if str_eq text "manual"
    then ok ReconciliationReason.manual
    else err Error.value_error

abbrev pub with_reason :
    Result ReconciliationReason
    → Result (List ReconciliationReason)
    → Result (List ReconciliationReason)
with_reason (err e) rest = err e
with_reason (ok r) (err e) = err e
with_reason (ok r) (ok rs) = ok (r ∷ rs)

abbrev pub read_all : List String → Result (List ReconciliationReason)
read_all [] = ok []
read_all (text ∷ texts) = with_reason (reason_of_text text) (read_all texts)

abbrev pub or_reconnected : Result (List ReconciliationReason) → Result (List ReconciliationReason)
or_reconnected (ok []) = ok (ReconciliationReason.stream_reconnected ∷ [])
or_reconnected (ok (r ∷ rs)) = ok (r ∷ rs)
or_reconnected (err e) = err e

-- The set comprehension and its `or`; the members are told apart by their texts.
unfoldable pub read_reasons : List String → Result (List ReconciliationReason)
read_reasons texts = or_reconnected (read_all texts)

-- The job "run_automation_cycle": its correlation id is `event:{reconciliation_id}:{trigger}`, and
-- the id of the job is made of that.
pub record AutomationJob : Type 0 where
  pub reconciliation_id : ℕ
  pub trigger : AutomationTrigger
  pub actor : String

pub record Desk : Type 0 where
  pub books : Books
  pub automations : List AutomationJob
  -- calls of Redis so far
  pub calls : ℕ

pub record Lines : Type 0 where
  pub smembers : ℕ → String → Result (List String)
  -- false for `None`: the queue holds a job, or the result of one, of the same job id
  pub enqueue_job : ℕ → AutomationJob → Result Bool
  pub delete : ℕ → String → String → Result (Unit {0})
  -- the SHA-256 hash, in hexadecimal digits
  pub sha256 : String → String
  pub stream_automation_trigger_enabled : Bool

abbrev on_line : {A : Type 0} → (ℕ → Result A) → Action Desk A
on_line f s = (f s.calls, record s { calls = s.calls + 1 })

abbrev pub is_deposit : AccountEventType → Bool
is_deposit AccountEventType.deposit_detected = true
is_deposit _ = false

abbrev pub trigger_for : List AccountEventType → AutomationTrigger
trigger_for types =
    if any is_deposit types
    then AutomationTrigger.deposit_detected
    else AutomationTrigger.account_change

abbrev pub is_empty : List AccountEventType → Bool
is_empty [] = true
is_empty (t ∷ ts) = false

abbrev pub audited : String → ℕ → Desk → Desk
audited event_type subject s = record s {
  books = record s.books {
    audit =
        s.books.audit
        ++ record {
          event_type = event_type;
          severity = "info";
          actor = "reconciliation-worker";
          subject = subject;
        }
          ∷ [];
  };
}

abbrev pub automation_job : ReconciliationResult → AutomationJob
automation_job result = record {
  reconciliation_id = result.reconciliation_id;
  trigger = trigger_for result.event_types;
  actor = "reconciliation-worker";
}

module _ (l : Lines) (bank : Bank) where
  abbrev pub taken : Bool → AutomationJob → List AutomationJob
  taken true job = job ∷ []
  taken false job = []

  abbrev pub enqueue : AutomationJob → Action Desk (Unit {0})
  enqueue job = on_line (λ n. l.enqueue_job n job) >>= λ is_new.
      modify (λ s. record s { automations = s.automations ++ taken is_new job })

  -- `if ... and ... and ...: ... elif result.event_types: ...`
  unfoldable pub trigger_automation : ReconciliationResult → Action Desk (Unit {0})
  trigger_automation result =
      if is_succeeded bank result.status
        && not (is_empty result.event_types)
        && l.stream_automation_trigger_enabled
      then enqueue (automation_job result)
        >> modify (audited "automation.event_trigger.enqueued" result.reconciliation_id)
      else if not (is_empty result.event_types)
      then modify (audited "automation.event_trigger.skipped" result.reconciliation_id)
      else pure tt

  abbrev pub correlation_id : String → String → String
  correlation_id account_id state_key =
      concat "reconciliation:" (l.sha256 (concat account_id state_key))

  abbrev pub reconciled :
      String → List ReconciliationReason → String → Action Desk ReconciliationResult
  reconciled account_id reasons id s =
      let (result, books) = reconcile bank account_id reasons id s.books in
      (result, record s { books = books })

  unfoldable pub run_reconciliation_job : String → String → Action Desk ReconciliationResult
  run_reconciliation_job account_id state_key =
      on_line (λ n. l.smembers n (concat state_key ":reasons")) >>= λ texts.
      lift (read_reasons texts) >>= λ reasons.
      reconciled account_id reasons (correlation_id account_id state_key) >>= λ result.
      trigger_automation result
      >> on_line (λ n. l.delete n state_key (concat state_key ":reasons"))
      >> pure result
