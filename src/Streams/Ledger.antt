-- ===== src/Streams/Ledger.antt =====
-- The tables of the reconciliation, its surroundings, and the methods of app/streams/repository.py that
-- app/streams/reconciliation.py calls. A database that fails is not modelled.
use auto_invest_manager.Base.{
  ℕ, ◌+◌, ◌==◌, Bool, true, false, ◌&&◌, Option, none, some, List, [], ◌∷◌, ◌++◌, find, update, any,
  max, String, str_eq, if◌then◌else◌, Result, Action,
}
use auto_invest_manager.Models.Enums.{AccountEventType, ReconciliationReason, ReconciliationStatus}
use auto_invest_manager.Models.Entities.{
  AccountEvent, AccountReconciliation, BrokerOperationCursor, AuditLog,
}
use auto_invest_manager.Execution.Dto.{PortfolioData}
use auto_invest_manager.Automation.Store.{BrokerAccountData}
use auto_invest_manager.Streams.Operations.{
  BrokerOperation, OperationsCursorRequest, OperationsCursorPage,
}

pub record Books : Type 0 where
  pub reconciliations : List AccountReconciliation
  pub events : List AccountEvent
  pub cursors : List BrokerOperationCursor
  -- the accounts and portfolios that `save_broker_state` has written
  pub snapshots : List (BrokerAccountData × PortfolioData)
  pub audit : List AuditLog
  -- titles of the notifications
  pub sent : List String
  pub next_id : ℕ
  -- calls of the broker and the clock so far
  pub calls : ℕ

pub record Bank : Type 0 where
  pub clock : ℕ → ℕ
  pub get_accounts : ℕ → Result (List BrokerAccountData)
  pub get_positions : ℕ → String → Result (Unit {0})
  pub get_portfolio : ℕ → String → Result PortfolioData
  pub get_operations_page : ℕ → OperationsCursorRequest → Result OperationsCursorPage
  -- app/streams/canonical.py: the SHA-256 hash of the parts
  pub fingerprint : List String → String
  pub provider : String
  pub target : String
  pub lookback_hours : ℕ
  pub max_pages : ℕ

abbrev pub call : {A : Type 0} → (ℕ → Result A) → Action Books A
call f s = (f s.calls, record s { calls = s.calls + 1 })

-- `add_audit`, with its commit
abbrev pub add_audit : String → String → ℕ → Books → Books
add_audit event_type severity subject s = record s {
  audit =
      s.audit
      ++ record {
        event_type = event_type;
        severity = severity;
        actor = "reconciliation-worker";
        subject = subject;
      }
        ∷ [];
}

abbrev pub notify : String → Books → Books
notify title s = record s { sent = s.sent ++ title ∷ [] }

abbrev pub new_reconciliation :
    ℕ → String → List ReconciliationReason → String → ℕ → AccountReconciliation
new_reconciliation id account_id reasons correlation_id now = record {
  id = id;
  account_id = account_id;
  status = ReconciliationStatus.running;
  reasons = reasons;
  correlation_id = correlation_id;
  started_at = some now;
  finished_at = none;
  operations_count = 0;
  account_events_count = 0;
  error_code = none;
  error_message = none;
}

abbrev pub has_id : ℕ → AccountReconciliation → Bool
has_id id r = r.id == id

abbrev pub is_cursor : String → String → String → BrokerOperationCursor → Bool
is_cursor account_id provider target c =
    str_eq c.account_id account_id && (str_eq c.provider provider && str_eq c.target target)

abbrev pub has_fingerprint : String → AccountEvent → Bool
has_fingerprint f e = str_eq e.fingerprint f

module _ (bank : Bank) where
  -- `create_reconciliation`; the reasons, a set in the code, are listed in their order.
  unfoldable pub create_reconciliation :
      String → List ReconciliationReason → String → Books → AccountReconciliation × Books
  create_reconciliation account_id reasons correlation_id s =
      elim (find (λ (r : AccountReconciliation). str_eq r.correlation_id correlation_id)
        s.reconciliations) [
          | some r ↦ (r, s)
          | none ↦
              let r =
                new_reconciliation s.next_id account_id reasons correlation_id
                  (bank.clock s.calls) in
              (
                r,
                add_audit "account.reconciliation.started" "info" r.id (record s {
                  reconciliations = s.reconciliations ++ r ∷ [];
                  next_id = s.next_id + 1;
                  calls = s.calls + 1;
                }),
              )
        ]

  -- `get_cursor`: a new cursor is flushed, and stored by the next commit.
  abbrev pub get_cursor : String → Books → BrokerOperationCursor
  get_cursor account_id s = elim (find (is_cursor account_id bank.provider bank.target) s.cursors) [
    | some c ↦ c
    | none ↦ record {
      account_id = account_id;
      provider = bank.provider;
      target = bank.target;
      cursor = none;
      last_operation_time = none;
      last_successful_sync_at = none;
      last_operation_fingerprint = none;
    }
  ]

  abbrev pub new_event :
      AccountReconciliation → AccountEventType → Option BrokerOperation → String → ℕ → AccountEvent
  new_event r t operation f now = record {
    account_id = r.account_id;
    event_type = t;
    operation_id = elim operation [ none ↦ none | some o ↦ some o.operation_id ];
    operation_type = elim operation [ none ↦ none | some o ↦ some o.operation_type ];
    amount = elim operation [ none ↦ none | some o ↦ some o.payment.amount ];
    currency = elim operation [ none ↦ none | some o ↦ some o.payment.currency ];
    occurred_at = elim operation [ none ↦ now | some o ↦ o.date ];
    fingerprint = f;
    correlation_id = r.correlation_id;
  }

  abbrev pub audit_name : AccountEventType → String
  audit_name AccountEventType.account_change = "account.change.detected"
  audit_name AccountEventType.deposit_detected = "account.deposit.detected"
  audit_name AccountEventType.withdrawal_detected = "account.withdrawal.detected"
  audit_name AccountEventType.order_execution_detected = "account.order_execution.detected"

  abbrev pub notify_deposit : AccountEventType → Books → Books
  notify_deposit AccountEventType.deposit_detected s = notify "Подтверждено внешнее пополнение" s
  notify_deposit _ s = s

  -- `save_account_event`, and what follows when the event is new.
  unfoldable pub save_account_event :
      AccountReconciliation
      → AccountEventType
      → Option BrokerOperation
      → String
      → Books
      → Bool × Books
  save_account_event r t operation f s = if any (has_fingerprint f) s.events then (false, s) else (
    true,
    notify_deposit t (
        add_audit (audit_name t) "info" r.id (record s {
          events = s.events ++ new_event r t operation f (bank.clock s.calls) ∷ [];
          calls = s.calls + 1;
        })),
  )

  abbrev pub latest_date : List BrokerOperation → ℕ
  latest_date [] = 0
  latest_date (o ∷ rest) = max o.date (latest_date rest)

  abbrev pub last_id : BrokerOperation → List BrokerOperation → String
  last_id o [] = o.operation_id
  last_id o (p ∷ rest) = last_id p rest

  abbrev pub moved_cursor :
      List BrokerOperation → Option String → ℕ → BrokerOperationCursor → BrokerOperationCursor
  moved_cursor [] next_cursor now c = record c {
    cursor = next_cursor;
    last_successful_sync_at = some now;
  }
  moved_cursor (o ∷ rest) next_cursor now c = record c {
    cursor = next_cursor;
    last_successful_sync_at = some now;
    last_operation_time = some (latest_date (o ∷ rest));
    last_operation_fingerprint = some (last_id o rest);
  }

  -- `commit_cursor`; the cursor is in the table since the commit of `save_broker_state`.
  abbrev pub commit_cursor : String → Option String → List BrokerOperation → Books → Books
  commit_cursor account_id next_cursor operations s = record s {
    cursors =
        update (is_cursor account_id bank.provider bank.target)
          (moved_cursor operations next_cursor (bank.clock s.calls)) s.cursors;
    calls = s.calls + 1;
  }

  abbrev pub is_succeeded : ReconciliationStatus → Bool
  is_succeeded ReconciliationStatus.succeeded = true
  is_succeeded _ = false

  abbrev pub finished_row :
      ReconciliationStatus
      → ℕ
      → ℕ
      → Option String
      → Option String
      → ℕ
      → AccountReconciliation
      → AccountReconciliation
  finished_row status operations events code message now r = record r {
    status = status;
    finished_at = some now;
    operations_count = operations;
    account_events_count = events;
    error_code = code;
    error_message = message;
  }

  -- `finish_reconciliation`
  unfoldable pub finish_reconciliation :
      ℕ → ReconciliationStatus → ℕ → ℕ → Option String → Option String → Books → Books
  finish_reconciliation id status operations events code message s =
      add_audit
        (if is_succeeded status
          then "account.reconciliation.succeeded"
          else "account.reconciliation.failed")
        (if is_succeeded status then "info" else "warning") id
        (record s {
          reconciliations =
              update (has_id id)
                (finished_row status operations events code message (bank.clock s.calls))
                s.reconciliations;
          calls = s.calls + 1;
        })

  -- `save_broker_state` commits, and with it a new cursor.
  abbrev pub save_broker_state :
      BrokerAccountData → PortfolioData → BrokerOperationCursor → Books → Books
  save_broker_state account portfolio cursor s = record s {
    snapshots = s.snapshots ++ (account, portfolio) ∷ [];
    cursors =
        if any (is_cursor cursor.account_id cursor.provider cursor.target) s.cursors
        then s.cursors
        else s.cursors ++ cursor ∷ [];
  }
