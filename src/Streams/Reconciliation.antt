-- ===== src/Streams/Reconciliation.antt =====
-- app/streams/reconciliation.py: an account is read again from the broker, and its operations become
-- account events, each once. What may raise in the `try` is the broker and the bound on pages. The
-- rollback in the `except` clause expires the row of the reconciliation when the session is in a
-- transaction, and reading `value.id` of an expired row raises in an asynchronous session, before
-- the row is written. The session is in none only from the commit of a new row to its next statement,
-- which is the one for the cursor.
pub mod Events
pub mod Recording
pub mod Reading
pub mod Again
pub mod Outcome
pub mod Row
use auto_invest_manager.Base.{
  ℕ, zero, suc, ◌+◌, ◌-◌, ◌*◌, ◌==◌, Bool, true, false, ◌&&◌, ◌||◌, Option, none, some, List, [],
  ◌∷◌, ◌++◌, map, find, keep, update, any, length, max, String, str_eq, if◌then◌else◌, Result, ok,
  err, Error, Action, pure, raise, gets, or_raise, ◌>>=◌, ◌>>◌,
}
use auto_invest_manager.Models.Enums.{AccountEventType, ReconciliationReason, ReconciliationStatus}
use auto_invest_manager.Models.Entities.{
  AccountEvent, AccountReconciliation, BrokerOperationCursor, AuditLog,
}
use auto_invest_manager.Execution.Dto.{PortfolioData}
use auto_invest_manager.Automation.Store.{BrokerAccountData}
use auto_invest_manager.Streams.Operations.{
  BrokerOperation, OperationsCursorRequest, OperationsCursorPage, operation_event_type, event_value,
}
use auto_invest_manager.Streams.Ledger.{
  Books, Bank, call, add_audit, notify, new_reconciliation, has_id, is_cursor, has_fingerprint,
  create_reconciliation, get_cursor, new_event, audit_name, notify_deposit, save_account_event,
  latest_date, last_id, moved_cursor, commit_cursor, is_succeeded, finished_row,
  finish_reconciliation, save_broker_state,
}

pub record ReconciliationResult : Type 0 where
  pub reconciliation_id : ℕ
  pub status : ReconciliationStatus
  pub event_types : List AccountEventType
  pub operations_count : ℕ

module _ (bank : Bank) where
  abbrev pub page_request : String → ℕ → Option String → ℕ → OperationsCursorRequest
  page_request account_id from_time cursor now = record {
    account_id = account_id;
    from_time = from_time;
    to_time = now;
    cursor = cursor;
    limit = 100;
  }

  -- The `for` loop of `_read_operations`.
  unfoldable pub read_pages :
      ℕ
      → String
      → ℕ
      → Option String
      → List BrokerOperation
      → Action Books (List BrokerOperation × Option String)
  read_pages zero account_id from_time cursor operations = raise Error.runtime
  read_pages (suc n) account_id from_time cursor operations =
      call (λ k. ok (bank.clock k)) >>= λ now.
      call (λ k. bank.get_operations_page k (page_request account_id from_time cursor now))
      >>= λ page. elim page.has_next [
        | true ↦ read_pages n account_id from_time page.next_cursor (operations ++ page.items)
        | false ↦ pure (operations ++ page.items, page.next_cursor)
      ]

  -- Where the reading begins. The subtraction stops at the epoch.
  abbrev pub read_from : Option ℕ → Action Books ℕ
  read_from (some t) = pure t
  read_from none = call (λ k. ok (bank.clock k - bank.lookback_hours * 3600000000))

  unfoldable pub read_operations : String → Action Books (List BrokerOperation × Option String)
  read_operations account_id s =
      let cursor = get_cursor bank account_id s in
      (read_from cursor.last_operation_time >>= λ from_time.
      read_pages bank.max_pages account_id from_time cursor.cursor [])
        s

  abbrev pub operation_fingerprint : String → BrokerOperation → AccountEventType → String
  operation_fingerprint account_id operation t =
      bank.fingerprint
        (bank.provider ∷ bank.target ∷ account_id ∷ operation.operation_id ∷ event_value t ∷ [])

  -- The loop over the operations, with the types of the new events.
  unfoldable pub record_all :
      AccountReconciliation → String → List BrokerOperation → Books → List AccountEventType × Books
  record_all r account_id [] s = ([], s)
  record_all r account_id (o ∷ rest) s = elim (operation_event_type o) [
    | none ↦ record_all r account_id rest s
    | some t ↦
        let (created, u) =
          save_account_event bank r t (some o) (operation_fingerprint account_id o t) s in
        let (types, v) = record_all r account_id rest u in (if created then t ∷ types else types, v)
  ]

  abbrev pub has_reason : List ReconciliationReason → Bool
  has_reason [] = false
  has_reason (x ∷ xs) = true

  abbrev pub change_if : Bool → List AccountEventType
  change_if true = AccountEventType.account_change ∷ []
  change_if false = []

  -- The event of a reconciliation that finds no operation of interest.
  unfoldable pub record_change :
      AccountReconciliation
      → String
      → List ReconciliationReason
      → String
      → List AccountEventType × Books
      → List AccountEventType × Books
  record_change r account_id reasons correlation_id (t ∷ types, s) = (t ∷ types, s)
  record_change r account_id reasons correlation_id ([], s) =
      if has_reason reasons
      then (let (created, u) =
            save_account_event bank r AccountEventType.account_change none
              (bank.fingerprint (account_id ∷ correlation_id ∷ "ACCOUNT_CHANGE" ∷ [])) s in
          (change_if created, u))
      else ([], s)

  -- What is read before the session's next statement.
  unfoldable pub read_state : String → Action Books (BrokerAccountData × PortfolioData)
  read_state account_id = call bank.get_accounts >>= λ accounts.
      or_raise (find (λ (a : BrokerAccountData). str_eq a.account_id account_id) accounts)
        Error.value_error
      >>= λ account.
          call (λ k. bank.get_positions k account_id)
          >> call (λ k. bank.get_portfolio k account_id)
          >>= λ portfolio. pure (account, portfolio)

  -- What is read of the broker, before anything is written.
  unfoldable pub read_account :
      String
      → Action Books (BrokerAccountData × PortfolioData × List BrokerOperation × Option String)
  read_account account_id = read_state account_id >>= λ state.
      read_operations account_id >>= λ found. pure (state.0, state.1, found.0, found.1)

  -- The rest of the `try`, with the types of the new events.
  unfoldable pub write_account :
      AccountReconciliation
      → String
      → List ReconciliationReason
      → String
      → BrokerAccountData
      → PortfolioData
      → List BrokerOperation
      → Option String
      → Books
      → List AccountEventType × Books
  write_account r account_id reasons correlation_id account portfolio operations next_cursor s =
      let (types, t) = record_change r account_id reasons correlation_id (
        record_all r account_id operations
          (save_broker_state bank account portfolio (get_cursor bank account_id s) s)) in
      (
        types,
        finish_reconciliation bank r.id ReconciliationStatus.succeeded (length operations)
            (length types) none none (commit_cursor bank account_id next_cursor operations t),
      )

  abbrev pub result_of : ℕ → ReconciliationStatus → List AccountEventType → ℕ → ReconciliationResult
  result_of id status types count = record {
    reconciliation_id = id;
    status = status;
    event_types = types;
    operations_count = count;
  }

  -- The `except` clause; the operations are empty there, since only the reading may raise. An expired
  -- row raises in `finish_reconciliation`, and what it has set is not committed.
  abbrev pub fail : AccountReconciliation → Bool → Books → Result ReconciliationResult × Books
  fail r true s = (err Error.other, s)
  fail r false s = (
    ok (result_of r.id ReconciliationStatus.failed [] 0),
    notify "Account reconciliation failed" (
        finish_reconciliation bank r.id ReconciliationStatus.failed 0 0
          (some "reconciliation_failed") (some "Account reconciliation failed") s),
  )

  abbrev pub settled :
      AccountReconciliation
      → String
      → List ReconciliationReason
      → String
      → Bool
      → Result (BrokerAccountData × PortfolioData × List BrokerOperation × Option String) × Books
      → Result ReconciliationResult × Books
  settled r account_id reasons correlation_id expires (err e, s) = fail r expires s
  settled r account_id reasons correlation_id expires
        (ok (account, portfolio, operations, next_cursor), s) =
      let (types, t) =
        write_account r account_id reasons correlation_id account portfolio operations next_cursor
          s in
      (ok (result_of r.id ReconciliationStatus.succeeded types (length operations)), t)

  abbrev pub returns : {A : Type 0} → Result A → Bool
  returns (ok a) = true
  returns (err e) = false

  -- Whether a rollback after the reading finds the session in a transaction: the row was there already,
  -- or the statement for the cursor has been sent.
  abbrev pub expires : String → String → Books → Books → Bool
  expires account_id correlation_id s t =
      any (λ (r : AccountReconciliation). str_eq r.correlation_id correlation_id) s.reconciliations
      || returns (read_state account_id t).0

  -- `AccountReconciliationService.reconcile`
  unfoldable pub reconcile :
      String → List ReconciliationReason → String → Books → Result ReconciliationResult × Books
  reconcile account_id reasons correlation_id s =
      let (r, t) = create_reconciliation bank account_id reasons correlation_id s in
      settled r account_id reasons correlation_id (expires account_id correlation_id s t)
        (read_account account_id t)
