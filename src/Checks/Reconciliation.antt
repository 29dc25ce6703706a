-- ===== src/Checks/Reconciliation.antt =====
-- The theorems on app/streams/reconciliation.py at concrete inputs.
use auto_invest_manager.Base.{
  ℕ, ◌+◌, ◌≡◌, refl, true, false, none, some, List, [], ◌∷◌, ok, err, Error, String,
}
use auto_invest_manager.Base.Decimal.{from_int}
use auto_invest_manager.Models.Enums.{AccountEventType, ReconciliationReason, ReconciliationStatus}
use auto_invest_manager.Models.Entities.{AccountReconciliation}
use auto_invest_manager.Checks.Data.{rubles}
use auto_invest_manager.Streams.Operations.{
  BrokerOperation, operation_event_type, classify_operation,
}
use auto_invest_manager.Streams.Ledger.{
  Books, Bank, new_reconciliation, create_reconciliation, save_account_event, finish_reconciliation,
}
use auto_invest_manager.Streams.Reconciliation.{
  ReconciliationResult, reconcile, record_all, read_account, read_state, read_operations,
  read_pages, write_account, record_change,
}
use auto_invest_manager.Streams.Reconciliation.Events.{are_distinct}
use auto_invest_manager.Streams.Reconciliation.Again.{record_all_again}
use auto_invest_manager.Streams.Reconciliation.Outcome.{reconcile-are_distinct}

abbrev pub deposit : BrokerOperation
deposit = record {
  operation_id = "op";
  cursor = "c";
  operation_type = "OPERATION_TYPE_INPUT";
  state = "OPERATION_STATE_EXECUTED";
  payment = rubles 500;
  date = 40;
  instrument_uid = none;
}

abbrev first_part : List String → String
first_part [] = ""
first_part (x ∷ []) = x
first_part (x ∷ y ∷ rest) = first_part (y ∷ rest)

abbrev pub bank : Bank
bank = record {
  clock = λ n. 50 + n;
  get_accounts = λ n. ok (
      record {
        account_id = "acc";
        name = "main";
        status = "open";
        account_type = "broker";
        opened_at = none;
      }
      ∷ []);
  get_positions = λ n a. ok tt;
  get_portfolio = λ n a. ok (record {
    account_id = a;
    total_amount = rubles 1000;
    expected_yield = from_int 0;
    positions = [];
    captured_at = 5;
  });
  get_operations_page =
      λ n q. ok (record { items = deposit ∷ []; next_cursor = some "c"; has_next = false });
  fingerprint = first_part;
  provider = "tinvest";
  target = "sandbox";
  lookback_hours = 24;
  max_pages = 10;
}

abbrev pub books : Books
books = record {
  reconciliations = [];
  events = [];
  cursors = [];
  snapshots = [];
  audit = [];
  sent = [];
  next_id = 1;
  calls = 0;
}

abbrev reasons : List ReconciliationReason
reasons = ReconciliationReason.portfolio_changed ∷ []

abbrev created : Books
created = (create_reconciliation bank "acc" reasons "r1" books).1

reconcile-are_distinct_example :
    are_distinct (reconcile bank "acc" reasons "r1" books).1.events ≡ true
reconcile-are_distinct_example = reconcile-are_distinct bank "acc" reasons "r1" books refl

abbrev row : ℕ → AccountReconciliation
row id = new_reconciliation id "acc" reasons "r" 50

abbrev recorded : Books
recorded = (record_all bank (row 1) "acc" (deposit ∷ []) books).1

record_all_again_example : record_all bank (row 2) "acc" (deposit ∷ []) recorded ≡ ([], recorded)
unfolding record_all operation_event_type classify_operation save_account_event
record_all_again_example =
    record_all_again bank "acc" (row 1) (row 2) (deposit ∷ []) books recorded [] refl

abbrev found : ℕ → List AccountEventType → ReconciliationResult
found id types = record {
  reconciliation_id = id;
  status = ReconciliationStatus.succeeded;
  event_types = types;
  operations_count = 1;
}

-- A deposit is found once.
found_deposit :
    (reconcile bank "acc" reasons "r1" books).0
    ≡ ok (found 1 (AccountEventType.deposit_detected ∷ []))
unfolding reconcile create_reconciliation read_account read_state read_operations read_pages
    write_account record_change record_all operation_event_type classify_operation
    save_account_event finish_reconciliation
found_deposit = refl

found_once :
    (reconcile bank "acc" reasons "r2" (reconcile bank "acc" reasons "r1" books).1).0
    ≡ ok (found 2 (AccountEventType.account_change ∷ []))
unfolding reconcile create_reconciliation read_account read_state read_operations read_pages
    write_account record_change record_all operation_event_type classify_operation
    save_account_event finish_reconciliation
found_once = refl

-- A page that cannot be read makes the reconciliation raise; its row stays as it was created.
left_running :
    (reconcile (record bank { max_pages = 0 }) "acc" reasons "r1" books).0 ≡ err Error.other
unfolding reconcile create_reconciliation read_account read_state read_operations read_pages
    write_account record_change record_all operation_event_type classify_operation
    save_account_event finish_reconciliation
left_running = refl
