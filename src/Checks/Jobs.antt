-- ===== src/Checks/Jobs.antt =====
-- The theorems on the jobs of app/automation/worker.py and app/streams/processor.py at concrete
-- inputs.
use auto_invest_manager.Base.{
  ℕ, ◌≡◌, ◌==◌, refl, Bool-cases, if◌then◌else◌, ltb, String, true, false, none, some, Option, List,
  [], ◌∷◌, any, Bool, Result, ok, err, Error, arith, inl, inr, ◌⊎◌,
}
use auto_invest_manager.Models.Enums.{AccountEventType, ReconciliationReason, ReconciliationStatus}
use auto_invest_manager.Redis.Sets.{memory_set, memory_set-IsRedisSet}
use auto_invest_manager.Checks.Streams.{row, surroundings, worker, inbox_of}
use Prim.Native.String.{◌++◌ as concat}
use auto_invest_manager.Checks.Reconciliation.{bank, books, deposit}
use auto_invest_manager.Streams.Processor.{Worker}
use auto_invest_manager.Streams.Jobs.{EventJob, Interruption, run_jobs}
use auto_invest_manager.Streams.Jobs.Progress.{IsDealtWith, run_jobs_ends}
use auto_invest_manager.Streams.Ledger.{
  Bank, new_reconciliation, create_reconciliation, save_account_event, finish_reconciliation,
}
use auto_invest_manager.Streams.Operations.{operation_event_type, classify_operation}
use auto_invest_manager.Streams.Reconciliation.{
  ReconciliationResult, reconcile, record_all, read_account, read_state, read_operations,
  read_pages, write_account, record_change,
}
use auto_invest_manager.Streams.Reconciliation.Row.{IsRowOf}
use auto_invest_manager.Streams.ReconcileJob.{
  Lines, Desk, automation_job, read_reasons, run_reconciliation_job, trigger_automation,
  correlation_id,
}
use auto_invest_manager.Streams.ReconcileJob.Reasons.{
  collect, same_reason, reasons_meant, read_reasons-collect,
}
use auto_invest_manager.Streams.ReconcileJob.Triggers.{
  IsDone, run_reconciliation_job_queues, run_reconciliation_job_again,
}

abbrev waiting : Worker
waiting = record worker { inbox = inbox_of (row ∷ []) }

abbrev first_job : EventJob
first_job = record { event_id = 4; attempts = 0; defer_by = 0 }

abbrev cuts : ℕ → Option Interruption
cuts n = if n == 1 then some Interruption.reconciliation_scheduled else none

abbrev answers : ℕ → EventJob → Result Bool
answers n job = ok true

-- The queue of the reconciliation fails twice, the first time after a timeout.
run_jobs_ends_example :
    IsDealtWith 2 2 4 answers (run_jobs surroundings 2 2 30 cuts answers 2 (some first_job) waiting)
run_jobs_ends_example =
    run_jobs_ends surroundings 2 2 30 4 cuts answers 2 first_job waiting row
      (λ n. elim (Bool-cases (n == 1)) [ inl p ↦ λ q. ground arith | inr p ↦ λ q. ground arith ])
      refl refl refl (omega arith)

abbrev given : List ReconciliationReason
given =
    ReconciliationReason.manual ∷ ReconciliationReason.user_trade ∷ ReconciliationReason.manual ∷ []

read_reasons-collect_example :
    (read : List ReconciliationReason) × (read_reasons
        (memory_set.smembers (collect memory_set given))
      ≡ ok read)
    × ((r : ReconciliationReason)
        → any (same_reason r) read ≡ any (same_reason r) (reasons_meant given))
read_reasons-collect_example = read_reasons-collect memory_set memory_set-IsRedisSet given

abbrev lines : Lines
lines = record {
  smembers = λ n key. ok ("user_trade" ∷ []);
  enqueue_job = λ n job. ok true;
  delete = λ n key reasons. ok tt;
  sha256 = λ text. text;
  stream_automation_trigger_enabled = true;
}

abbrev desk : Desk
desk = record { books = books; automations = []; calls = 0 }

run_reconciliation_job_queues_example :
    let out = run_reconciliation_job lines bank "acc" "key" desk in
    ((result : ReconciliationResult) × (out.0 ≡ ok result)
      × IsDone lines bank "acc" "key" desk result out.1)
    ⊎ ((e : Error) × (out.0 ≡ err e)
        × ((out.1.automations ≡ desk.automations)
            ⊎ ((result : ReconciliationResult) × IsDone lines bank "acc" "key" desk result out.1)))
run_reconciliation_job_queues_example = run_reconciliation_job_queues lines bank "acc" "key" desk

abbrev all_parts : List String → String
all_parts [] = ""
all_parts (x ∷ xs) = concat x (all_parts xs)

-- A bank that has one more deposit after a while.
abbrev richer : Bank
richer = record bank {
  get_operations_page = λ n q. ok (record {
    items = deposit ∷ (if ltb n 9 then [] else record deposit { operation_id = "later" } ∷ []);
    next_cursor = some "c";
    has_next = false;
  });
  fingerprint = all_parts;
}

abbrev desk_after : Desk
desk_after = (run_reconciliation_job lines richer "acc" "key" desk).1

abbrev deposit_found : ReconciliationResult
deposit_found = record {
  reconciliation_id = 1;
  status = ReconciliationStatus.succeeded;
  event_types = AccountEventType.deposit_detected ∷ [];
  operations_count = 1;
}

abbrev later_found : ReconciliationResult
later_found = record deposit_found { operations_count = 2 }

first_job-result : (run_reconciliation_job lines richer "acc" "key" desk).0 ≡ ok deposit_found
unfolding run_reconciliation_job read_reasons trigger_automation reconcile create_reconciliation
    read_account read_state read_operations read_pages write_account record_change record_all
    operation_event_type classify_operation save_account_event finish_reconciliation
first_job-result = refl

-- What has changed in between: a row of another account, and the notifications.
abbrev desk_later : Desk
desk_later = record desk_after {
  books = record desk_after.books {
    reconciliations =
        new_reconciliation 90 "other" [] "r-other" 60 ∷ desk_after.books.reconciliations;
    sent = [];
    next_id = 91;
  };
}

abbrev first_correlation_id : String
first_correlation_id = correlation_id lines richer "acc" "key"

second_job-result : (run_reconciliation_job lines richer "acc" "key" desk_later).0 ≡ ok later_found
unfolding run_reconciliation_job read_reasons trigger_automation reconcile create_reconciliation
    read_account read_state read_operations read_pages write_account record_change record_all
    operation_event_type classify_operation save_account_event finish_reconciliation
second_job-result = refl

first_row : IsRowOf first_correlation_id 1 desk_after.books.reconciliations
unfolding IsRowOf run_reconciliation_job read_reasons trigger_automation reconcile
    create_reconciliation read_account read_state read_operations read_pages write_account
    record_change record_all operation_event_type classify_operation save_account_event
    finish_reconciliation
first_row = (_, refl, refl)

later_row : IsRowOf first_correlation_id 1 desk_later.books.reconciliations
unfolding IsRowOf run_reconciliation_job read_reasons trigger_automation reconcile
    create_reconciliation read_account read_state read_operations read_pages write_account
    record_change record_all operation_event_type classify_operation save_account_event
    finish_reconciliation
later_row = (_, refl, refl)

-- A later deposit names the cycle of the first one.
run_reconciliation_job_again_example :
    (later_found.reconciliation_id ≡ deposit_found.reconciliation_id)
    × (automation_job later_found ≡ automation_job deposit_found)
run_reconciliation_job_again_example =
    run_reconciliation_job_again lines richer "acc" "key" desk desk_later deposit_found later_found
      1 first_job-result first_row later_row second_job-result refl
