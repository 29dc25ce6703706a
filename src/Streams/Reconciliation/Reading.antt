-- ===== src/Streams/Reconciliation/Reading.antt =====
-- The reading of an account changes no table.
use auto_invest_manager.Base.{
  ℕ, zero, suc, ◌≡◌, Bool, true, false, Option, none, some, List, [], ◌++◌, find, Result, ok, Error,
  Action, raise, ◌>>=◌, String, str_eq,
}
use auto_invest_manager.Base.Keeping.{Keeps, Keeps-bind, Keeps-then, Keeps-pure, Keeps-or_raise}
use auto_invest_manager.Models.Entities.{BrokerOperationCursor}
use auto_invest_manager.Automation.Store.{BrokerAccountData}
use auto_invest_manager.Streams.Operations.{BrokerOperation}
use auto_invest_manager.Streams.Ledger.{Books, Bank, call, get_cursor}
use auto_invest_manager.Streams.Reconciliation.{
  page_request, read_from, read_pages, read_operations, read_state, read_account,
}

-- The tables are as they were; only the broker and the clock were asked.
pub record IsRead (s t : Books) : Type 0 where
  pub reconciliations : t.reconciliations ≡ s.reconciliations
  pub events : t.events ≡ s.events
  pub cursors : t.cursors ≡ s.cursors
  pub snapshots : t.snapshots ≡ s.snapshots

module _ (bank : Bank) (s : Books) where
  call-Keeps : {A : Type 0} (f : ℕ → Result A) → Keeps (IsRead s) (call f)
  unfolding Keeps
  call-Keeps f t h = record {
    reconciliations = h.reconciliations;
    events = h.events;
    cursors = h.cursors;
    snapshots = h.snapshots;
  }

  raise-Keeps : (A : Type 0) (e : Error) → Keeps (IsRead s) (raise {A = A} e)
  unfolding Keeps
  raise-Keeps A e t h = h

  turn-Keeps :
      {A : Type 0} (b : Bool) (m n : Action Books A)
      → Keeps (IsRead s) m
      → Keeps (IsRead s) n
      → Keeps (IsRead s) (elim b as (λ (x : Bool). Action Books A) [ true ↦ m | false ↦ n ])
  turn-Keeps true m n h k = h
  turn-Keeps false m n h k = k

  read_pages-Keeps :
      (n : ℕ) (account_id : String) (from_time : ℕ) (cursor : Option String)
      (operations : List BrokerOperation)
      → Keeps (IsRead s) (read_pages bank n account_id from_time cursor operations)
  unfolding read_pages
  read_pages-Keeps zero account_id from_time cursor operations =
      raise-Keeps (List BrokerOperation × Option String) Error.runtime
  read_pages-Keeps (suc n) account_id from_time cursor operations =
      Keeps-bind (IsRead s) _ _ (call-Keeps (λ k. ok (bank.clock k))) (λ now.
        Keeps-bind (IsRead s) _ _
          (call-Keeps
            (λ k. bank.get_operations_page k (page_request bank account_id from_time cursor now)))
          (λ page.
            turn-Keeps page.has_next _ _
              (read_pages-Keeps n account_id from_time page.next_cursor (operations ++ page.items))
              (Keeps-pure (IsRead s) (operations ++ page.items, page.next_cursor))))

  read_from-Keeps : (o : Option ℕ) → Keeps (IsRead s) (read_from bank o)
  read_from-Keeps none = call-Keeps _
  read_from-Keeps (some t) = Keeps-pure (IsRead s) t

  read_operations-Keeps : (account_id : String) → Keeps (IsRead s) (read_operations bank account_id)
  unfolding Keeps read_operations
  read_operations-Keeps account_id t h = kept (get_cursor bank account_id t)
    where
      kept :
          (c : BrokerOperationCursor)
          → IsRead s
              ((read_from bank c.last_operation_time >>= λ from_time.
                  read_pages bank bank.max_pages account_id from_time c.cursor [])
                t).1
      kept c =
          Keeps-bind (IsRead s) (read_from bank c.last_operation_time)
            (λ from_time. read_pages bank bank.max_pages account_id from_time c.cursor [])
            (read_from-Keeps c.last_operation_time)
            (λ from_time. read_pages-Keeps bank.max_pages account_id from_time c.cursor []) t h

  read_state-Keeps : (account_id : String) → Keeps (IsRead s) (read_state bank account_id)
  unfolding read_state
  read_state-Keeps account_id =
      Keeps-bind (IsRead s) _ _ (call-Keeps bank.get_accounts) (λ accounts.
        Keeps-bind (IsRead s) _ _
          (Keeps-or_raise (IsRead s)
            (find (λ (a : BrokerAccountData). str_eq a.account_id account_id) accounts)
            Error.value_error)
          (λ account.
            Keeps-bind (IsRead s) _ _
              (Keeps-then (IsRead s) _ _ (call-Keeps (λ k. bank.get_positions k account_id))
                (call-Keeps (λ k. bank.get_portfolio k account_id)))
              (λ portfolio. Keeps-pure (IsRead s) (account, portfolio))))

  pub read_account-Keeps : (account_id : String) → Keeps (IsRead s) (read_account bank account_id)
  unfolding read_account
  read_account-Keeps account_id = Keeps-bind (IsRead s) _ _ (read_state-Keeps account_id) (λ state.
      Keeps-bind (IsRead s) _ _ (read_operations-Keeps account_id)
        (λ found. Keeps-pure (IsRead s) (state.0, state.1, found.0, found.1)))
