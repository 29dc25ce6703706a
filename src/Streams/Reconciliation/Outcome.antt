-- ===== src/Streams/Reconciliation/Outcome.antt =====
-- How a reconciliation ends, and what it has left when its reading has failed.
use auto_invest_manager.Base.{
  ◌+◌, ◌≡◌, ==_iff, refl, sym, ◌∙◌, subst, Bool, true, false, Option, some, List, [], ◌∷◌, ◌++◌,
  find, keep, any, length, All, any-append, arith, inl, inr, ◌⊎◌, Bool-cases, Option-cases, Result,
  ok, err, Error, String, str_eq,
}
use auto_invest_manager.Base.Keeping.{Keeps}
use auto_invest_manager.Models.Enums.{ReconciliationReason, ReconciliationStatus}
use auto_invest_manager.Models.Entities.{AccountEvent, AccountReconciliation}
use auto_invest_manager.Execution.Dto.{PortfolioData}
use auto_invest_manager.Automation.Store.{BrokerAccountData}
use auto_invest_manager.Streams.Operations.{BrokerOperation}
use auto_invest_manager.Streams.Ledger.{
  Books, Bank, add_audit, save_broker_state, has_id, create_reconciliation, new_reconciliation,
  get_cursor, finish_reconciliation,
}
use auto_invest_manager.Streams.Reconciliation.{
  ReconciliationResult, read_state, read_account, record_all, write_account, reconcile, settled,
  expires,
}
use auto_invest_manager.Streams.Reconciliation.Events.{types_of, are_distinct}
use auto_invest_manager.Streams.Reconciliation.Recording.{
  record_all-are_distinct, record_change-are_distinct,
}
use auto_invest_manager.Streams.Reconciliation.Reading.{IsRead, read_account-Keeps}

module _ (bank : Bank) where
  any-found :
      (p : AccountReconciliation → Bool) (rows : List AccountReconciliation)
      (r : AccountReconciliation)
      → find p rows ≡ some r
      → any (has_id r.id) rows ≡ true
  any-found p [] r h = cc
  any-found p (x ∷ rest) r h = elim (Bool-cases (p x)) [
    | inl q ↦
        let e : x ≡ r = some-inj x r (ground arith) in
        rw e (ground (arith, (==_iff r.id r.id).1 refl))
    | inr q ↦ let ih = any-found p rest r (ground arith) in ground (arith, ih)
  ]
    where
      some-inj : (a b : AccountReconciliation) → some a ≡ some b → a ≡ b
      some-inj a b h = cc

  record IsCreated (s : Books) (o : AccountReconciliation × Books) : Type 0 where
    present : any (has_id o.0.id) o.1.reconciliations ≡ true
    events : o.1.events ≡ s.events
    cursors : o.1.cursors ≡ s.cursors
    snapshots : o.1.snapshots ≡ s.snapshots

  create_reconciliation-IsCreated :
      (account_id : String) (reasons : List ReconciliationReason) (correlation_id : String)
      (s : Books)
      → IsCreated s (create_reconciliation bank account_id reasons correlation_id s)
  unfolding create_reconciliation
  create_reconciliation-IsCreated account_id reasons correlation_id s =
      elim (Option-cases (
        find (λ (r : AccountReconciliation). str_eq r.correlation_id correlation_id)
          s.reconciliations)) [
            | inl p ↦
                subst (λ (o : AccountReconciliation × Books). IsCreated s o)
                  {x = (
                    fresh,
                    add_audit "account.reconciliation.started" "info" fresh.id (record s {
                      reconciliations = s.reconciliations ++ fresh ∷ [];
                      next_id = s.next_id + 1;
                      calls = s.calls + 1;
                    }),
                  )}
                  (ground arith)
                  (record {
                    present = last-present;
                    events = refl;
                    cursors = refl;
                    snapshots = refl;
                  })
            | inr (r, p) ↦
                subst (λ (o : AccountReconciliation × Books). IsCreated s o) {x = (r, s)}
                  (ground arith)
                  (record {
                    present = any-found _ s.reconciliations r p;
                    events = refl;
                    cursors = refl;
                    snapshots = refl;
                  })
          ]
    where
      fresh : AccountReconciliation
      fresh = new_reconciliation s.next_id account_id reasons correlation_id (bank.clock s.calls)

      last-present : any (has_id fresh.id) (s.reconciliations ++ fresh ∷ []) ≡ true
      last-present = ground (
        arith,
        any-append (has_id fresh.id) s.reconciliations (fresh ∷ []),
        (==_iff fresh.id fresh.id).1 refl,
      )

  -- A row of that result.
  pub record HasResult (o : ReconciliationResult) (r : AccountReconciliation) : Type 0 where
    pub status : r.status ≡ o.status
    pub operations : r.operations_count ≡ o.operations_count
    pub events : r.account_events_count ≡ length o.event_types

  -- How a reconciliation ends.
  pub record IsEnded (s : Books) (o : ReconciliationResult × Books) : Type 0 where
    pub present : any (has_id o.0.reconciliation_id) o.1.reconciliations ≡ true
    pub rows : All (HasResult o.0) (keep (has_id o.0.reconciliation_id) o.1.reconciliations)
    pub new : List AccountEvent
    pub events : o.1.events ≡ s.events ++ new
    pub types : types_of new ≡ o.0.event_types
    pub ending :
        (o.0.status ≡ ReconciliationStatus.succeeded)
        ⊎ ((o.0.status ≡ ReconciliationStatus.failed)
            × (o.1.events ≡ s.events)
            × (o.1.cursors ≡ s.cursors)
            × (o.1.snapshots ≡ s.snapshots))

  pub read_account-IsRead :
      (account_id : String) (t : Books) → IsRead t (read_account bank account_id t).1
  unfolding Keeps
  read_account-IsRead account_id t =
      read_account-Keeps bank t account_id t
        (record { reconciliations = refl; events = refl; cursors = refl; snapshots = refl })

  -- What a reconciliation has left that raises: the row as the creation left it, and nothing more.
  pub record IsLeft (s t u : Books) : Type 0 where
    pub reconciliations : u.reconciliations ≡ t.reconciliations
    pub events : u.events ≡ s.events
    pub cursors : u.cursors ≡ s.cursors
    pub snapshots : u.snapshots ≡ s.snapshots

  abbrev pub Read : Type 0
  Read = Result (BrokerAccountData × PortfolioData × List BrokerOperation × Option String) × Books

  -- A reconciliation has returned, with SUCCEEDED after a reading that returned and with FAILED after
  -- one that raised before the row had `expired`; or the reading has raised after that, and so has the
  -- `except` clause.
  pub Settles : Type 0 → Books → Books → Read → Result ReconciliationResult × Books → Type 0
  Settles expired s t read o =
      ((result : ReconciliationResult) × (o.0 ≡ ok result)
        × IsEnded s (result, o.1)
        × (((found : BrokerAccountData × PortfolioData × List BrokerOperation × Option String)
              × (read.0 ≡ ok found)
              × (result.status ≡ ReconciliationStatus.succeeded))
            ⊎ ((e : Error) × (read.0 ≡ err e)
                × (¬ expired)
                × (result.status ≡ ReconciliationStatus.failed))))
      ⊎ ((e : Error) × (read.0 ≡ err e) × expired × (o.0 ≡ err Error.other) × IsLeft s t o.1)

  -- The session was in a transaction when the reading ended: there was a row of the correlation id, or
  -- the reading came to the cursor.
  pub IsExpired : String → String → Books → Books → Type 0
  IsExpired account_id correlation_id s t =
      ((r : AccountReconciliation) × (find
            (λ (r : AccountReconciliation). str_eq r.correlation_id correlation_id)
            s.reconciliations
          ≡ some r))
      ⊎ ((state : BrokerAccountData × PortfolioData) × ((read_state bank account_id t).0
            ≡ ok state))

  settled-are_distinct :
      (r : AccountReconciliation) (account_id : String) (reasons : List ReconciliationReason)
      (correlation_id : String) (is_expired : Bool)
      → (p : Read) → are_distinct p.1.events ≡ true
      → are_distinct (settled bank r account_id reasons correlation_id is_expired p).1.events ≡ true
  unfolding write_account finish_reconciliation
  settled-are_distinct r account_id reasons correlation_id true (err e, u) k = k
  settled-are_distinct r account_id reasons correlation_id false (err e, u) k = k
  settled-are_distinct r account_id reasons correlation_id is_expired
        (ok (account, portfolio, operations, next_cursor), u) k =
      let v = save_broker_state bank account portfolio (get_cursor bank account_id u) u in
      record_change-are_distinct bank r account_id reasons correlation_id
        (record_all bank r account_id operations v)
        (record_all-are_distinct bank r account_id operations v k)

  -- No reconciliation stores two events of one fingerprint, or one whose fingerprint is stored already.
  pub reconcile-are_distinct :
      (account_id : String) (reasons : List ReconciliationReason) (correlation_id : String)
      (s : Books)
      → are_distinct s.events ≡ true
      → are_distinct (reconcile bank account_id reasons correlation_id s).1.events ≡ true
  unfolding reconcile
  reconcile-are_distinct account_id reasons correlation_id s h =
      let o = create_reconciliation bank account_id reasons correlation_id s in
      let c = create_reconciliation-IsCreated account_id reasons correlation_id s in
      settled-are_distinct o.0 account_id reasons correlation_id
        (expires bank account_id correlation_id s o.1) (read_account bank account_id o.1)
        (subst (λ (l : List AccountEvent). are_distinct l ≡ true)
          (sym ((read_account-IsRead account_id o.1).events ∙ c.events)) h)
