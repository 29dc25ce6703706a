-- ===== src/Streams/Reconciliation/Row.antt =====
-- Which row a reconciliation takes: the one of its correlation id.
use auto_invest_manager.Base.{
  ℕ, ◌≡◌, refl, sym, ap, ◌∙◌, subst, Bool, true, false, Option, none, some, List, [], ◌∷◌, find,
  find-append_none, find-update, length, arith, inl, inr, Option-cases, ok, err, String, str_eq,
  eq_iff, if◌then◌else◌,
}
use auto_invest_manager.Models.Enums.{ReconciliationReason, ReconciliationStatus}
use auto_invest_manager.Models.Entities.{AccountReconciliation}
use auto_invest_manager.Streams.Ledger.{
  Books, Bank, save_broker_state, commit_cursor, has_id, create_reconciliation, new_reconciliation,
  get_cursor, finish_reconciliation, finished_row,
}
use auto_invest_manager.Streams.Reconciliation.{
  read_account, record_all, record_change, write_account, reconcile, settled, expires,
  ReconciliationResult,
}
use auto_invest_manager.Streams.Reconciliation.Recording.{
  record_all-IsRecorded, record_change-IsRecorded,
}
use auto_invest_manager.Streams.Reconciliation.Reading.{IsRead}
use auto_invest_manager.Streams.Reconciliation.Outcome.{read_account-IsRead, Read}

abbrev pub row_of : String → List AccountReconciliation → Option AccountReconciliation
row_of correlation_id rows =
    find (λ (r : AccountReconciliation). str_eq r.correlation_id correlation_id) rows

-- The row of the correlation id has that id.
unfoldable pub IsRowOf : String → ℕ → List AccountReconciliation → Type 0
IsRowOf correlation_id id rows =
    (r : AccountReconciliation) × (row_of correlation_id rows ≡ some r) × (r.id ≡ id)

pub ok-inj : {A : Type 0} (a b : A) → ok a ≡ ok b → a ≡ b
ok-inj a b h = cc

module _ (bank : Bank) (correlation_id : String) where
  create_reconciliation-IsRowOf :
      (account_id : String) (reasons : List ReconciliationReason) (s : Books)
      → let o = create_reconciliation bank account_id reasons correlation_id s in
        IsRowOf correlation_id o.0.id o.1.reconciliations
  unfolding IsRowOf create_reconciliation
  create_reconciliation-IsRowOf account_id reasons s =
      elim (Option-cases (row_of correlation_id s.reconciliations)) [
        | inl p ↦
            let r =
              new_reconciliation s.next_id account_id reasons correlation_id (bank.clock s.calls) in
            (
              r,
              ground (
                arith,
                find-append_none
                    (λ (r : AccountReconciliation). str_eq r.correlation_id correlation_id)
                    s.reconciliations (r ∷ []) p,
                (eq_iff correlation_id correlation_id).1 refl,
              ),
              ground arith,
            )
        | inr (r, p) ↦ (r, ground arith, ground arith)
      ]

  finish_reconciliation-IsRowOf :
      (id : ℕ) (status : ReconciliationStatus) (operations events : ℕ)
      (code message : Option String) (s : Books)
      → IsRowOf correlation_id id s.reconciliations
      → IsRowOf correlation_id id
          (finish_reconciliation bank id status operations events code message s).reconciliations
  unfolding IsRowOf finish_reconciliation
  finish_reconciliation-IsRowOf id status operations events code message s (r, p, q) =
      let f = finished_row bank status operations events code message (bank.clock s.calls) in
      (
        if has_id id r then f r else r,
        ground (
          arith,
          find-update (λ (r : AccountReconciliation). str_eq r.correlation_id correlation_id)
              (has_id id) f s.reconciliations (λ r. refl),
        ),
        ground arith,
      )

  settled-IsRowOf :
      (t : Books) (r : AccountReconciliation) (account_id : String)
      (reasons : List ReconciliationReason) (expires : Bool) (p : Read bank)
      → IsRead t p.1
      → IsRowOf correlation_id r.id t.reconciliations
      → IsRowOf correlation_id r.id
          (settled bank r account_id reasons correlation_id expires p).1.reconciliations
  unfolding write_account
  settled-IsRowOf t r account_id reasons true (err e, u) k h =
      subst (λ (l : List AccountReconciliation). IsRowOf correlation_id r.id l)
        (sym k.reconciliations) h
  settled-IsRowOf t r account_id reasons false (err e, u) k h =
      finish_reconciliation-IsRowOf r.id ReconciliationStatus.failed 0 0
        (some "reconciliation_failed") (some "Account reconciliation failed") u
        (subst (λ (l : List AccountReconciliation). IsRowOf correlation_id r.id l)
          (sym k.reconciliations) h)
  settled-IsRowOf t r account_id reasons expires
        (ok (account, portfolio, operations, next_cursor), u) k h =
      let v = save_broker_state bank account portfolio (get_cursor bank account_id u) u in
      let all = record_all bank r account_id operations v in
      let o = record_change bank r account_id reasons correlation_id all in
      let d =
        record_change-IsRecorded bank r account_id reasons correlation_id v all
          (record_all-IsRecorded bank r account_id operations v) in
      finish_reconciliation-IsRowOf r.id ReconciliationStatus.succeeded (length operations)
        (length o.0) none none (commit_cursor bank account_id next_cursor operations o.1)
        (subst (λ (l : List AccountReconciliation). IsRowOf correlation_id r.id l)
          (sym (d.rows ∙ k.reconciliations)) h)

  settled-id :
      (r : AccountReconciliation) (account_id : String) (reasons : List ReconciliationReason)
      (expires : Bool) (p : Read bank) (result : ReconciliationResult)
      → (settled bank r account_id reasons correlation_id expires p).0 ≡ ok result
      → result.reconciliation_id ≡ r.id
  settled-id r account_id reasons true (err e, u) result h = absurd (ground arith)
  settled-id r account_id reasons false (err e, u) result h =
      ap (λ (r : ReconciliationResult). r.reconciliation_id) (sym (ok-inj _ result h))
  settled-id r account_id reasons expires (ok (account, portfolio, operations, next_cursor), u)
        result h =
      ap (λ (r : ReconciliationResult). r.reconciliation_id) (sym (ok-inj _ result h))

  -- A reconciliation that returns has left the row of its result for the correlation id.
  pub reconcile-IsRowOf :
      (account_id : String) (reasons : List ReconciliationReason) (s : Books)
      (result : ReconciliationResult)
      → let o = reconcile bank account_id reasons correlation_id s in
        o.0 ≡ ok result → IsRowOf correlation_id result.reconciliation_id o.1.reconciliations
  unfolding reconcile
  reconcile-IsRowOf account_id reasons s result h =
      let c = create_reconciliation bank account_id reasons correlation_id s in
      let x = expires bank account_id correlation_id s c.1 in
      let read = read_account bank account_id c.1 in
      subst
        (λ (i : ℕ).
          IsRowOf correlation_id i
            (settled bank c.0 account_id reasons correlation_id x read).1.reconciliations)
        (sym (settled-id c.0 account_id reasons x read result h))
        (settled-IsRowOf c.1 c.0 account_id reasons x read (read_account-IsRead bank account_id c.1)
          (create_reconciliation-IsRowOf account_id reasons s))

  -- When there is a row of the correlation id, it is taken.
  pub reconcile_row :
      (account_id : String) (reasons : List ReconciliationReason) (s : Books) (id : ℕ)
      (result : ReconciliationResult)
      → IsRowOf correlation_id id s.reconciliations
      → (reconcile bank account_id reasons correlation_id s).0 ≡ ok result
      → result.reconciliation_id ≡ id
  unfolding reconcile IsRowOf create_reconciliation
  reconcile_row account_id reasons s id result (r, p, q) h =
      let c = create_reconciliation bank account_id reasons correlation_id s in
      settled-id c.0 account_id reasons (expires bank account_id correlation_id s c.1)
        (read_account bank account_id c.1) result h
      ∙ ground arith

  -- The id of the row is one.
  pub IsRowOf-unique :
      (rows : List AccountReconciliation) (m n : ℕ)
      → IsRowOf correlation_id m rows
      → IsRowOf correlation_id n rows
      → m ≡ n
  unfolding IsRowOf
  IsRowOf-unique rows m n (r, p, q) (u, v, w) =
      let same : r ≡ u = some-inj r u (sym p ∙ v) in
      sym q ∙ ap (λ (r : AccountReconciliation). r.id) same ∙ w
    where
      some-inj : (a b : AccountReconciliation) → some a ≡ some b → a ≡ b
      some-inj a b h = cc
