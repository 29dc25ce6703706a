-- ===== src/Streams/ReconcileJob/Triggers.antt =====
-- app/streams/processor.py: when the job queues an automation cycle, and under which id.
use auto_invest_manager.Base.{
  append_nil, ◌+◌, ◌≡◌, sym, ◌∙◌, subst, ℕ, true, false, Bool, ◌&&◌, not, List, [], ◌∷◌, ◌++◌,
  String, arith, Bool-cases, inl, inr, ◌⊎◌, Result, ok, err, Error, Result-cases,
}
use Prim.Native.String.{◌++◌ as concat}
use auto_invest_manager.Models.Enums.{ReconciliationReason}
use auto_invest_manager.Models.Entities.{AccountReconciliation}
use auto_invest_manager.Streams.Ledger.{Bank, is_succeeded}
use auto_invest_manager.Streams.Reconciliation.{ReconciliationResult, reconcile}
use auto_invest_manager.Streams.Reconciliation.Row.{
  IsRowOf, reconcile-IsRowOf, reconcile_row, IsRowOf-unique, ok-inj,
}
use auto_invest_manager.Streams.ReconcileJob.{
  Desk, Lines, AutomationJob, automation_job, trigger_for, read_reasons, trigger_automation,
  run_reconciliation_job, correlation_id, is_empty,
}

module _ (l : Lines) (bank : Bank) where
  -- The three conditions of the code for a cycle.
  abbrev pub is_triggering : ReconciliationResult → Bool
  is_triggering result =
      is_succeeded bank result.status
      && not (is_empty result.event_types)
      && l.stream_automation_trigger_enabled

  -- A cycle was due, and the queue, at its call `n`, took the job or knew its id; or none was due.
  pub Queues : ReconciliationResult → ℕ → List AutomationJob → List AutomationJob → Type 0
  Queues result n before after =
      ((is_triggering result ≡ true)
        × (l.enqueue_job n (automation_job result) ≡ ok true)
        × (after ≡ before ++ automation_job result ∷ []))
      ⊎ ((is_triggering result ≡ true)
          × (l.enqueue_job n (automation_job result) ≡ ok false)
          × (after ≡ before))
      ⊎ ((is_triggering result ≡ false) × (after ≡ before))

  record IsTriggered (result : ReconciliationResult) (s : Desk) (o : Result (Unit {0}) × Desk)
      : Type 0 where
    rows : o.1.books.reconciliations ≡ s.books.reconciliations
    done :
        ((o.0 ≡ ok tt) × Queues result s.calls s.automations o.1.automations)
        ⊎ ((e : Error) × (o.0 ≡ err e)
            × (l.enqueue_job s.calls (automation_job result) ≡ err e)
            × (o.1.automations ≡ s.automations))

  trigger_automation-IsTriggered :
      (result : ReconciliationResult) (s : Desk)
      → IsTriggered result s (trigger_automation l bank result s)
  unfolding trigger_automation Queues
  trigger_automation-IsTriggered result s = elim (Bool-cases (is_triggering result)) [
    | inl p ↦ elim (Result-cases (l.enqueue_job s.calls (automation_job result))) [
      | inl (is_new, q) ↦ elim (Bool-cases is_new) [
        | inl r ↦ record {
          rows = ground arith;
          done = inl (ground arith, inl (ground arith, ground arith, ground arith));
        }
        | inr r ↦ record {
          rows = ground arith;
          done = inl (
            ground arith,
            inr (inl (ground arith, ground arith, ground (arith, append_nil s.automations))),
          );
        }
      ]
      | inr (e, q) ↦ record {
        rows = ground arith;
        done = inr (e, ground arith, ground arith, ground arith);
      }
    ]
    | inr p ↦ record {
      rows = ground arith;
      done = inl (ground arith, inr (inr (ground arith, ground arith)));
    }
  ]

  -- A job that has reconciled with the reasons that it has read, and queued the cycle that was due.
  pub record IsDone (account_id state_key : String) (s : Desk) (result : ReconciliationResult)
      (t : Desk) : Type 0 where
    pub texts : List String
    pub reasons : List ReconciliationReason
    pub read : l.smembers s.calls (concat state_key ":reasons") ≡ ok texts
    pub meant : read_reasons texts ≡ ok reasons
    pub result_eq :
        (reconcile bank account_id reasons (correlation_id l bank account_id state_key) s.books).0
        ≡ ok result
    pub rows :
        t.books.reconciliations
        ≡ (reconcile bank account_id reasons
            (correlation_id l bank account_id state_key)
            s.books).1.reconciliations
    pub automations : Queues result (s.calls + 1) s.automations t.automations

  -- A reconciliation job that returns has reconciled the account with the reasons that it read. It has
  -- queued one automation cycle, for the account's deposit if it found one, exactly when the
  -- reconciliation succeeded with an event, the setting is on and the queue does not know the id of
  -- the job. A job that raises has queued nothing, or it has done all this before it raised.
  pub run_reconciliation_job_queues :
      (account_id state_key : String) (s : Desk)
      → let out = run_reconciliation_job l bank account_id state_key s in
        ((result : ReconciliationResult) × (out.0 ≡ ok result)
          × IsDone account_id state_key s result out.1)
        ⊎ ((e : Error) × (out.0 ≡ err e)
            × ((out.1.automations ≡ s.automations)
                ⊎ ((result : ReconciliationResult) × IsDone account_id state_key s result out.1)))
  unfolding run_reconciliation_job
  run_reconciliation_job_queues account_id state_key s =
      let key = concat state_key ":reasons" in
      let id = correlation_id l bank account_id state_key in
      elim (Result-cases (l.smembers s.calls key)) [
        | inr (e, p) ↦ inr (e, ground arith, inl (ground arith))
        | inl (texts, p) ↦ elim (Result-cases (read_reasons texts)) [
          | inr (e, q) ↦ inr (e, ground arith, inl (ground arith))
          | inl (reasons, q) ↦
              let done = reconcile bank account_id reasons id s.books in
              elim (Result-cases done.0) [
                | inr (e, x) ↦ inr (e, ground arith, inl (ground arith))
                | inl (result, x) ↦
                    let t : Desk = record s { books = done.1; calls = s.calls + 1 } in
                    let v = trigger_automation l bank result t in
                    let i = trigger_automation-IsTriggered result t in
                    elim i.done [
                      | inr (e, r, w, u) ↦ inr (e, ground arith, inl (ground arith))
                      | inl (r, u) ↦ elim (Result-cases (l.delete v.1.calls state_key key)) [
                        | inr (e, w) ↦ inr (
                          e,
                          ground arith,
                          inr (
                            result,
                            record {
                              texts = texts;
                              reasons = reasons;
                              read = p;
                              meant = q;
                              result_eq = x;
                              rows = ground (arith, i.rows);
                              automations =
                                  subst
                                    (λ (after : List AutomationJob).
                                      Queues result (s.calls + 1) s.automations after)
                                    (ground arith) u;
                            },
                          ),
                        )
                        | inl (z, w) ↦ inl (
                          result,
                          ground arith,
                          record {
                            texts = texts;
                            reasons = reasons;
                            read = p;
                            meant = q;
                            result_eq = x;
                            rows = ground (arith, i.rows);
                            automations =
                                subst
                                  (λ (after : List AutomationJob).
                                    Queues result (s.calls + 1) s.automations after)
                                  (ground arith) u;
                          },
                        )
                      ]
                    ]
              ]
        ]
      ]

  returned :
      (account_id state_key : String) (s : Desk) (result : ReconciliationResult)
      → let out = run_reconciliation_job l bank account_id state_key s in
        out.0 ≡ ok result → IsDone account_id state_key s result out.1
  returned account_id state_key s result h =
      elim (run_reconciliation_job_queues account_id state_key s) [
        | inl (other, p, d) ↦
            subst
              (λ (r : ReconciliationResult).
                IsDone account_id state_key s r
                  (run_reconciliation_job l bank account_id state_key s).1)
              (ok-inj other result (sym p ∙ h)) d
        | inr (e, p, q) ↦ absurd (ground arith)
      ]

  -- Two jobs that return for an account under one key have the same reconciliation, if the row of
  -- their correlation id has kept its id in between, whatever else has changed. If they also find
  -- events of one trigger, they name the same automation job, so that the later cycle gets the id of
  -- the earlier one.
  pub run_reconciliation_job_again :
      (account_id state_key : String) (s t : Desk) (first second : ReconciliationResult) (id : ℕ)
      → let out = run_reconciliation_job l bank account_id state_key in
        let key = correlation_id l bank account_id state_key in
        (out s).0 ≡ ok first
        → IsRowOf key id (out s).1.books.reconciliations
        → IsRowOf key id t.books.reconciliations
        → (out t).0 ≡ ok second
        → trigger_for second.event_types ≡ trigger_for first.event_types
        → (second.reconciliation_id ≡ first.reconciliation_id)
          × (automation_job second ≡ automation_job first)
  run_reconciliation_job_again account_id state_key s t first second id h b c k e =
      let key = correlation_id l bank account_id state_key in
      let x = returned account_id state_key s first h in
      let y = returned account_id state_key t second k in
      let left : IsRowOf key first.reconciliation_id
          (run_reconciliation_job l bank account_id state_key s).1.books.reconciliations =
        subst (λ (rows : List AccountReconciliation). IsRowOf key first.reconciliation_id rows)
          (sym x.rows)
          (reconcile-IsRowOf bank key account_id x.reasons s.books first x.result_eq) in
      let same : second.reconciliation_id ≡ first.reconciliation_id =
        reconcile_row bank key account_id y.reasons t.books id second c y.result_eq
        ∙ IsRowOf-unique bank key _ id first.reconciliation_id b left in
      (same, ground (arith, same, e))
