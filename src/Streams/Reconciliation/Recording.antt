-- ===== src/Streams/Reconciliation/Recording.antt =====
-- The account events of a reconciliation: one for each fingerprint.
use auto_invest_manager.Base.{
  ◌≡◌, refl, subst, Bool, true, false, none, some, List, [], ◌∷◌, ◌++◌, arith, inl, inr,
  Option-cases, String, if◌then◌else◌,
}
use auto_invest_manager.Models.Enums.{AccountEventType, ReconciliationReason}
use auto_invest_manager.Models.Entities.{AccountReconciliation}
use auto_invest_manager.Streams.Operations.{BrokerOperation, operation_event_type}
use auto_invest_manager.Streams.Ledger.{Books, Bank, save_account_event}
use auto_invest_manager.Streams.Reconciliation.{
  operation_fingerprint, record_all, record_change, has_reason, change_if,
}
use auto_invest_manager.Streams.Reconciliation.Events.{
  are_distinct, IsRecorded, IsRecorded-nil, IsRecorded-append, saved-IsRecorded, saved-are_distinct,
}

module _ (bank : Bank) where
  if-append :
      (b : Bool) (t : AccountEventType) (ts : List AccountEventType)
      → (if b then t ∷ [] else []) ++ ts ≡ (if b then t ∷ ts else ts)
  if-append true t ts = refl
  if-append false t ts = refl

  pub record_all-nil :
      (r : AccountReconciliation) (account_id : String) (s : Books)
      → record_all bank r account_id [] s ≡ ([], s)
  unfolding record_all
  record_all-nil r account_id s = refl

  pub record_all-none :
      (r : AccountReconciliation) (account_id : String) (o : BrokerOperation)
      (rest : List BrokerOperation) (s : Books)
      → operation_event_type o ≡ none
      → record_all bank r account_id (o ∷ rest) s ≡ record_all bank r account_id rest s
  unfolding record_all
  record_all-none r account_id o rest s p = ground arith

  pub record_all-some :
      (r : AccountReconciliation) (account_id : String) (o : BrokerOperation)
      (rest : List BrokerOperation) (s : Books) (t : AccountEventType)
      → operation_event_type o ≡ some t
      → record_all bank r account_id (o ∷ rest) s ≡ (
        if (save_account_event bank r t (some o) (operation_fingerprint bank account_id o t) s).0
            then t
              ∷ (record_all bank r account_id rest
                  (save_account_event bank r t
                    (some o)
                    (operation_fingerprint bank account_id o t)
                    s).1).0
            else (record_all bank r account_id rest
                (save_account_event bank r t
                  (some o)
                  (operation_fingerprint bank account_id o t)
                  s).1).0,
        (record_all bank r account_id rest
            (save_account_event bank r t
              (some o)
              (operation_fingerprint bank account_id o t)
              s).1).1,
      )
  unfolding record_all
  record_all-some r account_id o rest s t p = ground arith

  pub record_all-IsRecorded :
      (r : AccountReconciliation) (account_id : String) (operations : List BrokerOperation)
      (s : Books)
      → IsRecorded s (record_all bank r account_id operations s)
  record_all-IsRecorded r account_id [] s = rw (record_all-nil r account_id s) (IsRecorded-nil s)
  record_all-IsRecorded r account_id (o ∷ rest) s = elim (Option-cases (operation_event_type o)) [
    | inl p ↦
        rw (record_all-none r account_id o rest s p) (record_all-IsRecorded r account_id rest s)
    | inr (t, p) ↦
        let f = operation_fingerprint bank account_id o t in
        let u = (save_account_event bank r t (some o) f s).1 in
        let k =
          IsRecorded-append s u _ _ _ (saved-IsRecorded bank r t (some o) f s)
            (record_all-IsRecorded r account_id rest u) in
        rw (record_all-some r account_id o rest s t p) (
          subst
            (λ (l : List AccountEventType).
              IsRecorded s (l, (record_all bank r account_id rest u).1))
            (if-append (save_account_event bank r t (some o) f s).0 t
              (record_all bank r account_id rest u).0)
            k)
  ]

  pub record_all-are_distinct :
      (r : AccountReconciliation) (account_id : String) (operations : List BrokerOperation)
      (s : Books)
      → are_distinct s.events ≡ true
      → are_distinct (record_all bank r account_id operations s).1.events ≡ true
  record_all-are_distinct r account_id [] s h = rw (record_all-nil r account_id s) h
  record_all-are_distinct r account_id (o ∷ rest) s h =
      elim (Option-cases (operation_event_type o)) [
        | inl p ↦
            rw (record_all-none r account_id o rest s p)
              (record_all-are_distinct r account_id rest s h)
        | inr (t, p) ↦
            let f = operation_fingerprint bank account_id o t in
            rw (record_all-some r account_id o rest s t p) (
              record_all-are_distinct r account_id rest _
                (saved-are_distinct bank r t (some o) f s h))
      ]

  pub record_change-IsRecorded :
      (r : AccountReconciliation) (account_id : String) (reasons : List ReconciliationReason)
      (correlation_id : String) (s : Books) (o : List AccountEventType × Books)
      → IsRecorded s o
      → IsRecorded s (record_change bank r account_id reasons correlation_id o)
  unfolding record_change
  record_change-IsRecorded r account_id reasons correlation_id s (t ∷ types, u) h = h
  record_change-IsRecorded r account_id reasons correlation_id s ([], u) h =
      changed (has_reason bank reasons) (
        saved-IsRecorded bank r AccountEventType.account_change none
          (bank.fingerprint (account_id ∷ correlation_id ∷ "ACCOUNT_CHANGE" ∷ [])) u)
    where
      saved : Bool × Books
      saved =
          save_account_event bank r AccountEventType.account_change none
            (bank.fingerprint (account_id ∷ correlation_id ∷ "ACCOUNT_CHANGE" ∷ [])) u

      changed :
          (b : Bool)
          → IsRecorded u (if saved.0 then AccountEventType.account_change ∷ [] else [], saved.1)
          → IsRecorded s (if b then (change_if bank saved.0, saved.1) else ([], u))
      changed true k =
          IsRecorded-append s u saved.1 [] _ h
            (subst (λ (l : List AccountEventType). IsRecorded u (l, saved.1)) (if-change saved.0) k)
        where
          if-change :
              (b : Bool)
              → (if b then AccountEventType.account_change ∷ [] else []) ≡ change_if bank b
          if-change true = refl
          if-change false = refl
      changed false k = h

  pub record_change-are_distinct :
      (r : AccountReconciliation) (account_id : String) (reasons : List ReconciliationReason)
      (correlation_id : String) (o : List AccountEventType × Books)
      → are_distinct o.1.events ≡ true
      → are_distinct (record_change bank r account_id reasons correlation_id o).1.events ≡ true
  unfolding record_change
  record_change-are_distinct r account_id reasons correlation_id (t ∷ types, u) h = h
  record_change-are_distinct r account_id reasons correlation_id ([], u) h =
      changed (has_reason bank reasons) (
        saved-are_distinct bank r AccountEventType.account_change none
          (bank.fingerprint (account_id ∷ correlation_id ∷ "ACCOUNT_CHANGE" ∷ [])) u h)
    where
      saved : Bool × Books
      saved =
          save_account_event bank r AccountEventType.account_change none
            (bank.fingerprint (account_id ∷ correlation_id ∷ "ACCOUNT_CHANGE" ∷ [])) u

      changed :
          (b : Bool)
          → are_distinct saved.1.events ≡ true
          → are_distinct
              (if◌then◌else◌ {A = List AccountEventType × Books} b
                (change_if bank saved.0, saved.1)
                ([], u)).1.events
            ≡ true
      changed true k = k
      changed false k = h
