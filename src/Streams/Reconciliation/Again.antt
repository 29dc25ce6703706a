-- ===== src/Streams/Reconciliation/Again.antt =====
-- Operations that were recorded once are not recorded again.
use auto_invest_manager.Base.{
  ◌≡◌, refl, sym, ◌∙◌, subst, Bool, true, Option, none, some, List, [], ◌∷◌, ◌++◌, any, any-append,
  arith, inl, inr, Option-cases, String, eq_iff,
}
use auto_invest_manager.Models.Enums.{AccountEventType}
use auto_invest_manager.Models.Entities.{AccountEvent, AccountReconciliation}
use auto_invest_manager.Streams.Operations.{BrokerOperation, operation_event_type}
use auto_invest_manager.Streams.Ledger.{Books, Bank, has_fingerprint, new_event, save_account_event}
use auto_invest_manager.Streams.Reconciliation.{operation_fingerprint, record_all}
use auto_invest_manager.Streams.Reconciliation.Events.{save-cases}
use auto_invest_manager.Streams.Reconciliation.Recording.{
  record_all-nil, record_all-none, record_all-some, record_all-IsRecorded,
}

module _ (bank : Bank) (account_id : String) where
  -- The fingerprint of an operation of interest is among the events.
  abbrev IsKnown : List AccountEvent → BrokerOperation → Option AccountEventType → Type 0
  IsKnown events o none = Unit
  IsKnown events o (some t) =
      any (has_fingerprint (operation_fingerprint bank account_id o t)) events ≡ true

  abbrev AreKnown : List AccountEvent → List BrokerOperation → Type 0
  AreKnown events [] = Unit
  AreKnown events (o ∷ rest) = IsKnown events o (operation_event_type o) × AreKnown events rest

  IsKnown-append :
      (xs ys : List AccountEvent) (o : BrokerOperation) (t : Option AccountEventType)
      → IsKnown xs o t
      → IsKnown (xs ++ ys) o t
  IsKnown-append xs ys o none h = tt
  IsKnown-append xs ys o (some t) h =
      ground (arith, any-append (has_fingerprint (operation_fingerprint bank account_id o t)) xs ys)

  AreKnown-append :
      (xs ys : List AccountEvent) (operations : List BrokerOperation)
      → AreKnown xs operations
      → AreKnown (xs ++ ys) operations
  AreKnown-append xs ys [] h = tt
  AreKnown-append xs ys (o ∷ rest) (h, hs) =
      (IsKnown-append xs ys o (operation_event_type o) h, AreKnown-append xs ys rest hs)

  any-last :
      (p : AccountEvent → Bool) (xs : List AccountEvent) (e : AccountEvent)
      → p e ≡ true
      → any p (xs ++ e ∷ []) ≡ true
  any-last p xs e h = ground (arith, any-append p xs (e ∷ []))

  saved-IsKnown :
      (r : AccountReconciliation) (o : BrokerOperation) (t : AccountEventType) (s : Books)
      → IsKnown
          (save_account_event bank r t
            (some o)
            (operation_fingerprint bank account_id o t)
            s).1.events
          o
          (some t)
  saved-IsKnown r o t s =
      let f = operation_fingerprint bank account_id o t in
      elim (save-cases bank r t (some o) f s) [
        | inl (p, q) ↦ rw q p
        | inr (p, q, e, k) ↦ rw e (
            any-last (has_fingerprint f) s.events
              (new_event bank r t (some o) f (bank.clock s.calls)) ((eq_iff f f).1 refl))
      ]

  record_all-AreKnown :
      (r : AccountReconciliation) (operations : List BrokerOperation) (s : Books)
      → AreKnown (record_all bank r account_id operations s).1.events operations
  record_all-AreKnown r [] s = tt
  record_all-AreKnown r (o ∷ rest) s = elim (Option-cases (operation_event_type o)) [
    | inl p ↦
        known-cons (record_all-none bank r account_id o rest s p) (rw p tt)
          (record_all-AreKnown r rest s)
    | inr (t, p) ↦
        let u =
          (save_account_event bank r t (some o) (operation_fingerprint bank account_id o t) s).1 in
        let k = record_all-IsRecorded bank r account_id rest u in
        known-cons (record_all-some bank r account_id o rest s t p)
          (rw p (
            subst (λ (l : List AccountEvent). IsKnown l o (some t)) (sym k.events)
              (IsKnown-append u.events k.new o (some t) (saved-IsKnown r o t s))))
          (record_all-AreKnown r rest u)
  ]
    where
      known-cons :
          {x : List AccountEventType × Books}
          → record_all bank r account_id (o ∷ rest) s ≡ x
          → IsKnown x.1.events o (operation_event_type o)
          → AreKnown x.1.events rest
          → AreKnown (record_all bank r account_id (o ∷ rest) s).1.events (o ∷ rest)
      known-cons e h hs =
          subst (λ (y : List AccountEventType × Books). AreKnown y.1.events (o ∷ rest)) (sym e)
            (h, hs)

  known-record_all :
      (r : AccountReconciliation) (operations : List BrokerOperation) (s : Books)
      → AreKnown s.events operations
      → record_all bank r account_id operations s ≡ ([], s)
  known-record_all r [] s h = record_all-nil bank r account_id s
  known-record_all r (o ∷ rest) s (h, hs) = elim (Option-cases (operation_event_type o)) [
    | inl p ↦ record_all-none bank r account_id o rest s p ∙ known-record_all r rest s hs
    | inr (t, p) ↦
        let e = subst (λ (x : Option AccountEventType). IsKnown s.events o x) p h in
        elim (save-cases bank r t (some o) (operation_fingerprint bank account_id o t) s) [
          | inl (a, q) ↦
              record_all-some bank r account_id o rest s t p ∙ rw q (known-record_all r rest s hs)
          | inr (a, q, b, c) ↦ ground arith
        ]
  ]

-- Operations that a reconciliation has recorded are not recorded again: with the same operations, a later
-- reconciliation of the account, whatever events were added in between, finds no new event and leaves
-- the books as they are.
pub record_all_again :
    (bank : Bank) (account_id : String) (first second : AccountReconciliation)
    (operations : List BrokerOperation) (s t : Books) (added : List AccountEvent)
    → t.events ≡ (record_all bank first account_id operations s).1.events ++ added
    → record_all bank second account_id operations t ≡ ([], t)
record_all_again bank account_id first second operations s t added h =
    known-record_all bank account_id second operations t (
      subst (λ (l : List AccountEvent). AreKnown bank account_id l operations) (sym h)
        (AreKnown-append bank account_id _ added operations
          (record_all-AreKnown bank account_id first operations s)))
