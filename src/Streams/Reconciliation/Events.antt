-- ===== src/Streams/Reconciliation/Events.antt =====
-- What the storing of one event changes.
use auto_invest_manager.Base.{
  append_nil, ◌≡◌, refl, sym, ap, ◌∙◌, Bool, true, false, ◌&&◌, not, Option, List, [], ◌∷◌, ◌++◌,
  map, any, any-append, arith, inl, inr, ◌⊎◌, Bool-cases, String, str_eq, eq_iff, if◌then◌else◌,
}
use auto_invest_manager.Models.Enums.{AccountEventType}
use auto_invest_manager.Models.Entities.{AccountEvent, AccountReconciliation}
use auto_invest_manager.Streams.Operations.{BrokerOperation}
use auto_invest_manager.Streams.Ledger.{
  Books, Bank, has_fingerprint, new_event, notify_deposit, save_account_event,
}

-- No two events have one fingerprint.
abbrev pub are_distinct : List AccountEvent → Bool
are_distinct [] = true
are_distinct (e ∷ rest) = not (any (has_fingerprint e.fingerprint) rest) && are_distinct rest

abbrev pub types_of : List AccountEvent → List AccountEventType
types_of events = map (λ (e : AccountEvent). e.event_type) events

-- The rows stay, and the events grow by one for each type.
pub record IsRecorded (s : Books) (o : List AccountEventType × Books) : Type 0 where
  pub rows : o.1.reconciliations ≡ s.reconciliations
  pub new : List AccountEvent
  pub events : o.1.events ≡ s.events ++ new
  pub types : types_of new ≡ o.0

types-append : (xs ys : List AccountEvent) → types_of (xs ++ ys) ≡ types_of xs ++ types_of ys
types-append [] ys = refl
types-append (x ∷ xs) ys = ap (λ (l : List AccountEventType). x.event_type ∷ l) (types-append xs ys)

append_assoc : (xs ys zs : List AccountEvent) → (xs ++ ys) ++ zs ≡ xs ++ (ys ++ zs)
append_assoc [] ys zs = refl
append_assoc (x ∷ xs) ys zs = ap (λ (l : List AccountEvent). x ∷ l) (append_assoc xs ys zs)

pub IsRecorded-nil : (s : Books) → IsRecorded s ([], s)
IsRecorded-nil s = record {
  rows = refl;
  new = [];
  events = sym (append_nil s.events);
  types = refl;
}

pub IsRecorded-append :
    (s u v : Books) (ts us : List AccountEventType)
    → IsRecorded s (ts, u)
    → IsRecorded u (us, v)
    → IsRecorded s (ts ++ us, v)
IsRecorded-append s u v ts us h k = record {
  rows = k.rows ∙ h.rows;
  new = h.new ++ k.new;
  events =
      k.events
      ∙ ap (λ (l : List AccountEvent). l ++ k.new) h.events
      ∙ append_assoc s.events h.new k.new;
  types =
      types-append h.new k.new
      ∙ ap (λ (l : List AccountEventType). l ++ types_of k.new) h.types
      ∙ ap (λ (l : List AccountEventType). ts ++ l) k.types;
}

distinct-snoc :
    (xs : List AccountEvent) (e : AccountEvent)
    → are_distinct xs ≡ true
    → any (has_fingerprint e.fingerprint) xs ≡ false
    → are_distinct (xs ++ e ∷ []) ≡ true
distinct-snoc [] e h k = refl
distinct-snoc (x ∷ xs) e h k =
    let ih = distinct-snoc xs e (ground arith) (ground arith) in
    let d : str_eq e.fingerprint x.fingerprint ≡ false =
      str_eq-sym x.fingerprint e.fingerprint (ground arith) in
    ground (arith, ih, d, any-append (has_fingerprint x.fingerprint) xs (e ∷ []))
  where
    str_eq-sym : (a b : String) → str_eq a b ≡ false → str_eq b a ≡ false
    str_eq-sym a b h = elim (Bool-cases (str_eq b a)) [
      | inr p ↦ p
      | inl p ↦ let q : str_eq a b ≡ true = (eq_iff a b).1 (sym ((eq_iff b a).0 p)) in cc
    ]

module _ (bank : Bank) where
  notify_deposit-events :
      (t : AccountEventType) (s : Books)
      → ((notify_deposit bank t s).events ≡ s.events)
        × ((notify_deposit bank t s).reconciliations ≡ s.reconciliations)
  notify_deposit-events AccountEventType.account_change s = (refl, refl)
  notify_deposit-events AccountEventType.deposit_detected s = (refl, refl)
  notify_deposit-events AccountEventType.withdrawal_detected s = (refl, refl)
  notify_deposit-events AccountEventType.order_execution_detected s = (refl, refl)

  -- An event whose fingerprint is there is left; any other is added.
  pub save-cases :
      (r : AccountReconciliation) (t : AccountEventType) (o : Option BrokerOperation) (f : String)
      (s : Books)
      → ((any (has_fingerprint f) s.events ≡ true)
          × (save_account_event bank r t o f s ≡ (false, s)))
        ⊎ ((any (has_fingerprint f) s.events ≡ false)
            × ((save_account_event bank r t o f s).0 ≡ true)
            × ((save_account_event bank r t o f s).1.events
                ≡ s.events ++ new_event bank r t o f (bank.clock s.calls) ∷ [])
            × ((save_account_event bank r t o f s).1.reconciliations ≡ s.reconciliations))
  unfolding save_account_event
  save-cases r t o f s = elim (Bool-cases (any (has_fingerprint f) s.events)) [
    | inl p ↦ inl (p, ground arith)
    | inr p ↦
        inr
          (p, rw p refl, rw p ((notify_deposit-events t _).0), rw p ((notify_deposit-events t _).1))
  ]

  pub saved-IsRecorded :
      (r : AccountReconciliation) (t : AccountEventType) (o : Option BrokerOperation) (f : String)
      (s : Books)
      → IsRecorded s (
        if (save_account_event bank r t o f s).0 then t ∷ [] else [],
        (save_account_event bank r t o f s).1,
      )
  saved-IsRecorded r t o f s = elim (save-cases r t o f s) [
    | inl (p, q) ↦ rw q (IsRecorded-nil s)
    | inr (p, q, e, k) ↦ record {
      rows = k;
      new = new_event bank r t o f (bank.clock s.calls) ∷ [];
      events = e;
      types = rw q refl;
    }
  ]

  pub saved-are_distinct :
      (r : AccountReconciliation) (t : AccountEventType) (o : Option BrokerOperation) (f : String)
      (s : Books)
      → are_distinct s.events ≡ true
      → are_distinct (save_account_event bank r t o f s).1.events ≡ true
  saved-are_distinct r t o f s h = elim (save-cases r t o f s) [
    | inl (p, q) ↦ rw q h
    | inr (p, q, e, k) ↦
        rw e (distinct-snoc s.events (new_event bank r t o f (bank.clock s.calls)) h p)
  ]
