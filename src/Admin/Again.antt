-- ===== src/Admin/Again.antt =====
-- app/admin/service.py: an instrument is added to the watchlist once.
use auto_invest_manager.Base.{
  ◌⊎◌, ℕ, ◌+◌, ◌==◌, ==_iff, ◌≡◌, refl, ap, ◌∙◌, Bool, true, Option, some, List, [], ◌∷◌, find,
  find-append_none, update, any, any-append, ok, err, Error, arith, Bool-cases, Option-cases,
  Result-cases, inl, inr, str_eq, eq_iff, String,
}
use auto_invest_manager.Models.Entities.{Instrument, WatchlistItem}
use auto_invest_manager.Admin.Schemas.{WatchlistItemCreate}
use auto_invest_manager.Admin.Store.{
  Tables, Outside, InstrumentData, has_instrument, instrument_of, item_of, clashes, upserted,
  upsert_instrument, add_watchlist_row, with_instrument,
}
use auto_invest_manager.Admin.{add_watchlist_item, is_listed}

abbrev by_uid : String → List Instrument → Option Instrument
by_uid uid rows = find (λ (x : Instrument). str_eq x.instrument_uid uid) rows

any-with_instrument :
    (o : Outside) (id : ℕ) (i : Instrument) (items : List WatchlistItem)
    → any (has_instrument id) (with_instrument o i items) ≡ any (has_instrument id) items
any-with_instrument o id i [] = refl
any-with_instrument o id i (x ∷ xs) = ground (arith, any-with_instrument o id i xs)

-- The row that is found is replaced by one that is found as well.
find-replaced :
    (p q : Instrument → Bool) (old new : Instrument) (rows : List Instrument)
    → find p rows ≡ some old
    → q old ≡ true
    → p new ≡ true
    → find p (update q (λ x. new) rows) ≡ some new
find-replaced p q old new [] h k l = absurd cc
find-replaced p q old new (x ∷ xs) h k l = elim (Bool-cases (p x)) [
  | inl e ↦
      let same : x ≡ old = some-inj x old (ground arith) in
      let passed : q x ≡ true = ap q same ∙ k in ground arith
  | inr e ↦ let ih = find-replaced p q old new xs (ground arith) k l in ground arith
]
  where
    some-inj : (a b : Instrument) → some a ≡ some b → a ≡ b
    some-inj a b h = cc

module _ (o : Outside) where
  -- A row of the uid stays the row of its uid, and a new one becomes it.
  upserted-by_uid :
      (found : InstrumentData) (s : Tables)
      → let out = upserted o (by_uid found.instrument_uid s.instruments) found s in
        by_uid found.instrument_uid out.1.instruments ≡ some out.0
  upserted-by_uid found s = elim (Option-cases (by_uid found.instrument_uid s.instruments)) [
    | inl p ↦ ground (
      arith,
      find-append_none (λ (x : Instrument). str_eq x.instrument_uid found.instrument_uid)
          s.instruments (instrument_of o found s.next_id ∷ []) p,
      (eq_iff found.instrument_uid found.instrument_uid).1 refl,
    )
    | inr (old, p) ↦ ground (
      arith,
      find-replaced (λ (x : Instrument). str_eq x.instrument_uid found.instrument_uid)
          (λ (x : Instrument). x.id == old.id) old (instrument_of o found old.id) s.instruments p
          ((==_iff old.id old.id).1 refl)
          ((eq_iff found.instrument_uid found.instrument_uid).1 refl),
    )
  ]

  upsert_instrument-ok :
      (found : InstrumentData) (s : Tables) (i : Instrument)
      → (upsert_instrument o found s).0 ≡ ok i
      → by_uid found.instrument_uid (upsert_instrument o found s).1.instruments ≡ some i
  unfolding upsert_instrument
  upsert_instrument-ok found s i h =
      let out = upserted o (by_uid found.instrument_uid s.instruments) found s in
      elim (Bool-cases (any (clashes o out.0) out.1.instruments)) [
        | inl c ↦ absurd (ground arith)
        | inr c ↦ ground (arith, upserted-by_uid found s)
      ]

  -- When the instrument of the uid is in the watchlist, it is there afterwards.
  upsert_instrument-listed :
      (found : InstrumentData) (s : Tables) (i : Instrument)
      → by_uid found.instrument_uid s.instruments ≡ some i
      → any (has_instrument i.id) s.watchlist ≡ true
      → let out = upsert_instrument o found s in
        ((out.0 ≡ ok (instrument_of o found i.id))
          × (any (has_instrument i.id) out.1.watchlist ≡ true))
        ⊎ (out.0 ≡ err Error.integrity)
  unfolding upsert_instrument
  upsert_instrument-listed found s i h k =
      let out = upserted o (some i) found s in
      elim (Bool-cases (any (clashes o out.0) out.1.instruments)) [
        | inl c ↦ inr (ground arith)
        | inr c ↦ inl (
          ground arith,
          ground (arith, any-with_instrument o i.id (instrument_of o found i.id) s.watchlist),
        )
      ]

  add_watchlist_row-taken :
      (i : Instrument) (p : WatchlistItemCreate) (s : Tables)
      → any (has_instrument i.id) s.watchlist ≡ true
      → (add_watchlist_row i p s).0 ≡ err Error.integrity
  unfolding add_watchlist_row
  add_watchlist_row-taken i p s h = ground arith

  -- A successful addition leaves the row of the instrument, with its item.
  add_watchlist_item-added :
      (p : WatchlistItemCreate) (s : Tables) (item : WatchlistItem) (found : InstrumentData)
      → (add_watchlist_item o p s).0 ≡ ok item
      → o.find_instrument s.calls p.reference.ticker p.reference.class_code ≡ ok found
      → let t = (add_watchlist_item o p s).1 in
        (i : Instrument) × (by_uid found.instrument_uid t.instruments ≡ some i)
        × (any (has_instrument i.id) t.watchlist ≡ true)
  unfolding add_watchlist_item add_watchlist_row
  add_watchlist_item-added p s item found h f =
      let u : Tables = record s { calls = s.calls + 1 } in
      let t = (upsert_instrument o found u).1 in
      elim (Result-cases (upsert_instrument o found u).0) [
        | inr (e, q) ↦ absurd (ground arith)
        | inl (i, q) ↦ elim (Bool-cases (is_listed o p t)) [
          | inl r ↦ absurd (ground arith)
          | inr r ↦ elim (Bool-cases (any (has_instrument i.id) t.watchlist)) [
            | inl v ↦ absurd (ground arith)
            | inr v ↦ (
              i,
              ground (arith, upsert_instrument-ok found u i q),
              ground (
                arith,
                any-append (has_instrument i.id) t.watchlist (item_of i p t.next_id ∷ []),
                (==_iff i.id i.id).1 refl,
              ),
            )
          ]
        ]
      ]

  refused :
      (again : WatchlistItemCreate) (t : Tables) (later : InstrumentData) (i : Instrument)
      → o.find_instrument t.calls again.reference.ticker again.reference.class_code ≡ ok later
      → by_uid later.instrument_uid t.instruments ≡ some i
      → any (has_instrument i.id) t.watchlist ≡ true
      → ((add_watchlist_item o again t).0 ≡ err Error.resource_conflict)
        ⊎ ((add_watchlist_item o again t).0 ≡ err Error.integrity)
  unfolding add_watchlist_item
  refused again t later i l q v =
      let u : Tables = record t { calls = t.calls + 1 } in
      let w = (upsert_instrument o later u).1 in
      let j = instrument_of o later i.id in
      elim (upsert_instrument-listed later u i q v) [
        | inr x ↦ inr (ground arith)
        | inl (x, y) ↦ elim (Bool-cases (is_listed o again w)) [
          | inl r ↦ inl (ground arith)
          | inr r ↦ inr (ground (arith, add_watchlist_row-taken j again w y))
        ]
      ]

  -- Once an instrument is in the watchlist, another request for which the broker answers with an
  -- instrument of the same uid raises, whatever ticker it gives: ResourceConflictError, or the
  -- IntegrityError of a flush.
  pub add_watchlist_item_again :
      (p again : WatchlistItemCreate) (s : Tables) (item : WatchlistItem)
      (found later : InstrumentData)
      → (add_watchlist_item o p s).0 ≡ ok item
      → o.find_instrument s.calls p.reference.ticker p.reference.class_code ≡ ok found
      → let t = (add_watchlist_item o p s).1 in
        o.find_instrument t.calls again.reference.ticker again.reference.class_code ≡ ok later
        → later.instrument_uid ≡ found.instrument_uid
        → ((add_watchlist_item o again t).0 ≡ err Error.resource_conflict)
          ⊎ ((add_watchlist_item o again t).0 ≡ err Error.integrity)
  add_watchlist_item_again p again s item found later h f l u =
      let t = (add_watchlist_item o p s).1 in
      let (i, q, v) = add_watchlist_item-added p s item found h f in
      refused again t later i l (ap (λ (k : String). by_uid k t.instruments) u ∙ q) v
