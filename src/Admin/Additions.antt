-- ===== src/Admin/Additions.antt =====
-- app/admin/service.py: a sync and a new item keep the limits of the tables.
use auto_invest_manager.Base.{
  ℕ, ◌+◌, ◌≡◌, refl, subst, Bool, true, false, Option, none, some, List, [], ◌∷◌, ◌++◌, find, any,
  if◌then◌else◌, Error, Action, arith, Bool-cases, inl, inr, String, str_eq, length, modify,
}
use auto_invest_manager.Base.Keeping.{
  Keeps, Keeps-bind, Keeps-then, Keeps-pure, Keeps-gets, Keeps-raise_if,
}
use auto_invest_manager.Models.Entities.{Instrument, WatchlistItem}
use auto_invest_manager.Admin.{
  is_listed, find_instrument, seen_before, sync_all, sync_instruments, add_watchlist_item,
}
use auto_invest_manager.Admin.Schemas.{InstrumentReference, WatchlistItemCreate, is_valid_create}
use auto_invest_manager.Admin.Store.{
  Tables, Outside, InstrumentData, instrument_of, add_audit, item_of, has_instrument, upserted,
  upsert_instrument, add_watchlist_row,
}
use auto_invest_manager.Admin.Sound.{IsSound, is_limited, all-append, all-update}
use auto_invest_manager.Admin.Updates.{modify-Keeps}

module _ (o : Outside) where
  find_instrument-Keeps :
      (ticker class_code : String) → Keeps IsSound (find_instrument o ticker class_code)
  unfolding Keeps
  find_instrument-Keeps ticker class_code s h = record { items = h.items; profiles = h.profiles }

  upserted-IsSound :
      (old : Option Instrument) (found : InstrumentData) (s : Tables)
      → IsSound s
      → IsSound (upserted o old found s).1
  upserted-IsSound none found s h = record { items = h.items; profiles = h.profiles }
  upserted-IsSound (some old) found s h =
      let i = instrument_of o found old.id in
      record {
        items =
            all-update is_limited (has_instrument i.id)
              (λ (x : WatchlistItem). record x { instrument = i }) s.watchlist (λ x k. k) h.items;
        profiles = h.profiles;
      }

  upsert_instrument-Keeps : (found : InstrumentData) → Keeps IsSound (upsert_instrument o found)
  unfolding Keeps upsert_instrument
  upsert_instrument-Keeps found s h =
      let known =
        find (λ (x : Instrument). str_eq x.instrument_uid found.instrument_uid) s.instruments in
      subst (λ (t : Tables). IsSound t) {x = (upserted o known found s).1} (ground arith)
        (upserted-IsSound known found s h)

  if-Keeps :
      {A : Type 0} (b : Bool) (m n : Action Tables A)
      → Keeps IsSound m
      → Keeps IsSound n
      → Keeps IsSound (if b then m else n)
  if-Keeps true m n h k = h
  if-Keeps false m n h k = k

  audit-Keeps :
      (event_type : String) (subject : ℕ) → Keeps IsSound (modify (add_audit event_type subject))
  audit-Keeps event_type subject =
      modify-Keeps (add_audit event_type subject) (λ s. refl) (λ s. refl)

  sync_all-Keeps :
      (references : List InstrumentReference) (seen : List (String × String))
      → Keeps IsSound (sync_all o references seen)
  unfolding sync_all
  sync_all-Keeps [] seen = Keeps-pure IsSound []
  sync_all-Keeps (reference ∷ rest) seen =
      let ticker = o.upper reference.ticker in
      let class_code = o.upper reference.class_code in
      if-Keeps (seen_before o ticker class_code seen) _ _ (sync_all-Keeps rest seen) (
        Keeps-bind IsSound _ _ (find_instrument-Keeps ticker class_code) (λ found.
          Keeps-bind IsSound _ _ (upsert_instrument-Keeps found) (λ instrument.
            Keeps-bind IsSound _ _ (sync_all-Keeps rest ((ticker, class_code) ∷ seen))
              (λ synced. Keeps-pure IsSound (instrument ∷ synced)))))

  pub sync_instruments-Keeps :
      (references : List InstrumentReference) → Keeps IsSound (sync_instruments o references)
  unfolding sync_instruments
  sync_instruments-Keeps references =
      Keeps-bind IsSound _ _ (sync_all-Keeps references []) (λ synced.
        Keeps-then IsSound _ _ (audit-Keeps "instruments.synced" (length synced))
          (Keeps-pure IsSound synced))

  item_of-limited :
      (i : Instrument) (p : WatchlistItemCreate) (id : ℕ)
      → is_valid_create p ≡ true
      → is_limited (item_of i p id) ≡ true
  item_of-limited i p id h = h

  add_watchlist_row-Keeps :
      (i : Instrument) (p : WatchlistItemCreate)
      → is_valid_create p ≡ true
      → Keeps IsSound (add_watchlist_row i p)
  unfolding Keeps add_watchlist_row
  add_watchlist_row-Keeps i p v s h = elim (Bool-cases (any (has_instrument i.id) s.watchlist)) [
    | inl q ↦ subst (λ (t : Tables). IsSound t) {x = s} (ground arith) h
    | inr q ↦
        subst (λ (t : Tables). IsSound t)
          {x = record s {
            watchlist = s.watchlist ++ item_of i p s.next_id ∷ [];
            next_id = s.next_id + 1;
          }}
          (ground arith)
          (record {
            items =
                all-append is_limited s.watchlist (item_of i p s.next_id) h.items
                  (item_of-limited i p s.next_id v);
            profiles = h.profiles;
          })
  ]

  pub add_watchlist_item-Keeps :
      (p : WatchlistItemCreate) → is_valid_create p ≡ true → Keeps IsSound (add_watchlist_item o p)
  unfolding add_watchlist_item
  add_watchlist_item-Keeps p v =
      Keeps-bind IsSound _ _ (find_instrument-Keeps p.reference.ticker p.reference.class_code)
        (λ found. Keeps-bind IsSound _ _ (upsert_instrument-Keeps found) (λ instrument.
          Keeps-bind IsSound _ _ (Keeps-gets IsSound (is_listed o p)) (λ listed.
            Keeps-bind IsSound _ _
              (Keeps-then IsSound _ _ (Keeps-raise_if IsSound listed Error.resource_conflict)
                (add_watchlist_row-Keeps instrument p v))
              (λ item.
                Keeps-then IsSound _ _ (audit-Keeps "watchlist.added" item.id)
                  (Keeps-pure IsSound item)))))
