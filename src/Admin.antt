-- ===== src/Admin.antt =====
-- app/admin/service.py, `AdminService`: what an administrator does. A request runs in a session of its
-- own, which commits once at its end: when it raises, the tables are as they were.
pub mod Schemas
pub mod Changes
pub mod Store
pub mod Sound
pub mod Updates
pub mod Additions
pub mod Again
pub mod Requests
use auto_invest_manager.Base.{
  ℕ, ◌+◌, ◌==◌, Bool, true, false, ◌&&◌, ◌||◌, Option, none, some, List, [], ◌∷◌, ◌++◌, map, update,
  keep, any, String, str_eq, if◌then◌else◌, Result, ok, err, Error, Action, pure, gets, modify,
  lift, or_raise, raise_if, ◌>>=◌, ◌>>◌, length,
}
use auto_invest_manager.Models.Entities.{
  SystemSettings, Instrument, WatchlistItem, RiskProfile, StrategyProfile, AuditLog,
}
use auto_invest_manager.Admin.Schemas.{
  InstrumentReference, SystemSettingsUpdate, WatchlistItemCreate, WatchlistItemUpdate,
  RiskProfileUpdate, StrategyProfileUpdate, or_kept, exceeds,
}
use auto_invest_manager.Admin.Changes.{
  settings_is_refused, settings_applied, item_is_refused, item_applied, risk_is_refused,
  risk_applied, check_weights, strategy_is_refused, strategy_applied,
}
use auto_invest_manager.Admin.Store.{
  Tables, Outside, get_system_settings_row, get_active_risk_profile, get_default_strategy_profile,
  list_watchlist_rows, get_watchlist_item_row, has_instrument, add_audit, get_instrument,
  upsert_instrument, add_watchlist_row,
}

abbrev rolled_back : {A : Type 0} → Tables → Result A × Tables → Result A × Tables
rolled_back s (ok a, t) = (ok a, t)
rolled_back s (err e, t) = (err e, record s { calls = t.calls })

abbrev pub in_session : {A : Type 0} → Action Tables A → Action Tables A
in_session m s = rolled_back s (m s)

abbrev pub get_system_settings : Action Tables SystemSettings
get_system_settings s = or_raise (get_system_settings_row s) Error.resource_not_found s

abbrev pub replace_settings : SystemSettings → List SystemSettings → List SystemSettings
replace_settings x [] = []
replace_settings x (y ∷ ys) = x ∷ ys

unfoldable pub update_system_settings : SystemSettingsUpdate → Action Tables SystemSettings
update_system_settings payload = get_system_settings >>= λ entity.
    raise_if (settings_is_refused payload) Error.integrity
    >> modify (λ s. add_audit "system_settings.updated" 0 (record s {
      system_settings = replace_settings (settings_applied payload entity) s.system_settings;
    }))
    >> pure (settings_applied payload entity)

abbrev get_watchlist_item : ℕ → Action Tables WatchlistItem
get_watchlist_item id s = or_raise (get_watchlist_item_row id s) Error.resource_not_found s

-- The row of that id.
abbrev pub replace_item : WatchlistItem → List WatchlistItem → List WatchlistItem
replace_item x items = update (λ (y : WatchlistItem). y.id == x.id) (λ y. x) items

unfoldable pub update_watchlist_item : ℕ → WatchlistItemUpdate → Action Tables WatchlistItem
update_watchlist_item item_id payload = get_watchlist_item item_id >>= λ item.
    raise_if
      (exceeds (or_kept item.manual_target_weight payload.manual_target_weight)
        (or_kept item.max_weight payload.max_weight))
      Error.resource_conflict
    >> raise_if (item_is_refused payload) Error.integrity
    >> modify (λ s.
      add_audit "watchlist.updated" item_id
        (record s { watchlist = replace_item (item_applied payload item) s.watchlist }))
    >> pure (item_applied payload item)

abbrev pub without_item : ℕ → List WatchlistItem → List WatchlistItem
without_item id [] = []
without_item id (x ∷ xs) = let rest = without_item id xs in if x.id == id then rest else x ∷ rest

unfoldable pub remove_watchlist_item : ℕ → Action Tables (Unit {0})
remove_watchlist_item item_id = get_watchlist_item item_id >>= λ item. modify (λ s.
    add_audit "watchlist.removed" item_id
      (record s { watchlist = without_item item.id s.watchlist }))

abbrev get_risk_profile : Action Tables RiskProfile
get_risk_profile s = or_raise (get_active_risk_profile s) Error.resource_not_found s

abbrev pub replace_profile : RiskProfile → List RiskProfile → List RiskProfile
replace_profile x profiles = update (λ (y : RiskProfile). y.id == x.id) (λ y. x) profiles

unfoldable pub update_risk_profile : RiskProfileUpdate → Action Tables RiskProfile
update_risk_profile payload = get_risk_profile >>= λ entity.
    lift (check_weights payload.max_position_weight payload.min_cash_weight entity)
    >> raise_if (risk_is_refused payload) Error.integrity
    >> modify (λ s.
      add_audit "risk_profile.updated" entity.id (record s {
        risk_profiles = replace_profile (risk_applied payload entity) s.risk_profiles;
      }))
    >> pure (risk_applied payload entity)

abbrev pub get_strategy_profile : Action Tables StrategyProfile
get_strategy_profile s = or_raise (get_default_strategy_profile s) Error.resource_not_found s

unfoldable pub update_strategy_profile : StrategyProfileUpdate → Action Tables StrategyProfile
update_strategy_profile payload = get_strategy_profile >>= λ entity.
    raise_if (strategy_is_refused payload) Error.integrity
    >> modify (λ s. add_audit "strategy_profile.updated" entity.id (record s {
      strategy_profiles =
          update (λ (y : StrategyProfile). y.id == entity.id) (strategy_applied payload)
            s.strategy_profiles;
    }))
    >> pure (strategy_applied payload entity)

module _ (o : Outside) where
  abbrev pub find_instrument : String → String → Action Tables Store.InstrumentData
  find_instrument ticker class_code s =
      (o.find_instrument s.calls ticker class_code, record s { calls = s.calls + 1 })

  abbrev pub seen_before : String → String → List (String × String) → Bool
  seen_before ticker class_code seen =
      any (λ (k : String × String). str_eq k.0 ticker && str_eq k.1 class_code) seen

  -- The `for` loop of `sync_instruments`, with the keys that were seen.
  unfoldable pub sync_all :
      List InstrumentReference → List (String × String) → Action Tables (List Instrument)
  sync_all [] seen = pure []
  sync_all (reference ∷ rest) seen =
      let ticker = o.upper reference.ticker in
      let class_code = o.upper reference.class_code in
      let skipped = sync_all rest seen in
      let others = sync_all rest ((ticker, class_code) ∷ seen) in
      if seen_before ticker class_code seen
      then skipped
      else find_instrument ticker class_code >>= λ found.
          upsert_instrument o found >>= λ instrument.
          others >>= λ synced. pure (instrument ∷ synced)

  unfoldable pub sync_instruments : List InstrumentReference → Action Tables (List Instrument)
  sync_instruments references = sync_all references [] >>= λ synced.
      modify (add_audit "instruments.synced" (length synced)) >> pure synced

  abbrev already_listed : Option Instrument → List WatchlistItem → Bool
  already_listed none items = false
  already_listed (some existing) items = any (has_instrument existing.id) items

  -- The instrument of the payload is in the watchlist.
  abbrev pub is_listed : WatchlistItemCreate → Tables → Bool
  is_listed payload s =
      already_listed (get_instrument o payload.reference.ticker payload.reference.class_code s)
        (list_watchlist_rows s)

  unfoldable pub add_watchlist_item : WatchlistItemCreate → Action Tables WatchlistItem
  add_watchlist_item payload =
      find_instrument payload.reference.ticker payload.reference.class_code >>= λ found.
      upsert_instrument o found >>= λ instrument. gets (is_listed payload) >>= λ listed.
      raise_if listed Error.resource_conflict >> add_watchlist_row instrument payload >>= λ item.
      modify (add_audit "watchlist.added" item.id) >> pure item
