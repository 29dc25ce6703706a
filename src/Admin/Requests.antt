-- ===== src/Admin/Requests.antt =====
-- app/admin/service.py: whatever an administrator sends, the limits of the tables hold.
use auto_invest_manager.Base.{
  ℕ, ◌≡◌, subst, Bool, true, List, [], ◌∷◌, all, Action, arith, Result-cases, inl, inr,
}
use auto_invest_manager.Base.Keeping.{Keeps}
use auto_invest_manager.Admin.{
  in_session, update_system_settings, update_watchlist_item, remove_watchlist_item,
  update_risk_profile, update_strategy_profile, sync_instruments, add_watchlist_item,
}
use auto_invest_manager.Admin.Schemas.{
  InstrumentReference, SystemSettingsUpdate, WatchlistItemCreate, WatchlistItemUpdate,
  RiskProfileUpdate, StrategyProfileUpdate, is_valid_create, is_valid_item_update,
  is_valid_risk_update, is_valid_strategy_update,
}
use auto_invest_manager.Admin.Store.{Tables, Outside}
use auto_invest_manager.Admin.Sound.{IsSound}
use auto_invest_manager.Admin.Updates.{
  update_watchlist_item-IsSound, update_risk_profile-IsSound, remove_watchlist_item-IsSound,
  update_system_settings-Keeps, update_strategy_profile-Keeps,
}
use auto_invest_manager.Admin.Additions.{sync_instruments-Keeps, add_watchlist_item-Keeps}

-- What an administrator sends.
pub data Request : Type 0 where
  settings_update : SystemSettingsUpdate → Request
  instruments_sync : List InstrumentReference → Request
  item_create : WatchlistItemCreate → Request
  item_update : ℕ → WatchlistItemUpdate → Request
  item_remove : ℕ → Request
  risk_update : RiskProfileUpdate → Request
  strategy_update : StrategyProfileUpdate → Request

-- The checks of app/admin/schemas.py, which the framework makes before the service is called.
abbrev pub is_valid : Request → Bool
is_valid (Request.item_create p) = is_valid_create p
is_valid (Request.item_update id p) = is_valid_item_update p
is_valid (Request.risk_update p) = is_valid_risk_update p
is_valid (Request.strategy_update p) = is_valid_strategy_update p
is_valid _ = true

module _ (o : Outside) where
  -- The tables after the request.
  abbrev pub perform : Request → Tables → Tables
  perform (Request.settings_update p) s = (in_session (update_system_settings p) s).1
  perform (Request.instruments_sync p) s = (in_session (sync_instruments o p) s).1
  perform (Request.item_create p) s = (in_session (add_watchlist_item o p) s).1
  perform (Request.item_update id p) s = (in_session (update_watchlist_item id p) s).1
  perform (Request.item_remove id) s = (in_session (remove_watchlist_item id) s).1
  perform (Request.risk_update p) s = (in_session (update_risk_profile p) s).1
  perform (Request.strategy_update p) s = (in_session (update_strategy_profile p) s).1

  abbrev pub perform_all : List Request → Tables → Tables
  perform_all [] s = s
  perform_all (r ∷ rs) s = perform_all rs (perform r s)

  in_session-IsSound :
      {A : Type 0} (m : Action Tables A) (s : Tables)
      → IsSound s
      → IsSound (m s).1
      → IsSound (in_session m s).1
  in_session-IsSound m s h k = elim (Result-cases (m s).0) [
    | inl (a, p) ↦ subst (λ (t : Tables). IsSound t) {x = (m s).1} (ground arith) k
    | inr (e, p) ↦
        subst (λ (t : Tables). IsSound t) {x = record s { calls = (m s).1.calls }} (ground arith)
          (record { items = h.items; profiles = h.profiles })
  ]

  perform-IsSound :
      (r : Request) (s : Tables) → is_valid r ≡ true → IsSound s → IsSound (perform r s)
  unfolding Keeps
  perform-IsSound (Request.settings_update p) s v h =
      in_session-IsSound (update_system_settings p) s h (update_system_settings-Keeps p s h)
  perform-IsSound (Request.instruments_sync p) s v h =
      in_session-IsSound (sync_instruments o p) s h (sync_instruments-Keeps o p s h)
  perform-IsSound (Request.item_create p) s v h =
      in_session-IsSound (add_watchlist_item o p) s h (add_watchlist_item-Keeps o p v s h)
  perform-IsSound (Request.item_update id p) s v h =
      in_session-IsSound (update_watchlist_item id p) s h (update_watchlist_item-IsSound s h id p v)
  perform-IsSound (Request.item_remove id) s v h =
      in_session-IsSound (remove_watchlist_item id) s h (remove_watchlist_item-IsSound s h id)
  perform-IsSound (Request.risk_update p) s v h =
      in_session-IsSound (update_risk_profile p) s h (update_risk_profile-IsSound s h p v)
  perform-IsSound (Request.strategy_update p) s v h =
      in_session-IsSound (update_strategy_profile p) s h (update_strategy_profile-Keeps p s h)

  -- Whatever valid requests an administrator sends, in whatever order and whichever of them raise:
  -- when every item of the watchlist is within the limits, with its target not above its maximum, and
  -- every risk profile has room for its position and its cash, they are so afterwards.
  pub perform_all-IsSound :
      (rs : List Request) (s : Tables)
      → all is_valid rs ≡ true
      → IsSound s
      → IsSound (perform_all rs s)
  perform_all-IsSound [] s v h = h
  perform_all-IsSound (r ∷ rs) s v h =
      perform_all-IsSound rs (perform r s) (ground arith) (perform-IsSound r s (ground arith) h)
