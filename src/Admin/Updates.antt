-- ===== src/Admin/Updates.antt =====
-- app/admin/service.py: an update and a removal keep the limits of the tables.
use auto_invest_manager.Base.{
  ℕ, ◌==◌, ◌≡◌, refl, ap, subst, true, Option, update, all, Error, arith, Bool-cases, Option-cases,
  Result-cases, inl, inr, or_raise, ◌∙◌, modify,
}
use auto_invest_manager.Base.Keeping.{
  Keeps, Keeps-bind, Keeps-then, Keeps-pure, Keeps-raise_if, Keeps-or_raise,
}
use auto_invest_manager.Models.Entities.{StrategyProfile}
use auto_invest_manager.Admin.{
  update_system_settings, update_watchlist_item, remove_watchlist_item, update_risk_profile,
  update_strategy_profile, replace_settings, replace_item, replace_profile, without_item,
}
use auto_invest_manager.Admin.Schemas.{
  SystemSettingsUpdate, WatchlistItemUpdate, RiskProfileUpdate, StrategyProfileUpdate, exceeds,
  is_valid_item_update, is_valid_risk_update, or_kept,
}
use auto_invest_manager.Admin.Changes.{
  settings_is_refused, settings_applied, strategy_is_refused, strategy_applied, item_applied,
  item_is_refused, risk_applied, risk_is_refused, check_weights,
}
use auto_invest_manager.Admin.Store.{
  Tables, add_audit, get_watchlist_item_row, get_active_risk_profile, get_system_settings_row,
  get_default_strategy_profile,
}
use auto_invest_manager.Admin.Sound.{
  IsSound, is_limited, is_safe, all-update, all-find, all-without, item_applied-limited,
  risk_applied-safe,
}

module _ (s : Tables) (h : IsSound s) where
  pub update_watchlist_item-IsSound :
      (id : ℕ) (p : WatchlistItemUpdate)
      → is_valid_item_update p ≡ true
      → IsSound (update_watchlist_item id p s).1
  unfolding update_watchlist_item
  update_watchlist_item-IsSound id p v = elim (Option-cases (get_watchlist_item_row id s)) [
    | inl n ↦ subst (λ (t : Tables). IsSound t) {x = s} (ground arith) h
    | inr (x, f) ↦
        let e =
          exceeds (or_kept x.manual_target_weight p.manual_target_weight)
            (or_kept x.max_weight p.max_weight) in
        elim (Bool-cases e) [
          | inl q ↦ subst (λ (t : Tables). IsSound t) {x = s} (ground arith) h
          | inr q ↦ elim (Bool-cases (item_is_refused p)) [
            | inl r ↦ subst (λ (t : Tables). IsSound t) {x = s} (ground arith) h
            | inr r ↦
                let y = item_applied p x in
                subst (λ (t : Tables). IsSound t)
                  {x = add_audit "watchlist.updated" id
                    (record s { watchlist = replace_item y s.watchlist })}
                  (ground arith)
                  (record {
                    items =
                        all-update is_limited _ (λ z. y) s.watchlist
                          (λ z k.
                            item_applied-limited p x v (all-find is_limited _ s.watchlist h.items f)
                              q)
                          h.items;
                    profiles = h.profiles;
                  })
          ]
        ]
  ]

  pub update_risk_profile-IsSound :
      (p : RiskProfileUpdate) → is_valid_risk_update p ≡ true → IsSound (update_risk_profile p s).1
  unfolding update_risk_profile
  update_risk_profile-IsSound p v = elim (Option-cases (get_active_risk_profile s)) [
    | inl n ↦ subst (λ (t : Tables). IsSound t) {x = s} (ground arith) h
    | inr (x, f) ↦ elim (Result-cases (check_weights p.max_position_weight p.min_cash_weight x)) [
      | inr (e, q) ↦ subst (λ (t : Tables). IsSound t) {x = s} (ground arith) h
      | inl (u, q) ↦ elim (Bool-cases (risk_is_refused p)) [
        | inl r ↦ subst (λ (t : Tables). IsSound t) {x = s} (ground arith) h
        | inr r ↦
            let y = risk_applied p x in
            subst (λ (t : Tables). IsSound t)
              {x = add_audit "risk_profile.updated" x.id
                (record s { risk_profiles = replace_profile y s.risk_profiles })}
              (ground arith)
              (record {
                items = h.items;
                profiles =
                    all-update is_safe _ (λ z. y) s.risk_profiles
                      (λ z k.
                        risk_applied-safe p x v (all-find is_safe _ s.risk_profiles h.profiles f) q)
                      h.profiles;
              })
      ]
    ]
  ]

  pub remove_watchlist_item-IsSound : (id : ℕ) → IsSound (remove_watchlist_item id s).1
  unfolding remove_watchlist_item
  remove_watchlist_item-IsSound id = elim (Option-cases (get_watchlist_item_row id s)) [
    | inl n ↦ subst (λ (t : Tables). IsSound t) {x = s} (ground arith) h
    | inr (x, f) ↦
        subst (λ (t : Tables). IsSound t)
          {x = add_audit "watchlist.removed" id
            (record s { watchlist = without_item x.id s.watchlist })}
          (ground arith)
          (record { items = all-without x.id s.watchlist h.items; profiles = h.profiles })
  ]

-- What is looked up, and a change of other tables, keep the limits.
got-Keeps :
    {A : Type 0} (f : Tables → Option A) (e : Error) → Keeps IsSound (λ s. or_raise (f s) e s)
unfolding Keeps
got-Keeps f e s h = unfold Keeps in Keeps-or_raise IsSound (f s) e s h

pub modify-Keeps :
    (f : Tables → Tables)
    → ((s : Tables) → (f s).watchlist ≡ s.watchlist)
    → ((s : Tables) → (f s).risk_profiles ≡ s.risk_profiles)
    → Keeps IsSound (modify f)
unfolding Keeps
modify-Keeps f p q s h = record {
  items = ap (all is_limited) (p s) ∙ h.items;
  profiles = ap (all is_safe) (q s) ∙ h.profiles;
}

pub update_system_settings-Keeps :
    (p : SystemSettingsUpdate) → Keeps IsSound (update_system_settings p)
unfolding update_system_settings
update_system_settings-Keeps p =
    Keeps-bind IsSound _ _ (got-Keeps get_system_settings_row Error.resource_not_found) (λ entity.
      Keeps-then IsSound _ _
        (Keeps-then IsSound _ _ (Keeps-raise_if IsSound (settings_is_refused p) Error.integrity) (
          modify-Keeps
            (λ s. add_audit "system_settings.updated" 0 (record s {
              system_settings = replace_settings (settings_applied p entity) s.system_settings;
            }))
            (λ s. refl) (λ s. refl)))
        (Keeps-pure IsSound (settings_applied p entity)))

pub update_strategy_profile-Keeps :
    (p : StrategyProfileUpdate) → Keeps IsSound (update_strategy_profile p)
unfolding update_strategy_profile
update_strategy_profile-Keeps p =
    Keeps-bind IsSound _ _ (got-Keeps get_default_strategy_profile Error.resource_not_found)
      (λ entity.
        Keeps-then IsSound _ _
          (Keeps-then IsSound _ _ (Keeps-raise_if IsSound (strategy_is_refused p) Error.integrity) (
            modify-Keeps
              (λ s. add_audit "strategy_profile.updated" entity.id (record s {
                strategy_profiles =
                    update (λ (y : StrategyProfile). y.id == entity.id) (strategy_applied p)
                      s.strategy_profiles;
              }))
              (λ s. refl) (λ s. refl)))
          (Keeps-pure IsSound (strategy_applied p entity)))
