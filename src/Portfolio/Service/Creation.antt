-- ===== src/Portfolio/Service/Creation.antt =====
-- What the creation of a plan writes.
use auto_invest_manager.Base.{
  ℕ, ◌≡◌, refl, Bool, true, false, Option, none, some, List, [], ◌∷◌, ◌++◌, map, String, str_eq,
  Result, ok, err, Error, Action, gets, lift, or_raise, raise_if, pure, ◌>>=◌, ◌>>◌, find, suc,
  if◌then◌else◌,
}
use auto_invest_manager.Base.Decimal.{Decimal, from_int, le_decimal}
use auto_invest_manager.Models.Enums.{RebalancePlanStatus}
use auto_invest_manager.Models.Entities.{
  WatchlistItem, RiskProfile, RebalancePlan, Instrument, TargetAllocation,
}
use auto_invest_manager.Models.Ordering.{by_priority}
use auto_invest_manager.Portfolio.Dto.{RebalanceResult}
use auto_invest_manager.Execution.Dto.{PortfolioData}
use auto_invest_manager.Portfolio.Store.{Tables, Market, call, notify}
use auto_invest_manager.Portfolio.Repository.{save_plan, target_rows, add_plan, new_plan}
use auto_invest_manager.Portfolio.Service.{
  create_plan, plan_portfolio, resolve_account_id, only_account, assets_of, optimize_and_plan,
  constraints_of, free_cash, instrument_map, is_empty,
}

pub record IsUnwritten (s t : Tables) : Type 0 where
  pub plans : t.plans ≡ s.plans
  pub audit : t.audit ≡ s.audit
  pub sent : t.sent ≡ s.sent
  pub next_id : t.next_id ≡ s.next_id

pub record IsWritten (p : RebalancePlan) (s t : Tables) : Type 0 where
  pub id : p.id ≡ s.next_id
  pub status : p.status ≡ RebalancePlanStatus.draft
  pub plans : t.plans ≡ s.plans ++ p ∷ []
  pub audit :
      t.audit
      ≡ s.audit
        ++ record {
          event_type = "rebalance_plan.created";
          severity = "info";
          actor = "system";
          subject = p.id;
        }
          ∷ []
  pub sent : t.sent ≡ s.sent ++ "План ребалансировки создан" ∷ []

-- A plan with its audit record and its notification, or an error and nothing.
pub data IsMade (s : Tables) : Result RebalancePlan → Tables → Type 0 where
  written : (p : RebalancePlan) (t : Tables) → IsWritten p s t → IsMade s (ok p) t
  unwritten : (e : Error) (t : Tables) → IsUnwritten s t → IsMade s (err e) t

abbrev Made : Tables → Result RebalancePlan × Tables → Type 0
Made s o = IsMade s o.0 o.1

-- An action that writes nothing, whatever it returns.
record IsReading {A : Type 0} (m : Action Tables A) : Type 0 where
  keeps : (s t : Tables) → IsUnwritten s t → IsUnwritten s (m t).1

-- An action that makes a plan, when nothing has been written before.
record IsMaking (m : Action Tables RebalancePlan) : Type 0 where
  makes : (s t : Tables) → IsUnwritten s t → Made s (m t)

module _ {A : Type 0} where
  call-IsReading : (f : ℕ → Result A) → IsReading (call f)
  call-IsReading f = record {
    keeps =
        λ s t h. record { plans = h.plans; audit = h.audit; sent = h.sent; next_id = h.next_id };
  }

  lift-IsReading : (r : Result A) → IsReading (lift r)
  lift-IsReading r = record { keeps = λ s t h. h }

  gets-IsReading : (f : Tables → A) → IsReading (gets f)
  gets-IsReading f = record { keeps = λ s t h. h }

  pure-IsReading : (a : A) → IsReading (pure a)
  pure-IsReading a = record { keeps = λ s t h. h }

  or_raise-IsReading : (o : Option A) (e : Error) → IsReading (or_raise o e)
  or_raise-IsReading none e = record { keeps = λ s t h. h }
  or_raise-IsReading (some a) e = record { keeps = λ s t h. h }

  if-IsReading :
      (b : Bool) (m n : Action Tables A)
      → IsReading m
      → IsReading n
      → IsReading (if b then m else n)
  if-IsReading true m n h k = h
  if-IsReading false m n h k = k

  -- An error ends the rest.
  bind-IsReading :
      {B : Type 0} (m : Action Tables A) (f : A → Action Tables B)
      → IsReading m
      → ((a : A) → IsReading (f a))
      → IsReading (m >>= f)
  bind-IsReading {B} m f k l = record { keeps = λ s t h. go s (m t) (k.keeps s t h) }
    where
      go :
          (s : Tables) (o : Result A × Tables)
          → IsUnwritten s o.1
          → IsUnwritten s
              (elim o.0 as (λ (x : Result A). Result B × Tables) [
                | ok a ↦ f a o.1
                | err e ↦ (err e, o.1)
              ]).1
      go s (ok a, u) h = (l a).keeps s u h
      go s (err e, u) h = h

  bind-IsMaking :
      (m : Action Tables A) (f : A → Action Tables RebalancePlan)
      → IsReading m
      → ((a : A) → IsMaking (f a))
      → IsMaking (m >>= f)
  bind-IsMaking m f k l = record { makes = λ s t h. go s (m t) (k.keeps s t h) }
    where
      go :
          (s : Tables) (o : Result A × Tables)
          → IsUnwritten s o.1
          → Made s (elim o.0 as (λ (x : Result A). Result RebalancePlan × Tables) [
            | ok a ↦ f a o.1
            | err e ↦ (err e, o.1)
          ])
      go s (ok a, u) h = (l a).makes s u h
      go s (err e, u) h = IsMade.unwritten e u h

raise_if-IsReading : (b : Bool) (e : Error) → IsReading (raise_if b e)
raise_if-IsReading true e = record { keeps = λ s t h. h }
raise_if-IsReading false e = record { keeps = λ s t h. h }

saved-Made :
    (account_id : String) (value cash : Decimal) (result : RebalanceResult)
    (instruments : String → Option Instrument) (s t : Tables)
    → IsUnwritten s t
    → Made s (
        (save_plan account_id value cash result instruments >>= λ created.
        notify "План ребалансировки создан" >> pure created)
          t)
unfolding save_plan
saved-Made account_id value cash result instruments s t h =
    go (target_rows instruments (suc t.next_id) result.allocations)
  where
    go :
        (r : Result (List TargetAllocation))
        → Made s (
            ((λ (u : Tables).
                  elim r
                    as (λ (x : Result (List TargetAllocation)). Result RebalancePlan × Tables) [
                      | err e ↦ (err e, t)
                      | ok rows ↦ (
                        ok (new_plan t.next_id account_id value cash result rows),
                        add_plan (new_plan t.next_id account_id value cash result rows) t,
                      )
                    ])
                >>= λ created. notify "План ребалансировки создан" >> pure created)
              t)
    go (err e) = IsMade.unwritten e t h
    go (ok rows) =
        IsMade.written _ _
          (record { id = h.next_id; status = refl; plans = cc; audit = cc; sent = cc })

save_plan-IsMaking :
    (account_id : String) (value cash : Decimal) (result : RebalanceResult)
    (instruments : String → Option Instrument)
    → IsMaking (
        save_plan account_id value cash result instruments >>= λ created.
        notify "План ребалансировки создан" >> pure created)
save_plan-IsMaking account_id value cash result instruments = record {
  makes = λ s t h. saved-Made account_id value cash result instruments s t h;
}

module _ (market : Market) where
  plan_portfolio-IsMaking :
      (account_id : String) (risk : RiskProfile) (watchlist : List WatchlistItem)
      (portfolio : PortfolioData)
      → IsMaking (plan_portfolio market account_id risk watchlist portfolio)
  unfolding plan_portfolio
  plan_portfolio-IsMaking account_id risk watchlist portfolio =
      let value = portfolio.total_amount.amount in
      bind-IsMaking _ _ (raise_if-IsReading (le_decimal value (from_int 0)) Error.value_error) (λ x.
        bind-IsMaking _ _
          (call-IsReading (λ n.
            market.get_last_prices n
              (map (λ (w : WatchlistItem). w.instrument.instrument_uid) watchlist)))
          (λ prices. bind-IsMaking _ _ (gets-IsReading (λ s. s.signals)) (λ signals.
            bind-IsMaking _ _
              (lift-IsReading (assets_of signals portfolio.positions prices watchlist))
              (λ assets.
                bind-IsMaking _ _
                  (lift-IsReading (
                    optimize_and_plan market.rounds assets (constraints_of risk) value
                      (free_cash value assets)))
                  (λ result.
                    save_plan-IsMaking account_id value (free_cash value assets) result
                      (instrument_map watchlist))))))

  resolve_account_id-IsReading : IsReading (resolve_account_id market)
  unfolding resolve_account_id
  resolve_account_id-IsReading =
      if-IsReading (str_eq market.tinvest_account_id "") _ _
        (bind-IsReading _ _ (call-IsReading market.get_accounts)
          (λ accounts. lift-IsReading (only_account accounts)))
        (pure-IsReading market.tinvest_account_id)

  create_plan-IsMaking : IsMaking (create_plan market)
  unfolding create_plan
  create_plan-IsMaking =
      bind-IsMaking _ _
        (gets-IsReading (λ s. find (λ (r : RiskProfile). r.is_active) s.risk_profiles))
        (λ profile. bind-IsMaking _ _ (or_raise-IsReading profile Error.resource_not_found) (λ risk.
          bind-IsMaking _ _ (gets-IsReading (λ s. by_priority s.watchlist)) (λ watchlist.
            bind-IsMaking _ _
              (raise_if-IsReading (is_empty market watchlist) Error.resource_not_found)
              (λ x. bind-IsMaking _ _ resolve_account_id-IsReading (λ account_id.
                bind-IsMaking _ _ (call-IsReading (λ n. market.get_portfolio n account_id))
                  (λ portfolio. plan_portfolio-IsMaking account_id risk watchlist portfolio))))))

  -- The creation of a plan ends in one of two ways: a draft plan with the next id is stored, with one audit
  -- record and one notification; or an error is raised and no plan, audit record or notification is
  -- added, whichever step raised it.
  pub create_plan-IsMade : (s : Tables) → IsMade s (create_plan market s).0 (create_plan market s).1
  create_plan-IsMade s =
      create_plan-IsMaking.makes s s
        (record { plans = refl; audit = refl; sent = refl; next_id = refl })
