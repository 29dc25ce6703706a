-- ===== src/Admin/Store.antt =====
-- app/admin/repository.py: the tables that an administrator reads and changes. The broker and Python's
-- `str.upper` and `str.lower` are parameters. A flush that breaks a constraint raises; a database
-- that fails is not modelled.
use auto_invest_manager.Base.{
  ℕ, ◌+◌, ◌==◌, Bool, false, ◌&&◌, ◌||◌, not, Option, none, some, List, [], ◌∷◌, ◌++◌, find, update,
  any, String, str_eq, if◌then◌else◌, Result, ok, err, Error, Action,
}
use auto_invest_manager.Models.Entities.{
  SystemSettings, Instrument, WatchlistItem, RiskProfile, StrategyProfile, AuditLog,
}
use auto_invest_manager.Models.Ordering.{by_priority}
use auto_invest_manager.Automation.Store.{BrokerAccountData}
use auto_invest_manager.Admin.Schemas.{WatchlistItemCreate}

-- app/broker/dto.py
pub record InstrumentData : Type 0 where
  pub instrument_uid : String
  pub figi : String
  pub ticker : String
  pub class_code : String
  pub name : String
  pub instrument_type : String
  pub currency : String
  pub lot : ℕ
  pub api_trade_available : Bool

pub record Tables : Type 0 where
  pub system_settings : List SystemSettings
  pub instruments : List Instrument
  -- in the order of `created_at`
  pub watchlist : List WatchlistItem
  pub risk_profiles : List RiskProfile
  pub strategy_profiles : List StrategyProfile
  pub audit : List AuditLog
  pub next_id : ℕ
  -- calls of the broker so far
  pub calls : ℕ

pub record Outside : Type 0 where
  pub find_instrument : ℕ → String → String → Result InstrumentData
  pub get_accounts : ℕ → Result (List BrokerAccountData)
  pub upper : String → String
  pub lower : String → String

abbrev pub first_of {ℓ} : {A : Type ℓ} → List A → Option A
first_of [] = none
first_of (x ∷ xs) = some x

abbrev pub get_system_settings_row : Tables → Option SystemSettings
get_system_settings_row s = first_of s.system_settings

abbrev pub get_active_risk_profile : Tables → Option RiskProfile
get_active_risk_profile s = find (λ (p : RiskProfile). p.is_active) s.risk_profiles

abbrev pub get_default_strategy_profile : Tables → Option StrategyProfile
get_default_strategy_profile s =
    find (λ (p : StrategyProfile). str_eq p.name "default") s.strategy_profiles

abbrev pub list_watchlist_rows : Tables → List WatchlistItem
list_watchlist_rows s = by_priority s.watchlist

abbrev pub get_watchlist_item_row : ℕ → Tables → Option WatchlistItem
get_watchlist_item_row id s = find (λ (x : WatchlistItem). x.id == id) s.watchlist

-- An item of the watchlist that has that instrument.
abbrev pub has_instrument : ℕ → WatchlistItem → Bool
has_instrument id x = x.instrument_id == id

abbrev pub add_audit : String → ℕ → Tables → Tables
add_audit event_type subject s = record s {
  audit =
      s.audit
      ++ record { event_type = event_type; severity = "info"; actor = "admin"; subject = subject }
        ∷ [];
}

module _ (o : Outside) where
  abbrev pub get_instrument : String → String → Tables → Option Instrument
  get_instrument ticker class_code s =
      find
        (λ (x : Instrument).
          str_eq x.ticker (o.upper ticker) && str_eq x.class_code (o.upper class_code))
        s.instruments

  abbrev pub instrument_of : InstrumentData → ℕ → Instrument
  instrument_of found id = record {
    id = id;
    instrument_uid = found.instrument_uid;
    figi = if str_eq found.figi "" then none else some found.figi;
    ticker = o.upper found.ticker;
    class_code = o.upper found.class_code;
    name = found.name;
    instrument_type = found.instrument_type;
    currency = o.lower found.currency;
    lot = found.lot;
    is_active = found.api_trade_available;
  }

  abbrev same_figi : Option String → Option String → Bool
  same_figi (some a) (some b) = str_eq a b
  same_figi _ _ = false

  -- Another row has the uid, the figi, or the ticker and class code of this one.
  abbrev pub clashes : Instrument → Instrument → Bool
  clashes x y =
      not (x.id == y.id)
      && (str_eq x.instrument_uid y.instrument_uid
          || same_figi x.figi y.figi
          || (str_eq x.ticker y.ticker && str_eq x.class_code y.class_code))

  -- A watchlist item is read with the row of its instrument.
  abbrev pub with_instrument : Instrument → List WatchlistItem → List WatchlistItem
  with_instrument i items =
      update (has_instrument i.id) (λ (x : WatchlistItem). record x { instrument = i }) items

  abbrev pub upserted : Option Instrument → InstrumentData → Tables → Instrument × Tables
  upserted none found s = (
    instrument_of found s.next_id,
    record s {
      instruments = s.instruments ++ instrument_of found s.next_id ∷ [];
      next_id = s.next_id + 1;
    },
  )
  upserted (some old) found s = (
    instrument_of found old.id,
    record s {
      instruments =
          update (λ (x : Instrument). x.id == old.id) (λ x. instrument_of found old.id)
            s.instruments;
      watchlist = with_instrument (instrument_of found old.id) s.watchlist;
    },
  )

  unfoldable pub upsert_instrument : InstrumentData → Action Tables Instrument
  upsert_instrument found s =
      let (i, t) =
        upserted
          (find (λ (x : Instrument). str_eq x.instrument_uid found.instrument_uid) s.instruments)
          found s in
      if any (clashes i) t.instruments then (err Error.integrity, t) else (ok i, t)

abbrev pub item_of : Instrument → WatchlistItemCreate → ℕ → WatchlistItem
item_of instrument values id = record {
  id = id;
  instrument_id = instrument.id;
  buy_enabled = values.buy_enabled;
  sell_enabled = values.sell_enabled;
  max_weight = values.max_weight;
  priority = values.priority;
  min_signal_score = values.min_signal_score;
  manual_target_weight = values.manual_target_weight;
  instrument = instrument;
}

-- `instrument_id` is unique in the table.
unfoldable pub add_watchlist_row : Instrument → WatchlistItemCreate → Action Tables WatchlistItem
add_watchlist_row instrument values s =
    if any (has_instrument instrument.id) s.watchlist then (err Error.integrity, s) else (
      ok (item_of instrument values s.next_id),
      record s {
        watchlist = s.watchlist ++ item_of instrument values s.next_id ∷ [];
        next_id = s.next_id + 1;
      },
    )
