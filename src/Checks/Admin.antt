-- ===== src/Checks/Admin.antt =====
-- The theorems on app/admin at concrete inputs.
use auto_invest_manager.Base.{ℕ, ◌≡◌, ◌⊎◌, refl, true, some, List, [], ◌∷◌, ok, err, Error, String}
use auto_invest_manager.Base.Decimal.{Decimal}
use auto_invest_manager.Models.Entities.{WatchlistItem}
use auto_invest_manager.Checks.Data.{profile}
use auto_invest_manager.Admin.{add_watchlist_item, update_watchlist_item}
use auto_invest_manager.Admin.Schemas.{Change, WatchlistItemCreate, WatchlistItemUpdate}
use auto_invest_manager.Admin.Store.{
  Tables, Outside, InstrumentData, instrument_of, item_of, upsert_instrument, add_watchlist_row,
}
use auto_invest_manager.Admin.Sound.{IsSound}
use auto_invest_manager.Admin.Requests.{Request, perform_all, perform_all-IsSound}
use auto_invest_manager.Admin.Again.{add_watchlist_item_again}

abbrev sber : InstrumentData
sber = record {
  instrument_uid = "sber-uid";
  figi = "";
  ticker = "SBER";
  class_code = "TQBR";
  name = "Sberbank";
  instrument_type = "share";
  currency = "rub";
  lot = 10;
  api_trade_available = true;
}

abbrev outside : Outside
outside = record {
  find_instrument = λ n ticker class_code. ok sber;
  get_accounts = λ n. ok [];
  upper = λ text. text;
  lower = λ text. text;
}

abbrev tables : Tables
tables = record {
  system_settings = [];
  instruments = [];
  watchlist = [];
  risk_profiles = profile ∷ [];
  strategy_profiles = [];
  audit = [];
  next_id = 1;
  calls = 0;
}

abbrev hundredths : ℕ → Decimal
hundredths n = record { pos = n; neg = 0; den = 100 }

abbrev creation : String → WatchlistItemCreate
creation ticker = record {
  reference = record { ticker = ticker; class_code = "TQBR" };
  buy_enabled = true;
  sell_enabled = true;
  max_weight = some (hundredths 30);
  priority = 5;
  min_signal_score = hundredths 50;
  manual_target_weight = some (hundredths 20);
}

abbrev lower_max : WatchlistItemUpdate
lower_max = record {
  buy_enabled = Change.absent;
  sell_enabled = Change.absent;
  max_weight = Change.value (hundredths 25);
  priority = Change.absent;
  min_signal_score = Change.absent;
  manual_target_weight = Change.absent;
}

-- The second update would put the target above the maximum.
abbrev requests : List Request
requests =
    Request.item_create (creation "SBER")
    ∷ Request.item_update 2 lower_max
    ∷ Request.item_update 2 (record lower_max { max_weight = Change.value (hundredths 10) })
    ∷ Request.item_create (creation "SBER")
    ∷ []

perform_all-IsSound_example : IsSound (perform_all outside requests tables)
perform_all-IsSound_example =
    perform_all-IsSound outside requests tables refl (record { items = refl; profiles = refl })

-- The first update is made and the second one is refused.
limits_kept :
    (perform_all outside requests tables).watchlist
    ≡ record (item_of (instrument_of outside sber 1) (creation "SBER") 2) {
      max_weight = some (hundredths 25);
    }
      ∷ []
unfolding add_watchlist_item upsert_instrument add_watchlist_row update_watchlist_item
limits_kept = refl

abbrev added : WatchlistItem
added = item_of (instrument_of outside sber 1) (creation "SBER") 2

added_first : (add_watchlist_item outside (creation "SBER") tables).0 ≡ ok added
unfolding add_watchlist_item upsert_instrument add_watchlist_row
added_first = refl

add_watchlist_item_again_example :
    let t = (add_watchlist_item outside (creation "SBER") tables).1 in
    ((add_watchlist_item outside (creation "SBERP") t).0 ≡ err Error.resource_conflict)
    ⊎ ((add_watchlist_item outside (creation "SBERP") t).0 ≡ err Error.integrity)
add_watchlist_item_again_example =
    add_watchlist_item_again outside (creation "SBER") (creation "SBERP") tables added sber sber
      added_first refl refl refl
