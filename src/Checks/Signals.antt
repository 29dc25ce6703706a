-- ===== src/Checks/Signals.antt =====
-- The theorems on app/signals at concrete inputs.
use auto_invest_manager.Base.{
  ℕ, length, ◌≡◌, ◌⊎◌, refl, true, false, none, some, List, [], ◌∷◌, ok, err, Error,
}
use auto_invest_manager.Base.Decimal.{from_int}
use auto_invest_manager.Models.Enums.{SignalRecommendation, TradeMode, RebalanceMode}
use auto_invest_manager.Models.Entities.{StrategyProfile, WatchlistItem}
use auto_invest_manager.Checks.Data.{watched}
use auto_invest_manager.Signals.{
  Board, Market, CandleData, CandleInterval, SignalResult, signal_for, signals_for, get_strategy,
  get_watchlist, run,
}
use auto_invest_manager.Signals.Analysis.{Ending, run-Ending}

abbrev strategy : StrategyProfile
strategy = record {
  id = 1;
  name = "default";
  enabled = true;
  trade_mode = TradeMode.dry_run;
  auto_allocation_enabled = true;
  rebalance_mode = RebalanceMode.daily;
  signal_threshold = record { pos = 6; neg = 0; den = 10 };
  minimum_expected_return = from_int 0;
  prefer_cash_when_no_signal = true;
  use_protective_asset = false;
  max_wait_days = 0;
  base_timeframe = "1h";
}

abbrev candle : ℕ → CandleData
candle time = record {
  instrument_uid = "uid-7";
  interval = CandleInterval.hour;
  time = time;
  open_price = from_int 300;
  high = from_int 310;
  low = from_int 290;
  close = from_int 305;
  volume = 1000;
  is_complete = true;
}

abbrev buying : SignalResult
buying = record {
  trend_score = from_int 1;
  moving_average_score = from_int 1;
  volatility_score = from_int 1;
  volume_score = from_int 1;
  drawdown_score = from_int 1;
  final_score = from_int 1;
  recommendation = SignalRecommendation.buy;
  price = from_int 305;
  reason = "BUY";
  model_version = "baseline-v1";
  calculated_at = 9;
}

-- The first candles are fresh and the later ones are stale.
abbrev market : Market
market = record {
  clock = λ n. 9000000000;
  get_candles = λ n uid from_time to interval. elim n [
    | ℕ.zero ↦ ok []
    | ℕ.suc k ↦ elim k [ ℕ.zero ↦ ok (candle 8000000000 ∷ []) | ℕ.suc j ↦ ok (candle 5 ∷ []) ]
  ];
  calculate = λ candles threshold. ok buying;
}

abbrev board : List WatchlistItem → Board
board items = record {
  strategies = strategy ∷ [];
  watchlist = items;
  signals = [];
  pending = [];
  audit = [];
  sent = [];
  calls = 0;
}

run-Ending_example :
    let s = board (watched ∷ []) in
    ((get_strategy s ≡ none) × (run market s ≡ (err Error.resource_not_found, s)))
    ⊎ ((p : StrategyProfile) × (get_strategy s ≡ some p)
        × Ending market p (get_watchlist s) s (run market s))
run-Ending_example = run-Ending market (board (watched ∷ []))

-- One signal is stored; with a second, stale instrument none is, and the session holds the first one.
stored_one : (run market (board (watched ∷ []))).1.sent ≡ "Анализ рынка завершён" ∷ []
unfolding run signals_for signal_for
stored_one = refl

stored_none : (run market (board (watched ∷ watched ∷ []))).1.signals ≡ []
unfolding run signals_for signal_for
stored_none = refl

left_pending : length (run market (board (watched ∷ watched ∷ []))).1.pending ≡ 1
unfolding run signals_for signal_for
left_pending = refl

raised_stale : (run market (board (watched ∷ watched ∷ []))).0 ≡ err Error.signal_calculation
unfolding run signals_for signal_for
raised_stale = refl
