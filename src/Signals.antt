-- ===== src/Signals.antt =====
-- app/signals/service.py, `SignalAnalysisService`, with app/signals/repository.py: a signal for every
-- instrument of the watchlist. The engine is the parameter that app/signals/interface.py declares;
-- `save` adds a signal to the session, and the commit at the end stores what the session holds.
pub mod Collecting
pub mod Analysis
use auto_invest_manager.Base.{
  ℕ, ◌+◌, ◌-◌, ◌*◌, Bool, true, false, ◌||◌, not, Option, none, some, List, [], ◌∷◌, ◌++◌, map,
  find, keep, max, String, str_eq, ltb, if◌then◌else◌, length, Result, ok, err, Error, Action, pure,
  gets, lift, modify, or_raise, raise_if, ◌>>=◌, ◌>>◌,
}
use auto_invest_manager.Base.Decimal.{Decimal, max_decimal}
use auto_invest_manager.Models.Enums.{SignalRecommendation}
use auto_invest_manager.Models.Entities.{WatchlistItem, StrategyProfile, Signal, AuditLog}
use auto_invest_manager.Models.Ordering.{by_priority}

-- app/broker/dto.py
pub data CandleInterval : Type 0 where
  hour day : CandleInterval

pub record CandleData : Type 0 where
  pub instrument_uid : String
  pub interval : CandleInterval
  pub time : ℕ
  pub open_price : Decimal
  pub high : Decimal
  pub low : Decimal
  pub close : Decimal
  pub volume : ℕ
  pub is_complete : Bool

-- app/signals/dto.py
pub record SignalResult : Type 0 where
  pub trend_score : Decimal
  pub moving_average_score : Decimal
  pub volatility_score : Decimal
  pub volume_score : Decimal
  pub drawdown_score : Decimal
  pub final_score : Decimal
  pub recommendation : SignalRecommendation
  pub price : Decimal
  pub reason : String
  pub model_version : String
  pub calculated_at : ℕ

pub record Board : Type 0 where
  pub strategies : List StrategyProfile
  pub watchlist : List WatchlistItem
  pub signals : List Signal
  -- what has been added to the session since its last commit
  pub pending : List Signal
  pub audit : List AuditLog
  -- titles of the notifications
  pub sent : List String
  -- calls of the broker and the clock so far
  pub calls : ℕ

pub record Market : Type 0 where
  pub clock : ℕ → ℕ
  -- the instrument, the two ends of the time, and the interval
  pub get_candles : ℕ → String → ℕ → ℕ → CandleInterval → Result (List CandleData)
  -- `SignalEngine.calculate`, at the time of the call; the threshold becomes a float there
  pub calculate : List CandleData → Decimal → Result SignalResult

abbrev pub microseconds : ℕ
microseconds = 1000000

abbrev pub hours : ℕ → ℕ
hours n = n * 3600 * microseconds

abbrev pub days : ℕ → ℕ
days n = hours (n * 24)

-- `CandleInterval(text)`, and its value.
abbrev pub interval_of : String → Result CandleInterval
interval_of text =
    if str_eq text "1h"
    then ok CandleInterval.hour
    else if str_eq text "1d"
    then ok CandleInterval.day
    else err Error.value_error

abbrev pub interval_value : CandleInterval → String
interval_value CandleInterval.hour = "1h"
interval_value CandleInterval.day = "1d"

abbrev pub lookback : CandleInterval → ℕ
lookback CandleInterval.day = days 60
lookback CandleInterval.hour = days 7

abbrev pub freshness_limit : CandleInterval → ℕ
freshness_limit CandleInterval.day = days 2
freshness_limit CandleInterval.hour = hours 2

abbrev pub latest_time : List ℕ → ℕ
latest_time [] = 0
latest_time (t ∷ ts) = max t (latest_time ts)

-- The times of the candles that are complete.
abbrev pub complete_times : List CandleData → List ℕ
complete_times candles =
    map (λ (c : CandleData). c.time) (keep (λ (c : CandleData). c.is_complete) candles)

-- `not complete_times or to - max(complete_times) > freshness_limit`
abbrev pub is_stale_at : ℕ → ℕ → List ℕ → Bool
is_stale_at to limit [] = true
is_stale_at to limit (t ∷ ts) = ltb (latest_time (t ∷ ts) + limit) to

abbrev pub is_stale : CandleInterval → ℕ → List CandleData → Bool
is_stale interval to candles = is_stale_at to (freshness_limit interval) (complete_times candles)

-- `SignalRepository.get_watchlist`; items of one priority stand in the order of the table.
abbrev pub get_watchlist : Board → List WatchlistItem
get_watchlist s = by_priority s.watchlist

abbrev pub get_strategy : Board → Option StrategyProfile
get_strategy s = find (λ (p : StrategyProfile). str_eq p.name "default") s.strategies

-- the row of `SignalRepository.save`
abbrev pub signal_of : WatchlistItem → SignalResult → String → Signal
signal_of item result timeframe = record {
  instrument_id = item.instrument_id;
  timeframe = timeframe;
  trend_score = result.trend_score;
  moving_average_score = result.moving_average_score;
  volatility_score = result.volatility_score;
  volume_score = result.volume_score;
  drawdown_score = result.drawdown_score;
  final_score = result.final_score;
  recommendation = result.recommendation;
  price = result.price;
  reason = result.reason;
  model_version = result.model_version;
  calculated_at = result.calculated_at;
}

module _ (m : Market) where
  abbrev pub get_candles : String → ℕ → ℕ → CandleInterval → Action Board (List CandleData)
  get_candles uid from_time to interval s =
      (m.get_candles s.calls uid from_time to interval, record s { calls = s.calls + 1 })

  abbrev pub now : Action Board ℕ
  now s = (ok (m.clock s.calls), record s { calls = s.calls + 1 })

  -- `SignalRepository.save`
  abbrev pub save : Signal → Action Board Signal
  save signal = modify (λ s. record s { pending = s.pending ++ signal ∷ [] }) >> pure signal

  -- One turn of the `for` loop.
  unfoldable pub signal_for :
      StrategyProfile → CandleInterval → ℕ → WatchlistItem → Action Board Signal
  signal_for strategy interval to item =
      get_candles item.instrument.instrument_uid (to - lookback interval) to interval >>= λ candles.
      raise_if (is_stale interval to candles) Error.signal_calculation
      >> lift (m.calculate candles (max_decimal strategy.signal_threshold item.min_signal_score))
      >>= λ result. save (signal_of item result (interval_value interval))

  unfoldable pub signals_for :
      StrategyProfile → CandleInterval → ℕ → List WatchlistItem → Action Board (List Signal)
  signals_for strategy interval to [] = pure []
  signals_for strategy interval to (item ∷ items) =
      signal_for strategy interval to item >>= λ signal.
      signals_for strategy interval to items >>= λ signals. pure (signal ∷ signals)

  abbrev pub completed : List Signal → List AuditLog
  completed signals =
      record {
        event_type = "analysis.completed";
        severity = "info";
        actor = "system";
        subject = length signals;
      }
      ∷ []

  -- The audit record, the commit and the notification.
  abbrev pub stored : List Signal → Board → Board
  stored signals s = record s {
    signals = s.signals ++ s.pending;
    pending = [];
    audit = s.audit ++ completed signals;
    sent = s.sent ++ "Анализ рынка завершён" ∷ [];
  }

  abbrev pub analyse : StrategyProfile → List WatchlistItem → Action Board (List Signal)
  analyse strategy [] = pure []
  analyse strategy (item ∷ items) = lift (interval_of strategy.base_timeframe) >>= λ interval.
      now >>= λ to. signals_for strategy interval to (item ∷ items) >>= λ signals.
      modify (stored signals) >> pure signals

  unfoldable pub run : Action Board (List Signal)
  run s =
      (or_raise (get_strategy s) Error.resource_not_found >>= λ strategy.
      gets get_watchlist >>= λ watchlist. analyse strategy watchlist)
        s
