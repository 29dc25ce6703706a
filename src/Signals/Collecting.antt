-- ===== src/Signals/Collecting.antt =====
-- app/signals/service.py, the loop: one signal for each item, and what it adds to the session.
use auto_invest_manager.Base.{
  ℕ, ◌-◌, ◌≡◌, refl, sym, append_nil, append_assoc, ◌++◌, ◌⊎◌, Result, err, false, List, [], ◌∷◌,
  String, ok, Error, arith, Bool-cases, Result-cases, inl, inr,
}
use auto_invest_manager.Base.Decimal.{max_decimal}
use auto_invest_manager.Base.Keeping.{
  Keeps, Keeps-bind, Keeps-then, Keeps-pure, Keeps-lift, Keeps-raise_if,
}
use auto_invest_manager.Models.Entities.{WatchlistItem, StrategyProfile, Signal}
use auto_invest_manager.Signals.{
  Board, Market, CandleInterval, CandleData, SignalResult, interval_value, is_stale, lookback,
  get_candles, save, signal_of, signal_for, signals_for,
}

module _ (m : Market) where
  -- The signal of an item: the engine's answer on fresh candles of its instrument.
  pub record IsSignal (strategy : StrategyProfile) (interval : CandleInterval) (to : ℕ)
      (item : WatchlistItem) (signal : Signal) : Type 0 where
    pub call : ℕ
    pub candles : List CandleData
    pub result : SignalResult
    pub candles_eq :
        m.get_candles call item.instrument.instrument_uid (to - lookback interval) to interval
        ≡ ok candles
    pub fresh : is_stale interval to candles ≡ false
    pub result_eq :
        m.calculate candles (max_decimal strategy.signal_threshold item.min_signal_score)
        ≡ ok result
    pub signal_eq : signal ≡ signal_of item result (interval_value interval)

  -- One signal for each item, in their order.
  unfoldable pub AreSignals :
      StrategyProfile → CandleInterval → ℕ → List WatchlistItem → List Signal → Type 0
  AreSignals strategy interval to [] [] = Unit
  AreSignals strategy interval to (item ∷ items) (signal ∷ signals) =
      IsSignal strategy interval to item signal × AreSignals strategy interval to items signals
  AreSignals strategy interval to items signals = ⊥

  -- Nothing is stored and nothing is sent.
  pub record IsUntouched (s t : Board) : Type 0 where
    pub signals : t.signals ≡ s.signals
    pub audit : t.audit ≡ s.audit
    pub sent : t.sent ≡ s.sent

  get_candles-Keeps :
      (s : Board) (uid : String) (from_time to : ℕ) (interval : CandleInterval)
      → Keeps (IsUntouched s) (get_candles m uid from_time to interval)
  unfolding Keeps
  get_candles-Keeps s uid from_time to interval t h = record {
    signals = h.signals;
    audit = h.audit;
    sent = h.sent;
  }

  save-Keeps : (s : Board) (signal : Signal) → Keeps (IsUntouched s) (save m signal)
  unfolding Keeps
  save-Keeps s signal t h = record { signals = h.signals; audit = h.audit; sent = h.sent }

  signal_for-Keeps :
      (s : Board) (strategy : StrategyProfile) (interval : CandleInterval) (to : ℕ)
      (item : WatchlistItem)
      → Keeps (IsUntouched s) (signal_for m strategy interval to item)
  unfolding signal_for
  signal_for-Keeps s strategy interval to item =
      Keeps-bind (IsUntouched s) _ _
        (get_candles-Keeps s item.instrument.instrument_uid (to - lookback interval) to interval)
        (λ candles.
          Keeps-bind (IsUntouched s) _ _
            (Keeps-then (IsUntouched s) _ _
              (Keeps-raise_if (IsUntouched s) (is_stale interval to candles)
                Error.signal_calculation)
              (Keeps-lift (IsUntouched s) (
                m.calculate candles (max_decimal strategy.signal_threshold item.min_signal_score))))
            (λ result. save-Keeps s (signal_of item result (interval_value interval))))

  pub signals_for-Keeps :
      (s : Board) (strategy : StrategyProfile) (interval : CandleInterval) (to : ℕ)
      (items : List WatchlistItem)
      → Keeps (IsUntouched s) (signals_for m strategy interval to items)
  unfolding signals_for
  signals_for-Keeps s strategy interval to [] = Keeps-pure (IsUntouched s) []
  signals_for-Keeps s strategy interval to (item ∷ items) =
      Keeps-bind (IsUntouched s) _ _ (signal_for-Keeps s strategy interval to item) (λ signal.
        Keeps-bind (IsUntouched s) _ _ (signals_for-Keeps s strategy interval to items)
          (λ signals. Keeps-pure (IsUntouched s) (signal ∷ signals)))

  -- A signal for each of the first items, in their order, but not for all of them.
  unfoldable pub ArePartial :
      StrategyProfile → CandleInterval → ℕ → List WatchlistItem → List Signal → Type 0
  ArePartial strategy interval to [] signals = ⊥
  ArePartial strategy interval to (item ∷ items) [] = Unit
  ArePartial strategy interval to (item ∷ items) (signal ∷ signals) =
      IsSignal strategy interval to item signal × ArePartial strategy interval to items signals

  -- The turns of the loop so far have added their signals to the session.
  abbrev pub Collects :
      StrategyProfile
      → CandleInterval
      → ℕ
      → List WatchlistItem
      → Board
      → Result (List Signal) × Board
      → Type 0
  Collects strategy interval to items s o =
      ((signals : List Signal) × (o.0 ≡ ok signals)
        × AreSignals strategy interval to items signals
        × (o.1.pending ≡ s.pending ++ signals))
      ⊎ ((e : Error) × (o.0 ≡ err e)
          × (saved : List Signal) × ArePartial strategy interval to items saved
          × (o.1.pending ≡ s.pending ++ saved))

  signal_for-cases :
      (strategy : StrategyProfile) (interval : CandleInterval) (to : ℕ) (item : WatchlistItem)
      (s : Board)
      → let o = signal_for m strategy interval to item s in
        ((signal : Signal) × (o.0 ≡ ok signal)
          × IsSignal strategy interval to item signal
          × (o.1.pending ≡ s.pending ++ signal ∷ []))
        ⊎ ((e : Error) × (o.0 ≡ err e) × (o.1.pending ≡ s.pending))
  unfolding signal_for
  signal_for-cases strategy interval to item s =
      elim (Result-cases (
        m.get_candles s.calls item.instrument.instrument_uid (to - lookback interval) to
          interval)) [
            | inr (e, p) ↦ inr (e, ground arith, ground arith)
            | inl (candles, p) ↦ elim (Bool-cases (is_stale interval to candles)) [
              | inl q ↦ inr (Error.signal_calculation, ground arith, ground arith)
              | inr q ↦
                  elim (Result-cases (
                    m.calculate candles
                      (max_decimal strategy.signal_threshold item.min_signal_score))) [
                        | inr (e, r) ↦ inr (e, ground arith, ground arith)
                        | inl (result, r) ↦ inl (
                          signal_of item result (interval_value interval),
                          ground arith,
                          record {
                            call = s.calls;
                            candles = candles;
                            result = result;
                            candles_eq = p;
                            fresh = q;
                            result_eq = r;
                            signal_eq = refl;
                          },
                          ground arith,
                        )
                      ]
            ]
          ]

  pub signals_for-Collects :
      (strategy : StrategyProfile) (interval : CandleInterval) (to : ℕ) (items : List WatchlistItem)
      (s : Board)
      → Collects strategy interval to items s (signals_for m strategy interval to items s)
  unfolding signals_for AreSignals ArePartial
  signals_for-Collects strategy interval to [] s = inl ([], refl, tt, sym (append_nil s.pending))
  signals_for-Collects strategy interval to (item ∷ items) s =
      let one = signal_for m strategy interval to item s in
      let more = signals_for m strategy interval to items one.1 in
      elim (signal_for-cases strategy interval to item s) [
        | inr (e, p, q) ↦ inr (e, ground arith, [], tt, ground (arith, append_nil s.pending))
        | inl (signal, p, i, q) ↦ elim (signals_for-Collects strategy interval to items one.1) [
          | inl (signals, r, a, u) ↦ inl (
            signal ∷ signals,
            ground arith,
            (i, a),
            ground (arith, append_assoc s.pending (signal ∷ []) signals),
          )
          | inr (e, r, saved, a, u) ↦ inr (
            e,
            ground arith,
            signal ∷ saved,
            (i, a),
            ground (arith, append_assoc s.pending (signal ∷ []) saved),
          )
        ]
      ]
