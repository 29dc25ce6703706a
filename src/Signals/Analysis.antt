-- ===== src/Signals/Analysis.antt =====
-- app/signals/service.py: what an analysis stores and what it leaves in its session.
use auto_invest_manager.Base.{
  ◌+◌, ◌≡◌, refl, ap, ◌∙◌, subst, append_nil, none, some, List, [], ◌∷◌, ◌++◌, Result, ok, err,
  Error, arith, Option-cases, Result-cases, inl, inr, ◌⊎◌,
}
use auto_invest_manager.Base.Keeping.{Keeps}
use auto_invest_manager.Models.Entities.{WatchlistItem, StrategyProfile, Signal}
use auto_invest_manager.Signals.{
  Board, Market, CandleInterval, interval_of, get_strategy, get_watchlist, signals_for, completed,
  stored, analyse, run,
}
use auto_invest_manager.Signals.Collecting.{
  IsUntouched, AreSignals, ArePartial, Collects, signals_for-Keeps, signals_for-Collects,
}

module _ (m : Market) where
  -- An analysis that is stored: its signals are new in the table, one audit record and one
  -- notification tell of it.
  pub record IsStored (strategy : StrategyProfile) (items : List WatchlistItem) (s : Board)
      (signals : List Signal) (t : Board) : Type 0 where
    pub interval : CandleInterval
    pub interval_eq : interval_of strategy.base_timeframe ≡ ok interval
    pub are_signals : AreSignals m strategy interval (m.clock s.calls) items signals
    pub saved : t.signals ≡ s.signals ++ (s.pending ++ signals)
    pub committed : t.pending ≡ []
    pub audited : t.audit ≡ s.audit ++ completed m signals
    pub sent : t.sent ≡ s.sent ++ "Анализ рынка завершён" ∷ []

  -- An analysis that raises: the tables are as they were and nothing is sent, but the session holds
  -- the signals of the first items, if it came to any.
  pub record IsLeft (strategy : StrategyProfile) (items : List WatchlistItem) (s t : Board)
      : Type 0 where
    pub untouched : IsUntouched m s t
    pub saved : List Signal
    pub added : t.pending ≡ s.pending ++ saved
    pub partial :
        (saved ≡ [])
        ⊎ ((interval : CandleInterval) × (interval_of strategy.base_timeframe ≡ ok interval)
            × ArePartial m strategy interval (m.clock s.calls) items saved)

  -- How an analysis of those items ends.
  pub data Ending (strategy : StrategyProfile) (items : List WatchlistItem) (s : Board)
      (o : Result (List Signal) × Board) : Type 0 where
    raised : (e : Error) → o.0 ≡ err e → IsLeft strategy items s o.1 → Ending strategy items s o
    idle : items ≡ [] → o.0 ≡ ok [] → o.1 ≡ s → Ending strategy items s o
    done :
        (signals : List Signal)
        → o.0 ≡ ok signals
        → IsStored strategy items s signals o.1
        → Ending strategy items s o

  analyse-Ending :
      (strategy : StrategyProfile) (items : List WatchlistItem) (s : Board)
      → Ending strategy items s (analyse m strategy items s)
  analyse-Ending strategy [] s = idle refl refl refl
  analyse-Ending strategy (item ∷ items) s =
      elim (Result-cases (interval_of strategy.base_timeframe)) [
        | inr (e, p) ↦ raised e (ground arith) (record {
          untouched = record { signals = ground arith; audit = ground arith; sent = ground arith };
          saved = [];
          added = ground (arith, append_nil s.pending);
          partial = inl refl;
        })
        | inl (interval, p) ↦
            let t : Board = record s { calls = s.calls + 1 } in
            let to = m.clock s.calls in
            let out = signals_for m strategy interval to (item ∷ items) t in
            let u : IsUntouched m s out.1 =
              unfold Keeps in
              signals_for-Keeps m s strategy interval to (item ∷ items) t
                (record { signals = refl; audit = refl; sent = refl }) in
            let c : Collects m strategy interval to (item ∷ items) t out =
              signals_for-Collects m strategy interval to (item ∷ items) t in
            elim c [
              | inr (e, q, saved, a, v) ↦ raised e (ground arith) (record {
                untouched = record {
                  signals = ground (arith, u.signals);
                  audit = ground (arith, u.audit);
                  sent = ground (arith, u.sent);
                };
                saved = saved;
                added = ground arith;
                partial = inr (interval, p, a);
              })
              | inl (signals, q, a, v) ↦
                  let end : analyse m strategy (item ∷ items) s
                      ≡ (ok signals, stored m signals out.1) =
                    ground arith in
                  done signals (ground arith) (record {
                    interval = interval;
                    interval_eq = p;
                    are_signals = a;
                    saved =
                        ap (λ (o : Result (List Signal) × Board). o.1.signals) end
                        ∙ ap (λ (l : List Signal). l ++ out.1.pending) u.signals
                        ∙ ap (λ (l : List Signal). s.signals ++ l) v;
                    committed = ap (λ (o : Result (List Signal) × Board). o.1.pending) end;
                    audited = ground (arith, u.audit);
                    sent = ground (arith, u.sent);
                  })
            ]
      ]

  -- Without a strategy an analysis raises and changes nothing. With one, it raises: it stores and
  -- sends nothing, and leaves in the session one signal for each of the first items of the watchlist,
  -- but not for all. Or the watchlist is empty and nothing happens. Or it stores what the session
  -- held and one signal for each item, in the order of the watchlist, each the engine's answer on
  -- fresh candles of the item's instrument, with one audit record and one notification, and leaves
  -- nothing in the session.
  pub run-Ending :
      (s : Board)
      → ((get_strategy s ≡ none) × (run m s ≡ (err Error.resource_not_found, s)))
        ⊎ ((strategy : StrategyProfile) × (get_strategy s ≡ some strategy)
            × Ending strategy (get_watchlist s) s (run m s))
  unfolding run
  run-Ending s = elim (Option-cases (get_strategy s)) [
    | inl p ↦ inl (p, ground arith)
    | inr (strategy, p) ↦ inr (
      strategy,
      p,
      subst (λ (o : Result (List Signal) × Board). Ending strategy (get_watchlist s) s o)
          {x = analyse m strategy (get_watchlist s) s} (ground arith)
          (analyse-Ending strategy (get_watchlist s) s),
    )
  ]
