-- ===== src/Streams/Supervisor/Endings.antt =====
-- The end of a stream.
use auto_invest_manager.Base.{
  ℕ, suc, ◌≡◌, refl, Bool, true, false, List, [], ◌∷◌, ◌++◌, if◌then◌else◌,
}
use auto_invest_manager.Models.Enums.{BrokerStreamStatus, BrokerStreamEventKind}
use auto_invest_manager.Streams.Supervisor.{
  Happening, Entry, Stream, persist, handle_event, backoff, reconnect, listen, run_stream,
}
use auto_invest_manager.Streams.Supervisor.Statuses.{statuses, is_chain, first-chain}

-- The end of a log: the lease is released once, and the stream is set to STOPPED after it.
abbrev pub releases : List Entry → ℕ
releases [] = 0
releases (Entry.released ∷ rest) = suc (releases rest)
releases (_ ∷ rest) = releases rest

abbrev pub last_status : BrokerStreamStatus → List Entry → BrokerStreamStatus
last_status p [] = p
last_status p (Entry.state s ∷ rest) = last_status s rest
last_status p (_ ∷ rest) = last_status p rest

abbrev IsFinished : List Entry → Type 0
IsFinished log =
    (releases log ≡ 1) × ((p : BrokerStreamStatus) → last_status p log ≡ BrokerStreamStatus.stopped)

module _ (stream : Stream) where
  persist-IsFinished :
      (created : Bool) (rest : List Entry) → IsFinished rest → IsFinished (persist created ++ rest)
  persist-IsFinished true rest h = (h.0, λ p. h.1 BrokerStreamStatus.connected)
  persist-IsFinished false rest h = (h.0, λ p. h.1 BrokerStreamStatus.connected)

  handle_event-IsFinished :
      (kind : BrokerStreamEventKind) (created : Bool) (rest : List Entry)
      → IsFinished rest
      → IsFinished (handle_event stream kind created ++ rest)
  unfolding handle_event
  handle_event-IsFinished BrokerStreamEventKind.portfolio_updated created rest h =
      persist-IsFinished created rest h
  handle_event-IsFinished BrokerStreamEventKind.positions_updated created rest h =
      persist-IsFinished created rest h
  handle_event-IsFinished BrokerStreamEventKind.user_trade_executed created rest h =
      persist-IsFinished created rest h
  handle_event-IsFinished BrokerStreamEventKind.subscription_status created rest h =
      go stream.has_accounts
    where
      go :
          (b : Bool)
          → IsFinished (
              Entry.touched
              ∷ Entry.audited "broker.stream.connected"
              ∷ ((if b then Entry.reconciled ∷ persist created else persist created) ++ rest))
      go true = persist-IsFinished created rest h
      go false = persist-IsFinished created rest h
  handle_event-IsFinished BrokerStreamEventKind.ping created rest h =
      (h.0, λ p. h.1 BrokerStreamStatus.connected)

  reconnect-IsFinished :
      (hs : List Happening) (rest : List Entry)
      → IsFinished rest
      → IsFinished (reconnect stream hs rest)
  reconnect-IsFinished [] rest h = h
  reconnect-IsFinished (Happening.interrupted ∷ hs) rest h = h
  reconnect-IsFinished (Happening.arrived kind created ∷ hs) rest h =
      (h.0, λ p. h.1 BrokerStreamStatus.connecting)
  reconnect-IsFinished (Happening.closed ∷ hs) rest h =
      (h.0, λ p. h.1 BrokerStreamStatus.connecting)
  reconnect-IsFinished (Happening.stale ∷ hs) rest h = (h.0, λ p. h.1 BrokerStreamStatus.connecting)
  reconnect-IsFinished (Happening.raised terminal ∷ hs) rest h =
      (h.0, λ p. h.1 BrokerStreamStatus.connecting)
  reconnect-IsFinished (Happening.cancelled ∷ hs) rest h =
      (h.0, λ p. h.1 BrokerStreamStatus.connecting)

  if-IsFinished :
      (b : Bool) (xs ys : List Entry)
      → IsFinished xs
      → IsFinished ys
      → IsFinished (if b then xs else ys)
  if-IsFinished true xs ys h k = h
  if-IsFinished false xs ys h k = k

  backoff-IsFinished :
      (n : ℕ) (rest : List Entry) → IsFinished rest → IsFinished (backoff stream n ++ rest)
  backoff-IsFinished n rest h = (h.0, λ p. h.1 BrokerStreamStatus.reconnecting)

  listen-IsFinished : (failures : ℕ) (hs : List Happening) → IsFinished (listen stream failures hs)
  unfolding listen
  listen-IsFinished failures [] = (refl, λ p. refl)
  listen-IsFinished failures (Happening.arrived kind created ∷ hs) =
      handle_event-IsFinished kind created (listen stream failures hs)
        (listen-IsFinished failures hs)
  listen-IsFinished failures (Happening.closed ∷ hs) =
      let ih = listen-IsFinished (suc failures) hs in
      if-IsFinished stream.is_mock _ _ (refl, λ p. refl)
        (backoff-IsFinished (suc failures) (reconnect stream hs (listen stream (suc failures) hs))
          (reconnect-IsFinished hs (listen stream (suc failures) hs) ih))
  listen-IsFinished failures (Happening.stale ∷ hs) =
      let ih = listen-IsFinished (suc failures) hs in
      backoff-IsFinished (suc failures) (reconnect stream hs (listen stream (suc failures) hs))
        (reconnect-IsFinished hs (listen stream (suc failures) hs) ih)
  listen-IsFinished failures (Happening.raised terminal ∷ hs) =
      let ih = listen-IsFinished (suc failures) hs in
      if-IsFinished terminal _ _ (refl, λ p. refl)
        (backoff-IsFinished (suc failures) (reconnect stream hs (listen stream (suc failures) hs))
          (reconnect-IsFinished hs (listen stream (suc failures) hs) ih))
  listen-IsFinished failures (Happening.cancelled ∷ hs) = (refl, λ p. refl)
  listen-IsFinished failures (Happening.interrupted ∷ hs) = (refl, λ p. refl)

  -- Whatever happens to a stream that holds its lease, its statuses follow the state machine from STARTING
  -- on, its lease is released exactly once, and its last status is STOPPED, also after FAILED.
  pub run_stream_ends :
      (hs : List Happening)
      → (is_chain BrokerStreamStatus.starting (statuses (run_stream stream true hs)) ≡ true)
        × (releases (run_stream stream true hs) ≡ 1)
        × (last_status BrokerStreamStatus.starting (run_stream stream true hs)
            ≡ BrokerStreamStatus.stopped)
  unfolding run_stream
  run_stream_ends hs =
      let k = reconnect-IsFinished hs (listen stream 0 hs) (listen-IsFinished 0 hs) in
      (first-chain stream hs, k.0, k.1 BrokerStreamStatus.starting)
