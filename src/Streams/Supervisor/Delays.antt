-- ===== src/Streams/Supervisor/Delays.antt =====
-- The delays between connections.
use auto_invest_manager.Base.{
  ℕ, suc, ◌*◌, ◌-◌, ◌^◌, ◌≤◌, ◌≡◌, min, refl, Bool, true, false, List, [], ◌∷◌, ◌++◌, All,
  if◌then◌else◌, arith,
}
use auto_invest_manager.Models.Enums.{BrokerStreamEventKind}
use auto_invest_manager.Streams.Supervisor.{
  ReconnectPolicy, delay, Happening, Entry, Stream, persist, handle_event, finish, backoff, fail,
  reconnect, listen, run_stream,
}

-- The failures and the delay of each wait.
abbrev pub waits : List Entry → List (ℕ × ℕ)
waits [] = []
waits (Entry.waiting n d ∷ rest) = (n, d) ∷ waits rest
waits (_ ∷ rest) = waits rest

-- A delay within the maximum and the doubled initial delay.
abbrev pub IsBounded : ReconnectPolicy → ℕ × ℕ → Type 0
IsBounded policy w = (w.1 ≤ policy.maximum) × (w.1 ≤ policy.initial * 2 ^ (w.0 - 1))

-- n + 1, n + 2 and so on
abbrev pub AreCounted : ℕ → List (ℕ × ℕ) → Type 0
AreCounted n [] = Unit
AreCounted n (w ∷ rest) = (w.0 ≡ suc n) × AreCounted (suc n) rest

delay-IsBounded :
    (policy : ReconnectPolicy) (uniform : ℕ → ℕ) (n : ℕ)
    → ((m : ℕ) → uniform m ≤ m)
    → IsBounded policy (n, delay policy uniform n)
unfolding delay
delay-IsBounded policy uniform n h =
    go policy.jitter (min policy.maximum (policy.initial * 2 ^ (n - 1))) (omega arith) (omega arith)
  where
    go :
        (b : Bool) (value : ℕ)
        → value ≤ policy.maximum
        → value ≤ policy.initial * 2 ^ (n - 1)
        → ((if b then uniform value else value) ≤ policy.maximum)
          × ((if b then uniform value else value) ≤ policy.initial * 2 ^ (n - 1))
    go true value k l = (omega (arith, h value, k), omega (arith, h value, l))
    go false value k l = (k, l)

module _ (stream : Stream) (h : (m : ℕ) → stream.uniform m ≤ m) where
  abbrev IsWaiting : ℕ → List Entry → Type 0
  IsWaiting n log = All (IsBounded stream.policy) (waits log) × AreCounted n (waits log)

  handle_event-waits :
      (kind : BrokerStreamEventKind) (created : Bool) (rest : List Entry)
      → waits (handle_event stream kind created ++ rest) ≡ waits rest
  unfolding handle_event
  handle_event-waits BrokerStreamEventKind.portfolio_updated true rest = refl
  handle_event-waits BrokerStreamEventKind.portfolio_updated false rest = refl
  handle_event-waits BrokerStreamEventKind.positions_updated true rest = refl
  handle_event-waits BrokerStreamEventKind.positions_updated false rest = refl
  handle_event-waits BrokerStreamEventKind.user_trade_executed true rest = refl
  handle_event-waits BrokerStreamEventKind.user_trade_executed false rest = refl
  handle_event-waits BrokerStreamEventKind.subscription_status created rest =
      go stream.has_accounts created
    where
      go :
          (b c : Bool)
          → waits ((if b then Entry.reconciled ∷ persist c else persist c) ++ rest) ≡ waits rest
      go true true = refl
      go true false = refl
      go false true = refl
      go false false = refl
  handle_event-waits BrokerStreamEventKind.ping created rest = refl

  reconnect-waits :
      (hs : List Happening) (rest : List Entry) → waits (reconnect stream hs rest) ≡ waits rest
  reconnect-waits [] rest = refl
  reconnect-waits (Happening.interrupted ∷ hs) rest = refl
  reconnect-waits (Happening.arrived kind created ∷ hs) rest = refl
  reconnect-waits (Happening.closed ∷ hs) rest = refl
  reconnect-waits (Happening.stale ∷ hs) rest = refl
  reconnect-waits (Happening.raised terminal ∷ hs) rest = refl
  reconnect-waits (Happening.cancelled ∷ hs) rest = refl

  backoff-IsWaiting :
      (n : ℕ) (hs : List Happening) (rest : List Entry)
      → IsWaiting (suc n) rest
      → IsWaiting n (backoff stream (suc n) ++ reconnect stream hs rest)
  backoff-IsWaiting n hs rest (a, b) =
      rw (reconnect-waits hs rest)
        ((delay-IsBounded stream.policy stream.uniform (suc n) h, a), (refl, b))

  if-IsWaiting :
      (n : ℕ) (b : Bool) (xs ys : List Entry)
      → IsWaiting n xs
      → IsWaiting n ys
      → IsWaiting n (if b then xs else ys)
  if-IsWaiting n true xs ys k l = k
  if-IsWaiting n false xs ys k l = l

  listen-IsWaiting :
      (failures : ℕ) (hs : List Happening) → IsWaiting failures (listen stream failures hs)
  unfolding listen
  listen-IsWaiting failures [] = (tt, tt)
  listen-IsWaiting failures (Happening.arrived kind created ∷ hs) =
      rw (handle_event-waits kind created (listen stream failures hs))
        (listen-IsWaiting failures hs)
  listen-IsWaiting failures (Happening.closed ∷ hs) =
      let ih = listen-IsWaiting (suc failures) hs in
      if-IsWaiting failures stream.is_mock (finish stream)
        (backoff stream (suc failures) ++ reconnect stream hs (listen stream (suc failures) hs))
        (tt, tt) (backoff-IsWaiting failures hs (listen stream (suc failures) hs) ih)
  listen-IsWaiting failures (Happening.stale ∷ hs) =
      backoff-IsWaiting failures hs (listen stream (suc failures) hs)
        (listen-IsWaiting (suc failures) hs)
  listen-IsWaiting failures (Happening.raised terminal ∷ hs) =
      let ih = listen-IsWaiting (suc failures) hs in
      if-IsWaiting failures terminal (fail stream ++ finish stream)
        (backoff stream (suc failures) ++ reconnect stream hs (listen stream (suc failures) hs))
        (tt, tt) (backoff-IsWaiting failures hs (listen stream (suc failures) hs) ih)
  listen-IsWaiting failures (Happening.cancelled ∷ hs) = (tt, tt)
  listen-IsWaiting failures (Happening.interrupted ∷ hs) = (tt, tt)

  -- The waits of a stream for its next connection are counted from one failure on, without a reset, however
  -- many events arrive between; each delay is at most the maximum, and at most the initial delay
  -- doubled with every failure but the first. The jitter draws a number that is at most its bound.
  pub run_stream_delays :
      (hs : List Happening)
      → All (IsBounded stream.policy) (waits (run_stream stream true hs))
        × AreCounted 0 (waits (run_stream stream true hs))
  unfolding run_stream
  run_stream_delays hs = rw (reconnect-waits hs (listen stream 0 hs)) (listen-IsWaiting 0 hs)
