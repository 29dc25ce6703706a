-- ===== src/Streams/Supervisor/Statuses.antt =====
-- The statuses of a stream in their order, and its end.
use auto_invest_manager.Base.{
  ℕ, suc, ◌≡◌, refl, Bool, true, false, ◌&&◌, List, [], ◌∷◌, ◌++◌, if◌then◌else◌,
}
use auto_invest_manager.Models.Enums.{BrokerStreamStatus, BrokerStreamEventKind}
use auto_invest_manager.Streams.Supervisor.{
  Happening, Entry, Stream, persist, handle_event, finish, backoff, fail, reconnect, listen,
}

abbrev pub statuses : List Entry → List BrokerStreamStatus
statuses [] = []
statuses (Entry.state s ∷ rest) = s ∷ statuses rest
statuses (_ ∷ rest) = statuses rest

-- Which status may come next.
abbrev pub may_follow : BrokerStreamStatus → BrokerStreamStatus → Bool
may_follow BrokerStreamStatus.starting BrokerStreamStatus.connecting = true
may_follow BrokerStreamStatus.starting BrokerStreamStatus.stopped = true
may_follow BrokerStreamStatus.connecting BrokerStreamStatus.connecting = true
may_follow BrokerStreamStatus.connecting BrokerStreamStatus.connected = true
may_follow BrokerStreamStatus.connecting BrokerStreamStatus.degraded = true
may_follow BrokerStreamStatus.connecting BrokerStreamStatus.reconnecting = true
may_follow BrokerStreamStatus.connecting BrokerStreamStatus.failed = true
may_follow BrokerStreamStatus.connecting BrokerStreamStatus.stopped = true
may_follow BrokerStreamStatus.connected BrokerStreamStatus.connected = true
may_follow BrokerStreamStatus.connected BrokerStreamStatus.degraded = true
may_follow BrokerStreamStatus.connected BrokerStreamStatus.reconnecting = true
may_follow BrokerStreamStatus.connected BrokerStreamStatus.failed = true
may_follow BrokerStreamStatus.connected BrokerStreamStatus.stopped = true
may_follow BrokerStreamStatus.degraded BrokerStreamStatus.reconnecting = true
may_follow BrokerStreamStatus.reconnecting BrokerStreamStatus.connecting = true
may_follow BrokerStreamStatus.reconnecting BrokerStreamStatus.stopped = true
may_follow BrokerStreamStatus.failed BrokerStreamStatus.stopped = true
may_follow _ _ = false

abbrev pub is_chain : BrokerStreamStatus → List BrokerStreamStatus → Bool
is_chain p [] = true
is_chain p (s ∷ rest) = may_follow p s && is_chain s rest

-- Of an open connection.
data IsOpen : BrokerStreamStatus → Type 0 where
  is_connecting : IsOpen BrokerStreamStatus.connecting
  is_connected : IsOpen BrokerStreamStatus.connected

module _ (stream : Stream) where
  persist-chain :
      (p : BrokerStreamStatus) (created : Bool) (rest : List Entry)
      → IsOpen p
      → is_chain BrokerStreamStatus.connected (statuses rest) ≡ true
      → is_chain p (statuses (persist created ++ rest)) ≡ true
  persist-chain _ true rest IsOpen.is_connecting h = h
  persist-chain _ true rest IsOpen.is_connected h = h
  persist-chain _ false rest IsOpen.is_connecting h = h
  persist-chain _ false rest IsOpen.is_connected h = h

  handle_event-chain :
      (p : BrokerStreamStatus) (kind : BrokerStreamEventKind) (created : Bool) (rest : List Entry)
      → IsOpen p
      → is_chain BrokerStreamStatus.connected (statuses rest) ≡ true
      → is_chain p (statuses (handle_event stream kind created ++ rest)) ≡ true
  unfolding handle_event
  handle_event-chain p BrokerStreamEventKind.portfolio_updated created rest o h =
      persist-chain p created rest o h
  handle_event-chain p BrokerStreamEventKind.positions_updated created rest o h =
      persist-chain p created rest o h
  handle_event-chain p BrokerStreamEventKind.user_trade_executed created rest o h =
      persist-chain p created rest o h
  handle_event-chain p BrokerStreamEventKind.subscription_status created rest o h =
      go stream.has_accounts
    where
      go :
          (b : Bool)
          → is_chain p (
              statuses
                ((if b then Entry.reconciled ∷ persist created else persist created) ++ rest))
            ≡ true
      go true = persist-chain p created rest o h
      go false = persist-chain p created rest o h
  handle_event-chain _ BrokerStreamEventKind.ping created rest IsOpen.is_connecting h = h
  handle_event-chain _ BrokerStreamEventKind.ping created rest IsOpen.is_connected h = h

  finish-chain : (p : BrokerStreamStatus) → IsOpen p → is_chain p (statuses (finish stream)) ≡ true
  finish-chain _ IsOpen.is_connecting = refl
  finish-chain _ IsOpen.is_connected = refl

  fail-chain :
      (p : BrokerStreamStatus)
      → IsOpen p
      → is_chain p (statuses (fail stream ++ finish stream)) ≡ true
  fail-chain _ IsOpen.is_connecting = refl
  fail-chain _ IsOpen.is_connected = refl

  -- What follows a wait, from what follows a connection.
  reconnect-chain :
      (n : ℕ) (hs : List Happening)
      → is_chain BrokerStreamStatus.connecting (statuses (listen stream n hs)) ≡ true
      → is_chain BrokerStreamStatus.reconnecting
          (statuses (reconnect stream hs (listen stream n hs)))
        ≡ true
  unfolding listen
  reconnect-chain n [] h = refl
  reconnect-chain n (Happening.interrupted ∷ hs) h = refl
  reconnect-chain n (Happening.arrived kind created ∷ hs) h = h
  reconnect-chain n (Happening.closed ∷ hs) h = h
  reconnect-chain n (Happening.stale ∷ hs) h = h
  reconnect-chain n (Happening.raised terminal ∷ hs) h = h
  reconnect-chain n (Happening.cancelled ∷ hs) h = h

  backoff-chain :
      (p : BrokerStreamStatus) (n : ℕ) (rest : List Entry)
      → IsOpen p
      → is_chain BrokerStreamStatus.reconnecting (statuses rest) ≡ true
      → is_chain p (statuses (backoff stream n ++ rest)) ≡ true
  backoff-chain _ n rest IsOpen.is_connecting h = h
  backoff-chain _ n rest IsOpen.is_connected h = h

  stale-chain :
      (p : BrokerStreamStatus) (n : ℕ) (rest : List Entry)
      → IsOpen p
      → is_chain BrokerStreamStatus.reconnecting (statuses rest) ≡ true
      → is_chain p (
          statuses (
            Entry.state BrokerStreamStatus.degraded
            ∷ Entry.audited "broker.stream.stale"
            ∷ (backoff stream n ++ rest)))
        ≡ true
  stale-chain _ n rest IsOpen.is_connecting h = h
  stale-chain _ n rest IsOpen.is_connected h = h

  if-chain :
      (p : BrokerStreamStatus) (b : Bool) (xs ys : List Entry)
      → is_chain p (statuses xs) ≡ true
      → is_chain p (statuses ys) ≡ true
      → is_chain p (statuses (if b then xs else ys)) ≡ true
  if-chain p true xs ys h k = h
  if-chain p false xs ys h k = k

  listen-chain :
      (p : BrokerStreamStatus) (failures : ℕ) (hs : List Happening)
      → IsOpen p
      → is_chain p (statuses (listen stream failures hs)) ≡ true
  unfolding listen
  listen-chain p failures [] o = finish-chain p o
  listen-chain p failures (Happening.arrived kind created ∷ hs) o =
      handle_event-chain p kind created (listen stream failures hs) o
        (listen-chain BrokerStreamStatus.connected failures hs IsOpen.is_connected)
  listen-chain p failures (Happening.closed ∷ hs) o =
      if-chain p stream.is_mock _ _ (finish-chain p o) (
        backoff-chain p (suc failures) (reconnect stream hs (listen stream (suc failures) hs)) o (
          reconnect-chain (suc failures) hs
            (listen-chain BrokerStreamStatus.connecting (suc failures) hs IsOpen.is_connecting)))
  listen-chain p failures (Happening.stale ∷ hs) o =
      stale-chain p (suc failures) (reconnect stream hs (listen stream (suc failures) hs)) o (
        reconnect-chain (suc failures) hs
          (listen-chain BrokerStreamStatus.connecting (suc failures) hs IsOpen.is_connecting))
  listen-chain p failures (Happening.raised terminal ∷ hs) o =
      if-chain p terminal _ _ (fail-chain p o) (
        backoff-chain p (suc failures) (reconnect stream hs (listen stream (suc failures) hs)) o (
          reconnect-chain (suc failures) hs
            (listen-chain BrokerStreamStatus.connecting (suc failures) hs IsOpen.is_connecting)))
  listen-chain p failures (Happening.cancelled ∷ hs) o = finish-chain p o
  listen-chain p failures (Happening.interrupted ∷ hs) o = finish-chain p o

  pub first-chain :
      (hs : List Happening)
      → is_chain BrokerStreamStatus.starting (statuses (reconnect stream hs (listen stream 0 hs)))
        ≡ true
  unfolding listen
  first-chain [] = refl
  first-chain (Happening.interrupted ∷ hs) = refl
  first-chain (Happening.arrived kind created ∷ hs) =
      listen-chain BrokerStreamStatus.connecting 0 (Happening.arrived kind created ∷ hs)
        IsOpen.is_connecting
  first-chain (Happening.closed ∷ hs) =
      listen-chain BrokerStreamStatus.connecting 0 (Happening.closed ∷ hs) IsOpen.is_connecting
  first-chain (Happening.stale ∷ hs) =
      listen-chain BrokerStreamStatus.connecting 0 (Happening.stale ∷ hs) IsOpen.is_connecting
  first-chain (Happening.raised terminal ∷ hs) =
      listen-chain BrokerStreamStatus.connecting 0 (Happening.raised terminal ∷ hs)
        IsOpen.is_connecting
  first-chain (Happening.cancelled ∷ hs) = refl
