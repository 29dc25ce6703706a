-- ===== src/Streams/Supervisor.antt =====
-- app/streams/supervisor.py: the life of one broker stream. What it does is a log of entries, in their
-- order; what happens to it, until it is told to stop, is a list of happenings. An error that
-- `_handle_event` or the store raises is a happening too, without what was done of the event. Delays are milliseconds.
pub mod Statuses
pub mod Endings
pub mod Delays
use auto_invest_manager.Base.{
  ℕ, suc, ◌+◌, ◌-◌, ◌*◌, ◌^◌, min, Bool, true, false, List, [], ◌∷◌, ◌++◌, String, if◌then◌else◌,
}
use auto_invest_manager.Models.Enums.{BrokerStreamStatus, BrokerStreamEventKind}

pub record ReconnectPolicy : Type 0 where
  pub initial : ℕ
  pub maximum : ℕ
  pub jitter : Bool

-- `delay`; `uniform` stands for random.uniform(0, value).
unfoldable pub delay : ReconnectPolicy → (ℕ → ℕ) → ℕ → ℕ
delay policy uniform failures =
    let value = min policy.maximum (policy.initial * 2 ^ (failures - 1)) in
    if policy.jitter then uniform value else value

pub data Happening : Type 0 where
  -- an event, and whether `persist_event` finds it new
  arrived : BrokerStreamEventKind → Bool → Happening
  -- the iterator ends, or nothing arrives in time
  closed stale : Happening
  -- any other error, and whether `_terminal_stream_error` holds of it
  raised : Bool → Happening
  -- the lease is lost, or a stop is seen while waiting for an event, or for the next connection
  cancelled interrupted : Happening

pub data Entry : Type 0 where
  state : BrokerStreamStatus → Entry
  -- `_set_state` with no status
  touched : Entry
  audited : String → Entry
  notified : String → Entry
  -- the debounced reconciliation of the first account, and the job of a new event
  reconciled enqueued : Entry
  -- `consecutive_failures` and the delay before the next connection
  waiting : ℕ → ℕ → Entry
  released : Entry

pub record Stream : Type 0 where
  pub policy : ReconnectPolicy
  pub uniform : ℕ → ℕ
  pub is_mock : Bool
  pub has_accounts : Bool

abbrev pub enqueue_new : Bool → List Entry
enqueue_new true = Entry.enqueued ∷ []
enqueue_new false = []

abbrev pub persist : Bool → List Entry
persist created = Entry.state BrokerStreamStatus.connected ∷ enqueue_new created

module _ (stream : Stream) where
  -- `_handle_event`
  unfoldable pub handle_event : BrokerStreamEventKind → Bool → List Entry
  handle_event BrokerStreamEventKind.subscription_status created =
      Entry.touched
      ∷ Entry.audited "broker.stream.connected"
      ∷ (if stream.has_accounts then Entry.reconciled ∷ persist created else persist created)
  handle_event BrokerStreamEventKind.ping created = Entry.state BrokerStreamStatus.connected ∷ []
  handle_event _ created = persist created

  -- The `finally` clause.
  abbrev pub finish : List Entry
  finish =
      Entry.released
      ∷ Entry.state BrokerStreamStatus.stopped
      ∷ Entry.audited "broker.stream.stopped"
      ∷ []

  abbrev pub connecting : List Entry
  connecting =
      Entry.state BrokerStreamStatus.connecting
      ∷ Entry.state BrokerStreamStatus.connecting
      ∷ Entry.audited "broker.stream.started"
      ∷ []

  -- An error that is not terminal; `failures` is already counted.
  abbrev pub backoff : ℕ → List Entry
  backoff failures =
      Entry.state BrokerStreamStatus.reconnecting
      ∷ Entry.audited "broker.stream.disconnected"
      ∷ Entry.audited "broker.stream.reconnecting"
      ∷ Entry.waiting failures (delay stream.policy stream.uniform failures)
      ∷ []

  abbrev pub fail : List Entry
  fail =
      Entry.state BrokerStreamStatus.failed
      ∷ Entry.notified "Broker stream terminal failure"
      ∷ Entry.audited "broker.stream.subscription_failed"
      ∷ []

  -- A new connection, unless the stream is told to stop before.
  abbrev pub reconnect : List Happening → List Entry → List Entry
  reconnect [] rest = rest
  reconnect (Happening.interrupted ∷ hs) rest = rest
  reconnect (_ ∷ hs) rest = connecting ++ rest

  -- The loops of `_run_stream`, from an open connection on. The reset of `failures` after a stable time
  -- stands behind the inner loop, which ends there only when the stream is told to stop.
  unfoldable pub listen : ℕ → List Happening → List Entry
  listen failures [] = finish
  listen failures (Happening.arrived kind created ∷ hs) =
      let rest = listen failures hs in handle_event kind created ++ rest
  listen failures (Happening.closed ∷ hs) =
      let rest = listen (suc failures) hs in
      if stream.is_mock then finish else backoff (suc failures) ++ reconnect hs rest
  listen failures (Happening.stale ∷ hs) =
      let rest = listen (suc failures) hs in
      Entry.state BrokerStreamStatus.degraded
      ∷ Entry.audited "broker.stream.stale"
      ∷ (backoff (suc failures) ++ reconnect hs rest)
  listen failures (Happening.raised terminal ∷ hs) =
      let rest = listen (suc failures) hs in
      if terminal then fail ++ finish else backoff (suc failures) ++ reconnect hs rest
  listen failures (Happening.cancelled ∷ hs) = finish
  listen failures (Happening.interrupted ∷ hs) = finish

  -- `_run_stream`, with whether the lease was acquired.
  unfoldable pub run_stream : Bool → List Happening → List Entry
  run_stream false hs = Entry.state BrokerStreamStatus.stopped ∷ []
  run_stream true hs = reconnect hs (listen 0 hs)
