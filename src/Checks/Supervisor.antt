-- ===== src/Checks/Supervisor.antt =====
-- The theorems on app/streams/supervisor.py at concrete inputs.
use auto_invest_manager.Base.{◌≡◌, refl, true, false, List, [], ◌∷◌, All, arith}
use auto_invest_manager.Models.Enums.{BrokerStreamStatus, BrokerStreamEventKind}
use auto_invest_manager.Streams.Supervisor.{
  Stream, Happening, run_stream, listen, handle_event, delay,
}
use auto_invest_manager.Streams.Supervisor.Statuses.{statuses, is_chain}
use auto_invest_manager.Streams.Supervisor.Endings.{releases, last_status, run_stream_ends}
use auto_invest_manager.Streams.Supervisor.Delays.{waits, IsBounded, AreCounted, run_stream_delays}

abbrev stream : Stream
stream = record {
  policy = record { initial = 1000; maximum = 60000; jitter = true };
  uniform = λ n. n;
  is_mock = false;
  has_accounts = true;
}

abbrev happenings : List Happening
happenings =
    Happening.arrived BrokerStreamEventKind.subscription_status true
    ∷ Happening.stale
    ∷ Happening.arrived BrokerStreamEventKind.portfolio_updated true
    ∷ Happening.closed
    ∷ Happening.raised true
    ∷ []

run_stream_ends_example :
    (is_chain BrokerStreamStatus.starting (statuses (run_stream stream true happenings)) ≡ true)
    × (releases (run_stream stream true happenings) ≡ 1)
    × (last_status BrokerStreamStatus.starting (run_stream stream true happenings)
        ≡ BrokerStreamStatus.stopped)
run_stream_ends_example = run_stream_ends stream happenings

run_stream_delays_example :
    All (IsBounded stream.policy) (waits (run_stream stream true happenings))
    × AreCounted 0 (waits (run_stream stream true happenings))
run_stream_delays_example = run_stream_delays stream (λ m. omega arith) happenings

-- The second failure waits twice as long as the first, though an event arrived in between.
two_waits : waits (run_stream stream true happenings) ≡ (1, 1000) ∷ (2, 2000) ∷ []
unfolding run_stream listen handle_event delay
two_waits = refl
