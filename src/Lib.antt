-- ===== src/Lib.antt =====
-- Auto Invest Manager, a Python service (src/app) that plans, checks and executes orders of an
-- investment account by the state of its portfolio. What follows models its core.
--
-- The parts and their files:
--   src/app/models/enums.py, entities.py: Models/Enums, Models/Entities. Each StrEnum is a data type,
--     each row a record; ids are numbers and times microseconds.
--   src/app/execution/risk.py, planner.py, dto.py: Execution/Risk (evaluate), Execution/Planner (plan),
--     Execution/Dto. Amounts are decimal.Decimal, here exact fractions (Base/Decimal).
--   src/app/execution/repository.py, service.py: Execution/Store is the state, the tables that the
--     code reads and writes with what was sent and posted; Execution/Repository, Execution/Context
--     (_build_risk_context) and Execution/Service have one function for each method. Execution/Lifecycle puts the operations in sequences.
--   src/app/automation/retry.py, lock.py: Automation/Retry (run_with_retry), Automation/Lock (acquire,
--     release).
--   src/app/automation/repository.py, service.py: Automation/Store, Automation/Repository, Automation/
--     Pipeline (from _run_pipeline down) and Automation/Service (run, _resolve_run, _run_guarded).
--   src/app/streams/lease.py: Streams/Lease.
--   src/app/streams/repository.py: Streams/Inbox and Streams/Inbox/Counting, the inbox of events.
--   src/app/streams/processor.py: Streams/Processor (process_event and the debounce) and
--     Streams/ReconcileJob (run_reconciliation_job).
--   src/app/automation/worker.py: Streams/Jobs (process_broker_stream_event).
--   src/app/streams/reconciliation.py, dto.py: Streams/Ledger (the tables and the methods of the
--     repository), Streams/Reconciliation (reconcile), Streams/Operations (classify_operation).
--   src/app/streams/supervisor.py: Streams/Supervisor (_run_stream, _handle_event, ReconnectPolicy), a
--     log of what a stream does for a list of what happens to it.
--   src/app/portfolio/optimizer.py, planner.py, dto.py: Portfolio/Optimizer (optimize and _validate),
--     Portfolio/Planner (plan), Portfolio/Dto.
--   src/app/admin/schemas.py, repository.py, service.py: Admin/Schemas (the payloads and their checks),
--     Admin/Changes (how a payload changes a row), Admin/Store (the tables and AdminRepository) and Admin
--     (AdminService). Admin/Requests puts the requests in sequences.
--   src/app/signals/service.py, repository.py: Signals (run), over the engine of interface.py.
--   src/app/broker/mock.py: Broker/Mock (get_operations_page).
--   src/app/portfolio/repository.py, service.py: Portfolio/Store, Portfolio/Repository and
--     Portfolio/Service (create_plan).
--
-- How they interact: the cycle calls the broker and the services through the interface Services of
-- Automation/Store, retries its reads by run_with_retry and takes the lock of Automation/Lock. The lock
-- and the lease run on the interface Redis, whose laws are IsRedis; Redis/Memory is a server that keeps
-- them. A worker of Streams/Processor claims the events of Streams/Inbox. create_plan reads the
-- watchlist, the signals and the broker, and passes the assets through the optimizer to the planner.
-- The job of Streams/Jobs calls process_event under its timeout, and the queue runs it again while it asks
-- for that; what process_event collects in Redis/Sets, the job of Streams/ReconcileJob reads, reconciles
-- and turns into an automation cycle. Broker/Mock/Pages puts the loop of a reconciliation on the mock.
--
-- Conventions. A method that changes the state and may raise is an Action (Base/Effects): what was
-- written before a raise stays written, as each method commits by itself. Calls of the broker, the
-- clock, Redis and the services are numbered, so that their answers may change from call to call and
-- may be errors. asyncio.timeout is the test `expired` at every such call. SHA-256, random.uniform,
-- uuid4 and the text of a UUID are parameters. Loops are structural recursion on lists; the loop of
-- the retries counts down max_attempts, which is all the attempts that the code makes, so no fuel is
-- needed there. The number of rounds of the optimizer is a parameter, as the code bounds it by
-- nothing: what holds of a result holds for any number. On exact fractions two rounds more than there
-- are assets are enough, as each round but the last two closes a slot for good; with the 28 digits of
-- Python's Decimal what the rounding leaves may take many more. The pages of a reconciliation are counted down
-- from max_pages, as in the code. The jobs of an event run on fuel for as many jobs as the event has
-- attempts left. A request of an administrator runs in one session: when it raises, nothing is stored.
--
-- A rollback expires the rows of a session that is in a transaction, and reading one then raises
-- (reconcile); a refused statement leaves the session unusable until a rollback (run). Objects that are
-- added to a session wait in it for the next commit (the signals).
--
-- Not modelled: other failures and races of the database inside one method, the texts of messages and the
-- contexts of audit rows, the 28 digits of the decimal context, and the parts of the program that are
-- only glue (src/app/api, src/app/core, src/app/db, the adapters of src/app/broker, the notifiers).
-- The engine of the signals (src/app/signals/engine.py) computes with binary floats and is a parameter
-- of the service, as are Python's str.upper, str.lower and the text of a number; the patterns of the
-- texts that an administrator sends are not modelled. Of the supervisor, the tasks of asyncio are
-- happenings; of a job under a timeout, the awaits are the points where it may be cut.
pub mod Base
pub mod Models
pub mod Execution
pub mod Redis
pub mod Admin
pub mod Automation
pub mod Broker
pub mod Portfolio
pub mod Signals
pub mod Streams
pub mod Checks
