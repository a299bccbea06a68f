-- ===== src/Lib.antt =====
-- A verification library for gtasks, chiefly its event queue (gtasks/event_queue): the service that
-- takes `job_applied` events from a NATS stream, counts each application once towards a daily quota
-- task, and acknowledges, retries or dead-letters each delivery.
--
-- The program's parts and the modules that model them:
--   * gtasks/event_queue/contract.py: EventQueue.Json (decoded JSON), EventQueue.Event (the
--     dataclasses), EventQueue.Registry (`HandlerRegistry`) and EventQueue.Contract (`parse_event`
--     and its helpers);
--   * gtasks/event_queue/store.py: EventQueue.Store, a record of three tables with one function per
--     method of `EventStore`. A method holds the lock and one SQLite transaction, so each is one
--     step; a transaction that raises leaves the tables as they were. Store.Calls has sequences of
--     calls;
--   * gtasks/event_queue/handler.py: EventQueue.Slug (`application_slug`), EventQueue.Handler
--     (`JobAppliedHandler` over the protocol `JobAppliedAdapter`, a record of operations over a
--     state of its own), EventQueue.Memory (`InMemoryJobAppliedAdapter`) and EventQueue.Processor
--     (`JobAppliedProcessor`);
--   * gtasks/event_queue/gbrain_adapter.py: EventQueue.Gbrain (`GBrainJobAppliedAdapter`), with
--     Gbrain.Links for links, Gbrain.QuotaPage and Gbrain.ApplicationPage for the two kinds of
--     pages, and Gbrain.Calls for what it calls;
--   * gtasks/event_queue/producer.py: EventQueue.Producer (`enqueue_once`), whose state is the list
--     of publications;
--   * gtasks/event_queue/worker.py: EventQueue.Worker (`EventWorker`), whose state is the store,
--     the state behind the adapter, the number of clock readings and the list of signals sent to
--     the broker;
--   * gtasks/task_operations.py: TaskOperations (`TaskOperationStore`), a table and the number of
--     UUIDs drawn;
--   * gtasks/read_budget.py: ReadLane (`BoundedReadExecutor`), the queue of jobs and the number of
--     workers, with one step for each block under the condition;
--   * gtasks/read_budget.py: ReadBudget (`ReadBudget`, `_ReadBudgetIntersection`), nested deadlines
--     over a clock;
--   * gtasks/read_cache.py: ReadCache (`ReadSurfaceCache`), the entries for each surface and one
--     function for each block under the condition; ReadCache.Surfaces has interleavings of blocks,
--     ReadCache.Readiness `inspect`;
--   * gtasks/handoff.py: Handoff (`TaskHandoff`, `validate_task_handoff`), over decoded JSON;
--   * gtasks/domain.py, in part: Domain.Metrics (`ProgressMetric` and `EventProgress`), whose
--     agreement with EventQueue.Gbrain is the subject of Domain.QueueMetric and Domain.Queue;
--   * gtasks/warnings.py: Warnings (`WarningDismissalStore`) and Warnings.Content, the state being
--     the decoded file;
--   * gtasks/releases.py: Releases (`_load_catalog`), over the decoded catalog.
-- The worker runs the processor, which runs the handler over an adapter and keeps the store; the
-- other parts stand beside the queue. EventQueue.World joins the store and the adapter's state, and
-- EventQueue.Time has the timestamps. Prelude holds the shared helpers: Exec (a state monad with
-- exceptions, in which a computation that raises keeps the writes before it unless it is a
-- transaction), Checked (pure checks that may raise), Tables (rows as lists), Sets, Dict and Texts.
-- EventQueue.Tests has concrete runs.
--
-- Correspondence. A method `m` of the source is the function `m` here; branches that follow a `try`
-- are functions on the outcome, such as `after_claim` and `after_handle`. An aware datetime is its
-- instant in microseconds, a date is its ISO text. Exceptions are the constructors of `Error`;
-- `value_error` and `other_error` stand for exceptions of Python's standard library. No loop of the
-- modelled code needs fuel: all recursion is on lists, texts and the number of heartbeats.
--
-- Parameters. What the code takes from outside is an argument of the definitions: `Library` and
-- `TextLibrary` hold json.loads's outcome, fromisoformat, ZoneInfo, urlsplit, astimezone, SHA-256,
-- str.strip and str.lower; the clock is a function from the number of the reading; the outcomes of
-- publishing a dead letter and of the ack are fields of `Message`. `OperationLibrary` has the
-- digests and the UUIDs, and `VersionLibrary` the pattern of a version. `Runner` is gbrain, with
-- the two operations of gtasks/gbrain.py that the adapter calls, any answers allowed; `PageLibrary`
-- has Python's strings, json.dumps and dates. `ProducerLibrary` has the size of an event's text and
-- `float`. `HandoffLibrary` has the timestamps and the strip of a hand-off, `DomainLibrary` strip
-- and the calendar, `WarningLibrary` sorting and the fingerprints. In the cache, the readings of
-- the clock and how the checks of a budget and `submit` end are arguments of the block that meets
-- them.
--
-- Not modelled: failures of SQLite, the schema's creation, `list_terminals`; failures of the
-- broker's nak and in_progress; the interleaving of heartbeats with the handler's thread, which
-- shares no state with them; the text of error messages; `SubprocessCommandRunner`; the service
-- loop and the broker's set-up; a json.loads that raises another error than JSONDecodeError and
-- UnicodeDecodeError (RecursionError, or ValueError for an integer of too many digits), which the
-- code does not catch and the model takes for data that cannot be decoded; numbers past the limits
-- of a timedelta, of a datetime and of SQLite's 64-bit integers, where Python raises OverflowError;
-- times that are no finite numbers: the readings of clocks, the time limits of budgets and the times
-- of snapshots are natural numbers, so that `valid_time` has no test of their type, and nested
-- budgets read one clock; `read_result`, `map` and `budget_lock` of gtasks/read_budget.py;
-- the snapshot file of the read cache, `wait_for_idle` and the wait of a foreground reader, which
-- change no entry but by the expiry that is modelled; and the rest of gtasks (the other records of
-- gtasks/domain.py, the HTTP server and the dispatchers of hand-offs).
pub mod Prelude
pub mod EventQueue
pub mod TaskOperations
pub mod ReadLane
pub mod Releases
pub mod Handoff
pub mod ReadBudget
pub mod ReadCache
pub mod Domain
pub mod Warnings
