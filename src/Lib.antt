-- ===== src/Lib.antt =====
-- django-absurd: a Django task backend over Absurd, a queue that lives in Postgres.
--
-- The parts, and how they interact. `@task` builds an `AbsurdTask` (django_absurd/tasks.py), which
-- carries spawn params; `absurd_params` (django_absurd/params.py) attaches them at the definition or at
-- one call. The backend (django_absurd/backends.py) turns an enqueue into a spawn of the SDK. An
-- enqueue with `run_after` spawns a wrapper instead, whose handler (django_absurd/deferred.py) sleeps
-- until due and then enqueues the caller's task. A worker (django_absurd/worker.py) claims rows,
-- resolves their handlers in `LazyTaskRegistry` and runs them, and sends Django's signals
-- (django_absurd/dispatch.py). The beat (django_absurd/scheduler.py) enqueues scheduled tasks.
-- Provisioning (django_absurd/queues.py) creates the declared queues, and repairs and updates them.
-- `get_result` (django_absurd/backends.py) reads a task's rows back as a `TaskResult`. Where pg_cron
-- takes the beat's place, django_absurd/pg_cron/reconcile.py writes a row for each declared schedule, and
-- each write of a row the row's job in the central catalog (django_absurd/pg_cron/signals.py, models.py,
-- catalog.py). The hooks (django_absurd/hooks.py) log what a client of the SDK spawns and runs.
--
-- The files:
--   Prelude        association lists for dicts (Prelude/Dicts), texts with suffixes and `rsplit`
--                  (Prelude/Texts), list functions and Boolean tests over the native numbers
--   Exceptions     django_absurd/exceptions.py, and the exceptions of Python, Django, psycopg and the
--                  SDK that the code tells apart
--   Effect         `Run W A`: a call that changes a world `W` and returns or raises; `try`/`except` and
--                  `try`/`finally`
--   Json           JSON values
--   Task           django_absurd/tasks.py: `Task`, `build_merged_spawn_options`, `__post_init__`
--                  (`post_init`), `using`; Task/Warnings: `warn_if_params_are_inert`
--   Params         django_absurd/params.py: `absurd_params`, `bind`, the decorators (`decorate`)
--   Dispatch       django_absurd/dispatch.py
--   Connection     django_absurd/connection.py: `validate_backend`, `open_central_connection`
--   Settings       `resolve_absurd_database` and `get_absurd_backend` of django_absurd/queues.py
--   Queues         django_absurd/queues.py: `plan_queue`, `apply_queue_plan`, `reconcile_queue`,
--                  `sync_queues`, `plan_queue_sync`; Queues/Tables: `names_a_queue_table`;
--                  Queues/Provision: what the SDK's calls do, and what follows of a reconciliation;
--                  Queues/Sync: what follows of a whole sync; Queues/Boot: `provision_backend`
--   Deferred       django_absurd/deferred.py; Deferred/Options and Deferred/Target: what the options
--                  and the task are that the wrapper rebuilds
--   Backend        django_absurd/backends.py: the settings; Backend/Enqueue: `enqueue`;
--                  Backend/Results: `get_result`, `build_task_result`; Backend/Deferral: the wrapper and
--                  its handler together
--   Worker         django_absurd/worker.py: Worker/Registry for `LazyTaskRegistry`, Worker/Handler for
--                  `build_handler` and what it calls, Worker/Window for the blocking loops,
--                  Worker/Drain for the drain and the runtime that it opens, Worker/Runs for
--                  `drain_queue` and `run_worker` round them, Worker/Beside for `arun_worker` and the
--                  beat beside a worker
--   Scheduler      django_absurd/scheduler.py; Scheduler/Entries: the schedules of the settings
--   PgCron         django_absurd/pg_cron: PgCron/Detection for detection.py, PgCron/Catalog for
--                  catalog.py, with Catalog/Table for what the extension's functions do to the table of
--                  jobs and Catalog/Lanes for what each operation leaves there, PgCron/Rows for models.py
--                  and signals.py, PgCron/Reconcile for reconcile.py, with Reconcile/Options and
--                  Reconcile/Orphans, PgCron/Validators for validators.py, PgCron/Checks for checks.py and
--                  `clean` of models.py
--   Hooks          django_absurd/hooks.py
--   Events         django_absurd/events.py
--   Context        django_absurd/context.py: `AsyncAbsurdTaskContext`; Context/Bridge:
--                  `AbsurdTaskContext` and `get_absurd_context`; Context/Durable: what the SDK
--                  documents of checkpoints; Context/Replay: a task's attempts
--   Cleanup        django_absurd/cleanup.py: `cleanup_queues`
--   Router         django_absurd/routers.py
--   Flush          django_absurd/flush.py
--   Validators     django_absurd/validators.py
--   Checks         django_absurd/checks.py: the check of the schedules; Checks/Settings: the other checks;
--                  Checks/Entries and Checks/Schedules: what an accepted SCHEDULE loads as;
--                  Checks/Policies: what an accepted policy lets provisioning write
--   Logging        django_absurd/logging.py
--   Commands       django_absurd/management: base.py (`resolve_backend`, `execute`), absurd_beat,
--                  absurd_worker and absurd_cleanup; Commands/Sync: absurd_sync_queues;
--                  Commands/Flush: absurd_flush; Commands/Crons: absurd_sync_crons of
--                  django_absurd/pg_cron; Commands/InSync: what a check reports after a sync;
--                  Commands/Confirm: a flush that nobody confirms
--   Admin          django_absurd/admin_views.py: the entities; Admin/Views: their union views;
--                  Admin/Models: the models that are built; Admin/Columns: the columns of both;
--                  Admin/Quoting: where the names of queues stand; Admin/Tables: whose table a
--                  model reads
--   Migrate        what follows a migrate, in django_absurd/apps.py and django_absurd/pg_cron/apps.py;
--                  Migrate/Backends: which backends it provisions
--   Plugin         the sweeps of django_absurd/pytest_plugin.py
--   Frozen         the frozen clock of django_absurd/test.py; Frozen/Ahead: what an interrupted move
--                  leaves; Frozen/Release: what the end of a block leaves
--   Tests          concrete runs
--
-- State. A dict is an association list with one entry for a key. A function that reads or writes
-- something outside itself takes the world `W` and returns it changed; `W` is a parameter, and what
-- is known of it is a record of operations, with a record of laws where a theorem needs them. These
-- records stand for Django, psycopg, croniter and Absurd's SDK, none of which is in the repository:
-- `Services`, `Reads` (Backend), `Runtime` (Deferred), `Host` (Worker), `Loop` (Worker), `Clockwork`
-- (Scheduler), `Database` (Queues), `Connections`, `Central`, `PgCron`, `Orm`, `Logger`, `Client`
-- (Worker), `Tools` (Checks), `Flusher`, `TaskContext`, `Console` (Commands), `BeatThread` (Worker),
-- `Session` (Plugin), `Clocks` (Frozen). The laws are `Sdk` (what `create_queue` and
-- `set_queue_policy` leave in the database, which is what was declared only where it was declared in
-- canonical form, the form in which its column gives it back: `cleanup_limit` a number,
-- `detach_mode` one of its two words in lower case, an interval a text), `Apart` (that they touch
-- one queue), `Observed` (only a send adds to the signals sent) and `Contained` (logging and closing
-- connections return, and no enqueue raises past `Exception`), `ClaimsBounded` and `Settles` (what a
-- claim and asyncio's waits do), `IsCron` (what the extension's functions leave in the table of
-- jobs), `InOrder` and `IsSpent` (what `asyncio.gather` and a drain's batches do), `RefusesEmpty`
-- (what the empty text is not), `LogsContained` (logging raises at most an `Exception`), `Durable`
-- (what the SDK keeps of a task's steps), `Transacts` (what a transaction that returns has done),
-- `Works` and `Resets` (what time-machine and Postgres do to the two clocks).
--
-- Fuel. `adrain_queue` takes the number of its claims; one more than the queue's backlog is enough
-- (Worker/Drain/Ends). `beat_loop` and `refill_loop` take the number of their rounds, since the
-- source's loops end only when they are stopped; what is stated of them holds of each round, or of
-- any number of them. `get_result` takes the number of wrappers that it may follow; the source
-- follows them without a bound.
--
-- Not modelled. Message wording and logging formats; times are counted in seconds. The wording of a
-- `TypeError` is kept as the case that it reports. Of the worker its thread pool and its event loop are
-- left out. Of the test helpers only the frozen clock is modelled, with a real time that stands still
-- and without the hop off an event loop. The admin's pages and the vendored SQL of Absurd are glue or
-- another project's code; the parsing of a command line is Django's. A transaction round a write of a
-- schedule's row has no model: the write is committed at once.
pub mod Prelude
pub mod Exceptions
pub mod Effect
pub mod Json
pub mod Task
pub mod Params
pub mod Dispatch
pub mod Connection
pub mod Queues
pub mod Deferred
pub mod Backend
pub mod Worker
pub mod Scheduler
pub mod Settings
pub mod Validators
pub mod Checks
pub mod PgCron
pub mod Hooks
pub mod Events
pub mod Context
pub mod Cleanup
pub mod Router
pub mod Flush
pub mod Logging
pub mod Commands
pub mod Admin
pub mod Migrate
pub mod Plugin
pub mod Frozen
pub mod Tests
