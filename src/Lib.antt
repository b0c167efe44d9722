-- ===== src/Lib.antt =====
-- A model of litestar-queues, a durable task queue: clients enqueue records, workers claim, run
-- and settle them, a maintenance loop recovers stale attempts, expires overdue records and deletes
-- old ones, and a history of events can be queried. Modelled are the reference backend, which
-- keeps everything in process memory, what it shares with the other backends, the backend on a
-- private SQLite file, and the heartbeat manager of a worker.
--
-- Files:
--   Base, Base/*           lists, dicts as association lists in insertion order (one entry to a
--                          key), stable sorting, signed integers over the native numbers.
--   Models, Models/Values  src/litestar_queues/models.py: records, statuses, requests, reports,
--                          and the Python values that they carry.
--   Backend                the module functions of src/litestar_queues/backends/base.py: the attempts
--                          consumed, the retry schedule, filters, the stale-requeue priority.
--   Memory                 InMemoryQueueBackend of src/litestar_queues/backends/memory/backend.py:
--     State                its attributes, and the lookup of a record that a method may write;
--     Enqueue, Claim, Settle, Recovery, Dispatch, Ownership, Queries
--                          one function per method, named as the method is (Claim/Next has
--                          the inherited `claim_next` of backends/base.py);
--     Evolution, Shape, Changes, Lifecycle, Sweeps, Dispatch/Lifecycle, Recovery/Lifecycle,
--     Claim/Batch          how each method moves a record along its lifecycle;
--     Consistency, Admission
--                          the invariant of records and keys, and the methods that add and delete;
--     Calls, History, Fences
--                          sequences of calls as data, and what holds after any of them.
--   Events                 src/litestar_queues/events/query.py; the records, the adopter's columns and the
--                          configuration of events/history.py; and InMemoryQueueEventLog of
--                          src/litestar_queues/backends/memory/event_log.py; Chunking has the event of
--                          events/models.py and the splitting of events/chunking.py.
--   Ephemeral              EphemeralQueueBackend of src/litestar_queues/backends/ephemeral/backend.py:
--     Database             the tables of ephemeral/schema.py, the statements that write a row, and
--                          the transaction;
--     Enqueue, Claim, Batch, Settle, Dispatch, Recovery, Ownership, Queries
--                          one function per method (Batch has the claims of many tasks and the
--                          inherited `claim_many_with_expired` of backends/base.py);
--     Holds, Simulation, Calls
--                          when the file holds the state of the in-memory backend, and the calls
--                          on single tasks on both;
--     Codec                ephemeral/codec.py: the payload of a queue record.
--   Worker/Heartbeat       src/litestar_queues/worker/heartbeat.py: the sink of one task and the manager's own
--                          state and methods;
--     Service              the tick and the loss of a claim, which call the backend and the service;
--     Tracking, Calls      the invariant of the manager, and sequences of calls on it;
--     Misses, Counts, Loss the counters of missed ticks;
--     Owners               the ticks over the in-memory backend.
--   Tests                  concrete inputs on which the theorems are applied.
--
-- How the code is modelled. A method of the backend holds one lock from its first read to its last
-- write, so it is one function from the state and its arguments to the new state and its answer; a
-- concurrent run is a sequence of such calls in any order. Only `claim_next` is made of several
-- such calls, and is modelled with no other call between them. Every reading of the clock and every
-- `uuid4` is an argument, one per reading (a function from keys or positions where a loop reads the
-- clock in each round). A datetime is a number of microseconds since `datetime.min` in UTC; an aware
-- datetime is its instant. A UUID is its `int`, whose order is that of its text. A float is its bit
-- pattern, finite, and the arithmetic of the interpreter is the parameter `Floats`, where an
-- operation that raises gives `none`. Python's `==` on arbitrary values and `str.lower` are parameters.
-- Limits are natural numbers, but for `queue_limits`. A method returns a record as it is stored at the
-- end of the call, where Python returns the stored object itself. An exception is a value: a stale
-- recovery in memory that raises returns the error beside the records as they were left.
--
-- A method of the ephemeral backend runs its operation in one BEGIN IMMEDIATE transaction, so it too
-- is one function; an operation that raises leaves the file as it was. A row has its columns and, as
-- its payload, the record that the payload decodes to: writing a row encodes the record and decodes it
-- again, with the serializer that the state carries, so a value that JSON cannot have raises and one that
-- JSON changes comes back changed. The driver refuses an integer that does not fit in 64 bits. A SELECT without ORDER BY returns the rows in
-- the order of their insertion; only the order of the expired records in an answer, and of completed
-- records that finished at the same instant, depends on it. The record-level effects that have the same code
-- in both backends are the same definitions.
--
-- The heartbeat manager runs on one event loop, and other tasks of the worker may call its methods only
-- while a call of the backend or of the service is awaited. So each such call answers with the list of
-- those calls, any at all, beside its own answer; a call that raises answers `none` or `false`.
--
-- Loops are structural over a list, but for two of the ephemeral backend: the poll of `wait_for_wakeups`
-- is followed for a number of rounds, and a claim with queue limits for a number of nested calls, after
-- which the interpreter's stack is full and it raises.
--
-- In histories `complete_task` and `fail_task` carry the retry count of the attempt, as the workers
-- call them; without it these methods overwrite a record in any status.
--
-- `UUID(text)`, the JSON serializer, the texts of a UUID and of an instant, Python's `str` of what is no text, the
-- conversion of msgspec and the estimated size of an event are parameters.
--
-- Not modelled: the other backends (SQL, Redis, Valkey), which run statements and scripts on a server;
-- opening and checking the SQLite file, and its event history with its payloads;
-- the execution backends, the worker's polling, the background task of the heartbeats with its sleep,
-- and the service on asyncio; the counters and logs; the
-- conversion of events to records, and the validation of queries and retention rules. In
-- `wait_for_wakeups` the retained read and the result of its race with the event are arguments.
pub mod Base
pub mod Models
pub mod Backend
pub mod Memory
pub mod Events
pub mod Ephemeral
pub mod Worker
pub mod Tests
