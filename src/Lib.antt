-- ===== src/Lib.antt =====
-- Triggerlane: events come in, are stored, and are handled by triggers, which submit jobs to a
-- Worklane broker. What cannot be submitted goes to a dead-trigger queue.
--
-- The parts, and the files that model them:
--   * Event and Trigger (crates/triggerlane-core/src/event.rs, trigger.rs): the envelope, follow-up
--     events, the triggers and their combinators, and the job binding. A trait with one method is a
--     record with that method.
--   * Registry (crates/triggerlane-runtime/src/lib.rs, `TriggerRegistry`): a list in the order of the
--     stable sort by descending priority.
--   * Config (crates/triggerlane-cli/src/config.rs): the declarative trigger file.
--   * Retention (crates/triggerlane-storage/src/lib.rs): manual and automatic retention.
--   * Jsonl (the same file, `JsonlStore`, `compact_jsonl`, `read_jsonl`): the durable log. Disk has a
--     file as the bytes that a reader sees, the bytes that are certain to survive, and whether the
--     append handle is on that file. Every system call takes its outcome from a list, so that every
--     call can fail, a write after any number of bytes. Text is what reading uses of UTF-8 and lines.
--   * EventStore and DeadTriggerQueue (the same file): the traits as records of operations, the
--     implementations in memory and on JSONL files, and in Laws what the runtime
--     relies on. Crash and Marks have what is on the disk of the durable store.
--   * Runtime (crates/triggerlane-runtime/src/lib.rs, `TriggerRuntime`): submission with retries and
--     backoff, handling, replay, retry of dead triggers, and the metrics. The state is that of the
--     broker, the queue, the lanes seen, and what was slept and sent to the sinks.
--   * Ingest (the same file, `EventIngest`): an event store in front of the runtime.
--   * Http (crates/triggerlane-http/src/lib.rs): the routes and their answers. Auth and Webhook decide
--     who is let in, Post has `POST /events` and its two handlers over `EventIngest`, Read the router
--     for reading and replaying.
--   * Cli (crates/triggerlane-cli/src/main.rs): Number, Duration and Settings read what the
--     environment sets, Broker and Commands are the subcommands, Serve has the start of the service,
--     the dispatcher and the maintenance, App the router that is served. Serve/Async has posts and
--     dispatches as steps.
--   * Invoker (examples/invoker/src/lib.rs): a worker with heartbeats and a deadline, on the sequence
--     of the branches that its `select!` takes.
--   * Common: the shared helpers. Tests: runs at small inputs.
--
-- An operation that changes state and may fail is a function from the state to a result and a state,
-- so that what was changed before an error stays changed. `RuntimeError` and a panic out of an `expect`
-- are the two ways in which a call of the runtime ends early. The loops are structural recursion over
-- the lists that the code walks, and over the number of attempts that are left: there is no fuel.
--
-- Parameters, with the behaviour that is relied on as laws: `serde_json` (Jsonl.Serde, and `Json` of
-- Trigger), `worklane-core` (`Worklane` of Runtime, and `Broker` of Invoker), the header map of `http`,
-- the hashing of a signature, `chrono`'s durations, and the texts of UUIDs and errors. Times and durations count
-- nanoseconds; a time is an integer, with no bound. A setting is the list of its code points.
--
-- Not modelled: the routing, the extractors and the limit on a body's size, which are axum's; the
-- connecting to a broker, logging, signals and the parsing of arguments; the poisoning of mutexes; and
-- calls that run at the same time, since each operation is one step. The dispatch channel has no
-- bound, since a send waits until there is room. The demo in examples/src only prints.
pub mod Common
pub mod Event
pub mod Trigger
pub mod Http
pub mod Cli
pub mod Invoker
pub mod Registry
pub mod Config
pub mod DeadTrigger
pub mod Retention
pub mod Jsonl
pub mod EventStore
pub mod DeadTriggerQueue
pub mod Runtime
pub mod Ingest
pub mod Tests
