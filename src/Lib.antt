-- ===== src/Lib.antt =====
-- A verification library for North: self-hosted requirement management, in which a server owns the
-- state of requirements, and a daemon on another host runs agent sessions for it and reports facts.
--
-- The parts and how they interact. The domain crate (crates/north-domain) holds the requirement
-- aggregate: a lifecycle, content with revisions, and readiness that an assessment of the present
-- revision must back. The protocol crate (crates/north-protocol) holds the frames that server and
-- daemon exchange, and their validation. The server (crates/north-server) guards its public
-- endpoints with a rate limiter, keyed by a client's address behind trusted proxies. The daemon
-- (crates/north-daemon) keeps a journal of the events that it reports until the server acknowledges
-- them, and admits commands to a scheduler, which runs at most four agent runtimes at a time and
-- one for each session.
--
-- What models what:
--   Common: Boolean tests, results, lists, texts; Common/Map: hash maps as association lists;
--     Common/Float: `f64`; Common/Sorted: sorting and removing duplicates.
--   Domain/Status, Domain/Role: crates/north-domain/src/status.rs and role.rs.
--   Domain/Requirement: crates/north-domain/src/requirement.rs. A method on `&mut self` is a
--     function that returns the requirement and the result; its children hold the sequences of
--     calls (Trace), the lifecycle, the evidence for readiness and the edits.
--   Domain/Assessment, Domain/Packet: crates/north-domain/src/readiness.rs.
--   Domain/Repository: crates/north-domain/src/repository.rs, on texts as sequences of characters;
--     Common/Slices has the methods on `str`.
--   Protocol: crates/north-protocol/src/lib.rs; one function `.._validate` for each `validate`.
--   Server/Limiter: `ClientRateLimiter` of crates/north-server/src/public_abuse.rs; Bucket has the
--     abstract view of a bucket, Rate what a call takes and when it is allowed, Entries the cap on
--     buckets over sequences of calls.
--   Common/Net: the addresses of Rust's standard library, and the parser of their texts.
--   Server/Cidr: `IpCidr` of the same file; Server/Identity: `resolve_client_identity` of the same
--     file, with the key before it is printed, and an error where the source would panic.
--   Server/Context: crates/north-server/src/context.rs.
--   Daemon/Journal: `Journal` in crates/north-daemon/src/journal.rs, its events, and the intake
--     of commands with the start of their dispatch (Commands). Identity has the checks and the next
--     sequence number, Events the appends, Acks the acknowledgements, reconciliation and replay,
--     Compact the compaction. Numbers, Changes and Reach are about the sequence numbers and the
--     sparse acknowledgements; Laws is about `update`. A closure of the source is a function of
--     the state whose result is an error, or a new state with a value, or `none` where a loop of it
--     does not end; what it leaves of the state where it fails is arbitrary, as is the answer of the
--     file system.
--     Finish has the end of a command, Store the journal as an object with its file on the disk,
--     Accept and Recovery its public methods on commands; Durable is about what is on the disk when
--     the journal answers, Once about how often a command may still start.
--   Daemon/Coordination: `DaemonCoordinator` in crates/north-daemon/src/coordination.rs. A call that
--     fails leaves the store as it was then. Run has sequences of calls with restarts, Accepting,
--     Calls, Recovering and Releases show that no command is handed out twice, and Keeping and
--     Invariants what holds of the journal in every run.
--   Daemon/Inspection: what crates/north-daemon/src/repository_inspection.rs checks before any Git
--     command: the authorization of a run (`RunAuthorization`) and the selection of a repository.
--   Daemon/Control: `RuntimeControl` of crates/north-daemon/src/journal.rs, as cells of a store
--     that the references of a scheduler share.
--   Daemon/Scheduler: crates/north-daemon/src/scheduler.rs. Methods has the admission of commands,
--     Completion the end of a worker and the draining of the queue; Permits, Steps and Reach follow
--     the permits through every method, Conserving the queue. Daemon/Exec is the monad of methods
--     that change a shared object and may fail.
--   Tests: concrete runs.
--
-- Bounds and fuel. A `u64` version is a number that `checked_inc` refuses to count past 2 ^ 64 - 1.
-- The draining of the scheduler's queue counts the length of the queue, as the source does. The
-- loops that advance a session's cursors have one round for each number up to 2 ^ 64 - 1 and one to
-- stop; where they are not done by then, they never are.
-- An `Instant` is a number of nanoseconds. An `f64` is a multiple of 2 ^ -1074 and every operation
-- rounds it; the fuel that counts surplus bits is that of the longest `f64`, and far above what a
-- quotient of two durations needs.
--
-- Not modelled: SQL persistence, HTTP handlers, sockets, the agent process, Git and the file
-- system, which are input and output; a poisoned mutex, since no code panics while it holds a lock;
-- an `f64` that is negative, infinite or no number, which the limiter does not meet. The JSON library,
-- the digest of an event and the clock are parameters. The executor of the scheduler answers as it
-- likes.
mod Common
pub mod Domain
pub mod Protocol
pub mod Server
pub mod Daemon
mod Tests
