-- ===== src/Lib.antt =====
-- Verification of nzbd, a Usenet and BitTorrent download daemon: the pure core of its engine.
--
-- A news article is fetched as one segment of a file of a job. The queue holds the jobs and chooses the
-- next segment for each server connection that asks; the failover ladder says which servers may serve a
-- segment now and what an attempt's outcome makes of it; the yEnc decoder turns the article's bytes into
-- the part of the file and judges them; the accounting of the queue turns the segments' states into the
-- job's health and final verdict, and par2 recovery files are unpaused when a repair needs them. The
-- nodes of a cluster share the work by leases in a replicated store, and a client follows the engine's
-- events on a numbered stream that it can resume.
--
-- The parts, and the files of this library that model them:
--   * Types (crates/nzbd-types/src/lib.rs): jobs, files, segments, servers, torrent records, and the
--     per-mille health figures `Health::calc` and `Health::calc_critical`.
--   * State (crates/nzbd-state/src/lib.rs): the queue's snapshot document and its pending admissions.
--   * Engine/Failover (crates/nzbd-engine/src/failover.rs): `Ladder`, `SegmentAttempt`,
--     `current_candidates` and `on_outcome`. The `BTreeSet` of failed servers is a list without
--     repetitions; the callback `is_blocked` is a function that the theorems quantify over.
--   * Engine/Backend (crates/nzbd-engine/src/backend.rs): `torrent_wants_download_slot`.
--   * Engine/Queue (crates/nzbd-engine/src/queue.rs): `QueueState`, the active set and the jobs to
--     requeue; Engine/Queue/Scan, the scan `next_for_server`, with its own copy of the filters and with the
--     attempts map passed on as a value;
--     Engine/Queue/Totals, `recompute_job_totals`, `remaining_bytes` and `final_status`;
--     Engine/Queue/Recovery, `vol_par_blocks`, `price_paused_pars`, `smallest_paused_par` and
--     `pick_par_files`; Engine/Queue/Admission, the reservation, commitment and cancellation of a torrent,
--     with `sanitize_name` and `unique_dir_name`.
--   * Engine/Owner (crates/nzbd-engine/src/owner.rs): the actor that owns the queue. Its state is the
--     record `Owner`, a message other than a queue command is an `EngineMsg`, and each handler is a function of the state: Writers,
--     `ensure_allocation`, `writer_for` and `send_finalize`; Completion, `after_file_change` and
--     `check_job_complete`; Outcomes, what becomes of a segment and the health abort; Leases,
--     `grant_work`; Messages, `on_writer_finalized`, the names learned, a full disk and `on_msg`; Guard,
--     the disk guard; Upkeep, the labels, the startup pass, the tick's retries, and `run`, a sequence of
--     turns; Refetch, `plan_url_refetches`; Moves, `move_job`. What a handler does outside its state
--     is appended to the list `log` of effects, and the world's answers (a channel that is full or
--     closed, the snapshot store, the artifact inventory) may depend on all the effects so far. Stable
--     and its children carry a property of the queue and the effects through every handler, once it
--     withstands the few changes that the handlers make.
--     Engine/Queue/Lookup has the look-ups and the changes through references.
--   * Engine/Pool (crates/nzbd-engine/src/pool.rs): `AdaptiveDepth`, the controller of a connection's
--     pipeline depth, and `BudgetTracker`, which counts the connections that took up a budget.
--   * Cluster/Range (crates/nzbd-cluster/src/range.rs): `scopes`, which cuts a large file's articles into
--     ranges for the nodes of a cluster, and `work_view`, the job that a range becomes on its node;
--     Cluster/Range/Assembly, `assemble`, which puts the file together from the ranges' results. The
--     output is the list of its parts, the latest write first, and what is read back is computed of it.
--   * Cluster/Election (crates/nzbd-cluster/src/election.rs): `election_task`, the election over the lease
--     file. A node stands in a `Phase`, and `act` is one atomic step of it, with one read or one write;
--     `run` is a history of the cluster, in which the nodes' steps come in any order and the file may be
--     lost. `persist_guard` is the question that an engine asks before it renames a snapshot.
--   * Cluster/Control (crates/nzbd-cluster/src/control.rs): the replicated control store, whose tables are
--     the record `Database`. Each SQL statement, with the triggers that it fires, is one atomic function;
--     Leases, `acquire`, `renew` and `release`; Receipts, `seed_job` and `apply_command`; Publications,
--     `publish_result`; Scripts, `begin_script` and `finish_script`. A lookup that goes with a statement is
--     answered by a store of its own, since others act in between. Steps has the operations as data and
--     `run`, any order of them, and says what is never taken back; Runs and its children carry that through
--     every operation.
--   * Nntp (crates/nzbd-nntp/src/lib.rs): Responses, `Response`; Commands, `Command::encode`; Multiline,
--     `MultilineReader`, byte by byte.
--   * Api/EventHub (crates/nzbd-api/src/eventhub.rs): the hub that numbers the engine's events, its ring and
--     `replay`; Api/EventStream (crates/nzbd-api/src/lib.rs), what `sse_events` makes of a replay and of the
--     live frames after it.
--   * Yenc (crates/nzbd-yenc/src/lib.rs): `YencDecoder`, its state machine over bytes (`take_line`,
--     `body_byte`, `push`, `take_result`); Yenc/Lines, the header and trailer lines; Yenc/StdText, what
--     they use of the standard library's text functions; Yenc/Combine, `crc32_combine`.
--   * Prelude: numbers, lists, tests, signed numbers, maps and a stable sort, shared by all.
--
-- Numbers are natural numbers; a cast or a sum that wraps in the source is written with `%`, a signed
-- time or priority is an integer, and a saturating subtraction of unsigned numbers stops at 0. Text is
-- its bytes. A hash map is an association list, and a hash set is a list. An error is a value.
--
-- Parameters: the checksum of crc32fast (the record `Yenc.Hasher`) is a state with two laws, that the
-- input is one stream however it is cut; the clock is an argument, and so is the pool's view of the
-- blocked servers. The owner's `World` has the answers of what it calls, among them the artifact
-- inventory, the snapshot store and `is_uninformative_name` of queue.rs, which are not modelled. The
-- control store's statements are read as SQL, each of which hiqlite applies as a whole and in one order
-- for all nodes; what the clock of a node reads at an operation is an argument. The files of an assembly
-- are the record `Disk`: what a range's files hold, the checksum, and whether the output obeys.
--
-- Fuel: the loop of `current_candidates` has one unit for each tier from the attempt's to the last, which
-- is enough: the loop, written as a relation of its rounds, ends within them. `chunks` has one unit for
-- each element, and a chunk has at least one; `crc32_combine` has 64 rounds for a length of 64 bits, which
-- halves in each; a printed number has 20, and no number of 64 bits has more digits.
-- All other loops are recursions on lists.
--
-- Not modelled: sockets, files, tasks and channels (the connection tasks, the writer; of the owner, the
-- queue commands but `move_job`, the torrent backend, rates and the published read model), the HTTP
-- handlers but the events of `sse_events`, the configuration, the cluster's leader and workers, the chains
-- of statements, the migration and the budgets of the control store, post-processing with external tools,
-- history in SQL, floating-point rates, and the vendored libraries.
pub mod Prelude
pub mod Types
pub mod State
pub mod Engine
pub mod Yenc
pub mod Api
pub mod Cluster
pub mod Nntp
