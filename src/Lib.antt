-- ===== src/Lib.antt =====
-- A model of the core of Tethys, a desktop workbench for coding agents, and its proofs.
--
-- The program's parts, and the files that model them:
--
-- - Schema (crates/tethys-schema/src): the types that the parts exchange. Schema/Thread has the
--   normalized events and the entries of a thread (thread.rs), Schema/Connection the visible state of
--   a connection (connection.rs), Schema/Sync the registry entries and targets (sync.rs),
--   Schema/Projection the plans and their results (sync.rs).
-- - Thread (crates/tethys-thread/src): what events make of a thread. Thread/Entries is `apply_event`
--   of entries.rs with its helpers: `find` and `assign` are `find_mut` as a reading and as a writing,
--   `upsert` and `update` are the two forms of its matches. Thread/Machine is `ThreadMachine` of
--   state.rs. Their children hold the proofs: Entries/Slots describes the list by what each id
--   holds, Entries/Replay is about replayed events, Entries/Ids about distinct ids, Machine/Turns and
--   Machine/Cycle about turn records, Machine/Invariant about any history.
-- - Connections (crates/tethys-agent-servers/src): the store of agent processes. Each function of
--   Connections is one section of connection_store.rs under the `entries` lock: `register`, `reuse`,
--   `begin_spawn`, `mark_error`, `install`, `release` (the drop of a lease), `idle_keys` and `reap` (the
--   two sections of `reap_idle`), `restart`, `live_connection`, `close_watched` (the watcher),
--   `entry` and `refresh_all` (`entries`). Connections/World makes each section a step and counts the
--   lease objects that exist; Accounting and Invariant keep the counters right, Keys the keys of the
--   map; Safety draws the consequences; Idle is the loop of `reap_idle`; Recovery is `acquire` and
--   recovery.rs, with what the agent answers as arguments.
-- - Sessions (crates/tethys-core/src/thread_session.rs): the threads with their leases, reader tasks
--   and event logs. `deliver` is one turn of the reader loop and `end_reader` its end, `hold_lease`
--   the last section of `ensure_connection`, `put_reader` the write of `start_reader`, `attach_session`
--   both in a row, `stop_reader` what `delete` does to a thread, `begin_resume` the first section of
--   `resume`. Sessions/World interleaves them for one thread and its subscribers; Streams, Log, Readers
--   and Ids hold the proofs. A thread
--   uses Thread/Machine for its state, and holds a lease of Connections.
-- - Git (crates/tethys-git/src): Git/Hunks groups the raw hunks of a diff and makes their
--   plans; Git/Hunks/Lines splits texts into lines, shows hunks and prints the lines of a patch;
--   Git/Cache is the cache of computed hunks. Hunks/Aligned says what a diff promises, Sides, Counts,
--   Texts, Applying and Patching prove what the grouped hunks are worth.
--   Git/Checkpoints is checkpoint.rs: Names has the references, Restore what a restore does; Undo,
--   Reversal and Clean are about restores, Reading about what only reads, RoundTrip about names.
-- - Supervisor (crates/tethys-supervisor/src/lib.rs): the ring buffer of stderr, and the ladder of
--   `cancel_ladder`, on Unix.
-- - Sync (crates/tethys-sync/src): Sync/Registry is the layering of registry.rs, Sync/Session the
--   servers of a session with their secrets (session.rs, secrets.rs), Sync/Attachments the grid of
--   attachments.rs. Schema/Meta, of the schema's sync.rs, says for whom an entry is meant. Sessions
--   asks for these servers when it opens a session; here that answer is an argument of Sessions.
--   Sync/Error has the errors of error.rs. A registry is projected into the files of other tools:
--   Sync/Document is the editing of their documents (format/json_cst.rs, format/toml.rs),
--   Sync/Projectors the trait and the shared functions of projectors/mod.rs with one child for each
--   projector (claude_code.rs, codex.rs, opencode.rs), Sync/Files the files and backups of atomic.rs,
--   and Sync/Projection plan, apply, verify and rollback of projection.rs, which call them.
--   Projectors/Law says what the projections need of a projector, on the texts that are regular for it;
--   the children RoundTrip show it of two of them, where no key of the objects below the root stands
--   twice. Projection/Planned is about the loop of a plan, Spared about the entries of others,
--   Applying and Undone about apply and rollback, Replanned and Twice about a second plan.
--   Sync/Trust is trust.rs, Sync/Skills and its child Updates are skills.rs, with `change` for what
--   `trust` and `set_enabled` share; its children Rows, Loading, World, Trusted and Kept follow the
--   trust in a skill through any operations. Sync/Manifest is manifest.rs.
--   Sync/SkillImport is skill_import.rs: where a skill comes from, with Archives for the extraction of
--   zip and tar archives, as loops over what the readers of archives find, Caps for the caps, and Installing for
--   `install`, which names a skill and records it.
--   Sync/Import is import.rs: `scan` with its helpers, and `import_all`, the loop of `apply_import`.
-- - Composer (crates/tethys-core/src/composer/commands.rs): the scanner of `$` and `@` tokens and their
--   resolution.
-- - Prelude: Boolean tests and the class `Eq` (Tests), lists over native numbers (Lists), association
--   lists for `HashMap` and `BTreeMap` (Assoc), the functions of `str` (Text),
--   results (Result).
--
-- Numbers are native naturals. A `u32` that the code adds to keeps its wrap-around (`% 2 ^ 32`), and
-- `saturating_sub` is the subtraction of naturals. Time stamps, processes, connections and bytes are
-- numbers. Recursion is structural everywhere but for the decimal digits of a thread's number, which
-- take 20 turns (a `usize` has no more digits), of a checkpoint's (10 for a `u32`), and for the token
-- scanner, which takes a turn for each byte of its text and never needs more: the round trips of the
-- checkpoints' references and of the scanner hold at that fuel.
--
-- What stands for code that is not in this repository: the raw hunks of `imara-diff` are an argument,
-- with `Aligned` (ordered, and level between the hunks) and `Agree` (equal lines outside of them)
-- as the hypotheses on them; the answers of the agent and of the operating system are arguments; the
-- broadcast channel of a thread is a list of streams, each with the events that wait for it in order, of
-- which a stream that lags loses the oldest; the keychain, the skills
-- and the paths of a workspace are functions. The parser and the printer of a document are a `Format`, with
-- `IsFormat` as the hypothesis that a rendered document reads back; Document/Sample is one that does. A
-- digest is a function on texts or entries, the diff that is shown a function on two texts, and the file
-- system fails where a `Faults` says so. A git repository is a type with the answers of git, a `Git`, of
-- which `IsGit` says what git documents, and Checkpoints/Sample is one that does; a library of skills
-- is given how each operation finds the files, and serde's texts read back. The entries of an archive are
-- given as its reader finds them, and what comes of writing one is a function.
--
-- Not modelled: the order of the rows of `ConnectionStore::entries`; the stop of the children that
-- `reap_idle` takes; the header lines and the quoted paths of a rendered patch; the order by name of a
-- `BTreeMap`; the reading and writing of registry files; the arguments of a command;
-- symbolic links, file modes and the names of backup directories; the plan of a skill update, and what
-- an import of a skill does with directories;
-- the remaining crates (diffs, staging and worktrees of git, store, search, the ACP client, the API and
-- the desktop application).
pub mod Prelude
pub mod Schema
pub mod Thread
pub mod Connections
pub mod Sessions
pub mod Git
pub mod Supervisor
pub mod Sync
pub mod Composer
