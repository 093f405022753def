-- ===== src/Lib.antt =====
-- zoocooker: a coordination service in the manner of ZooKeeper. A client's request reaches the gRPC
-- service, which submits a command to a consensus; the consensus applies it to a tree of nodes (and,
-- where it persists, appends it to a write-ahead log), and the events of the write go to the watchers
-- of the paths it touched. Sessions that stop sending heartbeats lose their ephemeral nodes.
--
-- The files:
--   Base                    lists, dictionaries, tests, and the monad of state and errors
--   Protocol/Types          crates/protocol/src/types.rs, command.rs, error.rs
--   Protocol/Paths          crates/protocol/src/path.rs: normalize, parent_of, leaf_name
--   Protocol/Proto          the messages and enums of proto/coordination.proto
--   Storage/Order           the orders crates/storage/src/store.rs uses: BTreeSet<String>,
--                           sort_deepest_first, and the printed counter {next:010}
--   Storage/Node            crates/storage/src/tree.rs, stat.rs
--   Storage/Store           crates/storage/src/store.rs: TreeStore. create is create_path, with its
--                           part after the choice of the name in create_node; set_data is set_node,
--                           delete is delete_node
--   Storage/Store/Contents  what a TreeStore holds, whatever the order of its maps: a quotient, which
--                           the abstract store of the cluster's theorem is
--   Storage/Store/Sequence, Storage/Store/Versions
--                           the counters of sequential creates and the versions of a node, over
--                           lists of commands
--   Storage/Persistence     crates/storage/src/persistence.rs: Wal, save_snapshot, load_snapshot,
--                           replay_into
--   Consensus/Interface     the trait Consensus of crates/consensus/src/lib.rs, as a record over the
--                           state behind the lock
--   Consensus/Single        SingleNodeConsensus
--   Consensus/Persistent    PersistentSingleNodeConsensus: new is restart, save_snapshot is
--                           snapshot_and_compact
--   Consensus/Cluster       ReplicatedClusterConsensus; a node is its name and the shared state
--   Consensus/Kept          the laws of Interface that the server's invariant needs, for each of the
--                           three implementations
--   Server/Session          crates/server/src/session.rs
--   Server/Watch            crates/server/src/watch.rs
--   Server/Metrics          crates/server/src/metrics.rs, config.rs
--   Server/Service          crates/server/src/service.rs, over any Consensus: the handlers, and the
--                           cleanup of expired sessions
--   Server/Endpoint         the trait Coordination that service.rs implements: the handlers over the
--                           messages
--   Server/Start            crates/server/src/lib.rs: what each serve_ function starts with
--   Server/Args             crates/server/src/bin/zoocooker-server.rs: Args::parse, main
--   Server/Requests         a server over time, as a list of calls and ticks of the cleanup
--   Server/Tasks            the same calls and ticks as tasks that run at the same time: a task takes a
--                           lock once in each step, and other tasks run between its steps
--   Base/Assert and the modules named Conformance
--                           the unit tests of path.rs, store.rs, persistence.rs, consensus lib.rs,
--                           session.rs, watch.rs, metrics.rs and service.rs, written over the
--                           model
--   Client                  crates/client/src/lib.rs; Client/Loopback joins it to a server
--
-- State is passed explicitly: an operation takes the state and returns its result with the state
-- after it, also after an error. A result is ok, err, or panic (a failed expect or assert). Texts are
-- lists of code points, bytes are numbers. A HashMap is an association list, in its iteration order.
-- Numbers of 32 and 64 bits wrap; a version is the bit pattern of its i32.
--
-- Fuel: replay_loop has the length of the file and one more, and each round reads 8 bytes at least;
-- Storage/Order's decimal has the number and one more, and each round divides it by 10.
--
-- Parameters, for code that is not in this repository: serde_json (Codec), the printed errors and the
-- UUIDs' text (Texts), the parser of socket addresses, the generated client (CoordinationClient), the
-- clock, new UUIDs, closed channels, the files, and how far a write to a file gets.
--
-- Not modelled: the encoding of messages, tonic and tokio (listening, shutdown, tasks, the
-- back-pressure of channels), Client::connect, directories and fsync, read errors of an existing file,
-- a file that cannot be opened or created, and an allocation that fails for lack of memory, which
-- aborts the process (one above isize::MAX bytes panics, and is modelled). Where a consensus panics
-- within a cleanup the task is lost, and the model goes on with the next session; the law `returns` of
-- Consensus/Interface excludes it. The clock stands still while restored sessions are seeded. Numbers of
-- the command line are read as the documentation of std's u64::from_str says. A handler of
-- Server/Service is one step; Server/Tasks takes it apart where it releases a lock, and
-- Server/Requests/Races looks at two of these places. usize has 64 bits. Of the repository's tests, those
-- over TCP are not run.
pub mod Base
pub mod Protocol
pub mod Storage
pub mod Consensus
pub mod Server
pub mod Client
