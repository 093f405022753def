-- ===== src/Consensus/Persistent/Conformance.antt =====
-- The unit tests of crates/consensus/src/lib.rs on the persistent single node, on the model: their
-- files are held as bytes, and every write to them is whole.
use zoocooker.Base.{
  refl, Bool, true, false, ◌&&◌, Text, none, Option, [], ◌==◌, codes, nat_eq, text_eq, option_eq,
}
use zoocooker.Base.Dict
use zoocooker.Base.Assert.{unwrap, unwrap_err, assert, Passes}
use zoocooker.Base.Exec.{Exec, ok, err, panic, ◌>>=◌, ◌>>◌}
use zoocooker.Protocol.Types.{
  Bytes, Int32, Command, Applied, ApplyResult, node_data, ZkError, ZkResult, node_exists,
}
use zoocooker.Protocol.Paths.{normalize, parent_of, leaf_name}
use zoocooker.Storage.Order.{set_insert, text_compare}
use zoocooker.Storage.Store.{
  default_store, apply, create_path, choose_path, create_node, set_node, check_version, find_node,
  get_data,
}
use zoocooker.Storage.Persistence.{
  PersistenceError, done, append, read_exact, replay_loop, replay, compact_below, write_newer,
  save_snapshot, load_snapshot, replay_into, frame, to_le_bytes, from_le_bytes,
}
use zoocooker.Storage.Persistence.Conformance.{app, create_app, set_app, codec}
use zoocooker.Consensus.Persistent.{
  PersistentNode, submit, from_store_and_wal, restart, new_with_snapshot, snapshot_and_compact,
}

abbrev describe : PersistenceError → Text
describe e = []

-- the node that runs, and the snapshot file
record Process : Type 0 where
  node : PersistentNode
  snapshot : Option Bytes

abbrev TestM : Type 0 → Type 0
TestM A = Exec Process ZkError A

abbrev submits : Command → TestM Applied
submits command p =
    let (r, node) = submit codec describe done command p.node in (r, record p { node = node })

-- a start on the files
abbrev starts : (Process → ZkResult PersistentNode) → TestM PersistentNode
starts f p = elim (f p) [
  | ok node ↦ (ok node, record p { node = node })
  | err e ↦ (err e, p)
  | panic ↦ (panic, p)
]

-- `PersistentSingleNodeConsensus::new` on the log
abbrev new : TestM PersistentNode
new = starts (λ p. restart codec describe p.node.wal)

abbrev new_from_snapshot : TestM PersistentNode
new_from_snapshot = starts (λ p. new_with_snapshot codec describe p.node.wal p.snapshot)

abbrev saves_snapshot : TestM (Unit {0})
saves_snapshot p =
    let (r, file, node) = snapshot_and_compact codec describe done done p.node in
    (r, record { node = node; snapshot = file })

abbrev reads : Bytes → Int32 → TestM (Unit {0})
reads bytes version = do
  found ← unwrap (λ p. (get_data p.node.store app, p))
  assert (found.0 == bytes && found.1 == version)

abbrev is_node_exists : ZkError → Bool
is_node_exists (node_exists _) = true
is_node_exists _ = false

abbrev is_version : Int32 → ApplyResult → Bool
is_version version (node_data _ v) = v == version
is_version version _ = false

abbrev rejected_command_is_not_logged_and_restart_still_succeeds : TestM (Unit {0})
rejected_command_is_not_logged_and_restart_still_succeeds = do
  unwrap new
  unwrap (submits (create_app (codes "one")))
  error ← unwrap_err (submits (create_app (codes "two")))
  assert (is_node_exists error)
  unwrap new
  reads (codes "one") 0

abbrev persistent_consensus_replays_wal_on_restart : TestM (Unit {0})
persistent_consensus_replays_wal_on_restart = do
  unwrap new
  unwrap (submits (create_app (codes "one")))
  applied ← unwrap (submits (set_app (codes "two")))
  assert (is_version 1 applied.result)
  unwrap new
  reads (codes "two") 1

abbrev persistent_consensus_restores_snapshot_then_replays_wal : TestM (Unit {0})
persistent_consensus_restores_snapshot_then_replays_wal = do
  unwrap new_from_snapshot
  unwrap (submits (create_app (codes "one")))
  unwrap saves_snapshot
  unwrap (submits (set_app (codes "two")))
  unwrap new_from_snapshot
  reads (codes "two") 1

-- no files yet
abbrev empty_directory : Process
empty_directory = record { node = record { store = default_store; wal = none }; snapshot = none }

persistent_tests_pass :
    Passes rejected_command_is_not_logged_and_restart_still_succeeds empty_directory
    × Passes persistent_consensus_replays_wal_on_restart empty_directory
    × Passes persistent_consensus_restores_snapshot_then_replays_wal empty_directory
unfolding submit from_store_and_wal restart new_with_snapshot snapshot_and_compact append frame
    read_exact replay_loop replay compact_below write_newer save_snapshot load_snapshot replay_into
    to_le_bytes from_le_bytes apply create_path choose_path create_node set_node check_version
    find_node get_data normalize parent_of leaf_name set_insert text_compare Dict.get Dict.insert
    Dict.contains_key nat_eq text_eq option_eq
persistent_tests_pass = (refl, refl, refl)
