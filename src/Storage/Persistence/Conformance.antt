-- ===== src/Storage/Persistence/Conformance.antt =====
-- The unit tests of crates/storage/src/persistence.rs, on the model: a file is its bytes, and every
-- write to it is whole.
use zoocooker.Base.{
  zero, suc, ℕ, refl, Bool, true, false, ◌&&◌, Text, none, some, Option, List, [], ◌∷◌, ◌++◌, ◌==◌,
  length, codes, take, map, nat_eq, text_eq, option_eq,
}
use zoocooker.Base.Dict
use zoocooker.Base.Assert.{unwrap, assert, Passes}
use zoocooker.Base.Exec.{Exec, Result, ok, err, panic, gets, modify, expect, lift, ◌>>=◌, ◌>>◌}
use zoocooker.Protocol.Types.{Bytes, Int32, Zxid, Command, create, set_data, delete, ZkError}
use zoocooker.Protocol.Paths.{normalize, parent_of, leaf_name}
use zoocooker.Storage.Order.{set_insert, text_compare}
use zoocooker.Storage.Store.{
  TreeStore, default_store, apply, create_path, choose_path, create_node, set_node, check_version,
  find_node, get_data, child_names,
}
use zoocooker.Storage.Persistence.{
  WalRecord, Codec, PersistenceError, done, append, read_exact, replay_loop, replay, compact_below,
  write_newer, save_snapshot, load_snapshot, replay_into, contents, frame, to_le_bytes,
  from_le_bytes,
}

abbrev pub app : Text
app = codes "/app"

abbrev pub create_app : Bytes → Command
create_app bytes = create app bytes false false none

abbrev pub set_app : Bytes → Command
set_app bytes = set_data app bytes (some 0)

-- A codec for the commands and the store of these tests: creates of "/app", sets of it at version 0,
-- and the store with that one node.
abbrev written : WalRecord → Bytes
written r = elim r.command [
  | create path bytes _ _ _ ↦ 0 ∷ r.zxid ∷ bytes
  | set_data path bytes _ ↦ 1 ∷ r.zxid ∷ bytes
  | delete path _ ↦ []
]

abbrev command_of : ℕ → Bytes → Command
command_of zero bytes = create_app bytes
command_of (suc _) bytes = set_app bytes

abbrev read : Bytes → Option WalRecord
read (tag ∷ z ∷ bytes) = some (record { zxid = z; command = command_of tag bytes })
read _ = none

abbrev content_of : Result ZkError (Bytes × Int32) → Bytes
content_of (ok found) = found.0
content_of _ = []

abbrev snapshot_of : Bytes → Option (ℕ × TreeStore)
snapshot_of (v ∷ n ∷ bytes) = some (v, (apply (create_app (take n bytes)) default_store).1)
snapshot_of _ = none

abbrev snapshot_bytes : ℕ → Bytes → Bytes
snapshot_bytes v bytes = v ∷ length bytes ∷ bytes

abbrev pub codec : Codec
codec = record {
  to_vec = written;
  from_slice = read;
  snapshot_to_vec = λ v s. snapshot_bytes v (content_of (get_data s app));
  snapshot_from_slice = snapshot_of;
}

-- the log, the snapshot file, and the store of a test
record Files : Type 0 where
  wal : Option Bytes
  snapshot : Option Bytes
  store : TreeStore

abbrev TestM : Type 0 → Type 0
TestM A = Exec Files PersistenceError A

abbrev Test : Type 0
Test = TestM (Unit {0})

abbrev appends : Zxid → Command → Test
appends zxid command s =
    let (r, wal) = append codec done s.wal zxid command in (r, record s { wal = wal })

abbrev Records : Type 0
Records = List (Zxid × Command)

abbrev replays : TestM Records
replays s = (replay codec s.wal, s)

abbrev passed_on {ℓ} : {A : Type ℓ} → Result ZkError A → Result PersistenceError A
passed_on (ok a) = ok a
passed_on (err e) = panic
passed_on panic = panic

-- a call on the store, unwrapped
abbrev stores : {A : Type 0} → Exec TreeStore ZkError A → TestM A
stores m s = let (r, store) = m s.store in (passed_on r, record s { store = store })

abbrev reads : Bytes → Int32 → Test
reads bytes version = do
  found ← stores (λ store. (get_data store app, store))
  assert (found.0 == bytes && found.1 == version)

abbrev wal_appends_and_replays_commands_in_order : Test
wal_appends_and_replays_commands_in_order = do
  unwrap (appends 1 (create_app (codes "one")))
  unwrap (appends 2 (set_app (codes "two")))
  records ← unwrap replays
  assert (length records == 2)
  stores (λ store. replay_into default_store records)
  reads (codes "two") 1

abbrev replay_into_skips_records_already_reflected_in_store : Test
replay_into_skips_records_already_reflected_in_store = do
  stores (create_path app (codes "one") false false none)
  zxid ← gets (λ s. s.store.zxid)
  assert (zxid == 1)
  stores (λ store.
      replay_into store ((1, create_app (codes "stale")) ∷ (2, set_app (codes "fresh")) ∷ []))
  reads (codes "fresh") 1

abbrev replay_ignores_trailing_partial_record : Test
replay_ignores_trailing_partial_record = do
  unwrap (appends 1 (create_app []))
  modify (λ s. record s { wal = some (contents s.wal ++ to_le_bytes 8 32 ++ codes "partial") })
  records ← unwrap replays
  assert (length records == 1)

abbrev zxids : Records → List ℕ
zxids = map (λ r. r.0)

abbrev compact_below_drops_snapshotted_records_and_keeps_newer_ones : Test
compact_below_drops_snapshotted_records_and_keeps_newer_ones = do
  unwrap (appends 1 (create_app []))
  unwrap (appends 2 (set_app (codes "two")))
  unwrap compacts
  records ← unwrap replays
  assert (zxids records == 2 ∷ [])
  where
    compacts : Test
    compacts s = let (r, wal) = compact_below codec done s.wal 1 in (r, record s { wal = wal })

abbrev are_texts : List Text → List Text → Bool
are_texts [] [] = true
are_texts (p ∷ ps) (q ∷ qs) = p == q && are_texts ps qs
are_texts _ _ = false

abbrev snapshot_round_trips_tree_store : Test
snapshot_round_trips_tree_store = do
  stores (create_path app (codes "one") false false none)
  unwrap saves
  loaded ← unwrap (λ s. (load_snapshot codec s.snapshot, s))
  restored ← lift (expect loaded)
  modify (λ s. record s { store = restored })
  reads (codes "one") 0
  names ← stores (λ store. (child_names store (codes "/"), store))
  assert (are_texts names (codes "app" ∷ []))
  where
    saves : Test
    saves s = let (r, file) = save_snapshot codec done s.store in (r, record s { snapshot = file })

abbrev nothing : Files
nothing = record { wal = none; snapshot = none; store = default_store }

persistence_tests_pass :
    Passes wal_appends_and_replays_commands_in_order nothing
    × Passes replay_into_skips_records_already_reflected_in_store nothing
    × Passes replay_ignores_trailing_partial_record nothing
    × Passes compact_below_drops_snapshotted_records_and_keeps_newer_ones nothing
    × Passes snapshot_round_trips_tree_store nothing
unfolding append frame read_exact replay_loop replay compact_below write_newer save_snapshot
    load_snapshot replay_into to_le_bytes from_le_bytes apply create_path choose_path create_node
    set_node check_version find_node get_data child_names normalize parent_of leaf_name set_insert
    text_compare Dict.get Dict.insert Dict.contains_key nat_eq text_eq option_eq
persistence_tests_pass = (refl, refl, refl, refl, refl)
