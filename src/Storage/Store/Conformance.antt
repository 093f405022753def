-- ===== src/Storage/Store/Conformance.antt =====
-- The unit tests of crates/storage/src/store.rs, on the model.
use zoocooker.Base.{
  refl, Bool, true, false, ◌&&◌, Text, none, some, List, [], ◌∷◌, ◌==◌, codes, nat_eq, text_eq,
  option_eq,
}
use zoocooker.Base.Dict
use zoocooker.Base.Assert.{unwrap, unwrap_err, assert, Passes}
use zoocooker.Base.Exec.{gets, ◌>>=◌, ◌>>◌}
use zoocooker.Protocol.Types.{
  Bytes, SessionId, Int32, WatchEvent, WatchEventKind, node_created, node_deleted,
  node_data_changed, node_children_changed, ApplyResult, created, node_data, deleted, Applied,
  create, set_data, delete, ZkError, ZkResult, no_parent, node_exists, not_empty, bad_version,
  ephemeral_parent, invalid_session,
}
use zoocooker.Protocol.Paths.{normalize, parent_of, leaf_name}
use zoocooker.Storage.Order.{
  set_insert, set_remove, sort_deepest_first, padded, text_compare, deepest_first, depth,
}
use zoocooker.Storage.Store.{
  StoreM, TreeStore, default_store, apply, create_path, choose_path, create_node, set_node,
  delete_node, check_version, find_node, get_data, exists, child_names, ephemeral_owner,
  ephemeral_paths_for_session, owned_paths,
}

abbrev Test : Type 0
Test = StoreM (Unit {0})

-- a read, unwrapped
abbrev read : {A : Type 0} → (TreeStore → ZkResult A) → StoreM A
read f = unwrap (λ s. (f s, s))

abbrev root_path : Text
root_path = codes "/"

abbrev app : Text
app = codes "/app"

abbrev e_path : Text
e_path = codes "/e"

-- the `matches!` of the tests
abbrev is_created : Text → ApplyResult → Bool
is_created path (created p) = p == path
is_created path _ = false

abbrev is_data : Bytes → Int32 → ApplyResult → Bool
is_data bytes version (node_data b v) = b == bytes && v == version
is_data bytes version _ = false

abbrev is_version : Int32 → ApplyResult → Bool
is_version version (node_data _ v) = v == version
is_version version _ = false

abbrev is_deleted_result : ApplyResult → Bool
is_deleted_result deleted = true
is_deleted_result _ = false

abbrev is_no_parent : Text → ZkError → Bool
is_no_parent path (no_parent p) = p == path
is_no_parent path _ = false

abbrev is_node_exists : Text → ZkError → Bool
is_node_exists path (node_exists p) = p == path
is_node_exists path _ = false

abbrev is_not_empty : Text → ZkError → Bool
is_not_empty path (not_empty p) = p == path
is_not_empty path _ = false

abbrev is_ephemeral_parent : ZkError → Bool
is_ephemeral_parent ephemeral_parent = true
is_ephemeral_parent _ = false

abbrev is_invalid_session : ZkError → Bool
is_invalid_session invalid_session = true
is_invalid_session _ = false

abbrev is_bad_version : Int32 → Int32 → ZkError → Bool
is_bad_version expected actual (bad_version e a) = e == expected && a == actual
is_bad_version expected actual _ = false

abbrev kind_index : WatchEventKind → Text
kind_index node_created = 0 ∷ []
kind_index node_deleted = 1 ∷ []
kind_index node_data_changed = 2 ∷ []
kind_index node_children_changed = 3 ∷ []

abbrev has_kinds : List WatchEventKind → List WatchEvent → Bool
has_kinds [] [] = true
has_kinds (k ∷ ks) (e ∷ es) = kind_index e.kind == kind_index k && has_kinds ks es
has_kinds _ _ = false

abbrev first_kind : WatchEventKind → List WatchEvent → Bool
first_kind k [] = false
first_kind k (e ∷ es) = kind_index e.kind == kind_index k

abbrev are_texts : List Text → List Text → Bool
are_texts [] [] = true
are_texts (p ∷ ps) (q ∷ qs) = p == q && are_texts ps qs
are_texts _ _ = false

abbrev holds : Bytes → Int32 → Bytes × Int32 → Bool
holds bytes version (b, v) = b == bytes && v == version

-- a lasting node without data
abbrev add : Text → StoreM Applied
add path = create_path path [] false false none

abbrev store_starts_with_root : Test
store_starts_with_root = do version ← read (λ s. exists s root_path); assert (version == some 0)

abbrev create_get_exists_and_child_metadata : Test
create_get_exists_and_child_metadata = do
  applied ← unwrap (create_path app (codes "hello") false false none)
  assert (is_created app applied.result)
  got ← read (λ s. get_data s app)
  assert (holds (codes "hello") 0 got)
  version ← read (λ s. exists s app)
  assert (version == some 0)
  children ← read (λ s. child_names s root_path)
  assert (are_texts children (codes "app" ∷ []))
  root ← read (λ s. find_node s root_path)
  assert (root.stat.cversion == 1)
  assert (has_kinds (node_created ∷ node_children_changed ∷ []) applied.watch_events)

abbrev create_rejects_missing_duplicate_and_ephemeral_parent : SessionId → Test
create_rejects_missing_duplicate_and_ephemeral_parent id = do
  missing ← unwrap_err (add (codes "/missing/child"))
  assert (is_no_parent (codes "/missing") missing)
  unwrap (create_path e_path [] true false (some id))
  below ← unwrap_err (add (codes "/e/child"))
  assert (is_ephemeral_parent below)
  again ← unwrap_err (add e_path)
  assert (is_node_exists e_path again)

abbrev ephemeral_create_requires_session : Test
ephemeral_create_requires_session = do
  error ← unwrap_err (create_path e_path [] true false none)
  assert (is_invalid_session error)

abbrev records_ephemeral_owner_and_lists_deepest_first : SessionId → Test
records_ephemeral_owner_and_lists_deepest_first id = do
  unwrap (add (codes "/a"))
  unwrap (add (codes "/b"))
  unwrap (create_path (codes "/a/e") [] true false (some id))
  unwrap (create_path (codes "/b/e") [] true false (some id))
  owner ← read (λ s. ephemeral_owner s (codes "/a/e"))
  assert (owner == some id)
  paths ← gets (λ s. ephemeral_paths_for_session s id)
  assert (are_texts paths (codes "/b/e" ∷ codes "/a/e" ∷ []))

abbrev set_checks_version_and_emits_data_event : Test
set_checks_version_and_emits_data_event = do
  unwrap (create_path app (codes "one") false false none)
  applied ← unwrap (set_node app (codes "two") (some 0))
  assert (is_data (codes "two") 1 applied.result)
  got ← read (λ s. get_data s app)
  assert (holds (codes "two") 1 got)
  assert (first_kind node_data_changed applied.watch_events)
  error ← unwrap_err (set_node app [] (some 0))
  assert (is_bad_version 0 1 error)

abbrev delete_rejects_non_empty_and_checks_version : Test
delete_rejects_non_empty_and_checks_version = do
  unwrap (add app)
  unwrap (add (codes "/app/child"))
  full ← unwrap_err (delete_node app none)
  assert (is_not_empty app full)
  stale ← unwrap_err (delete_node (codes "/app/child") (some 1))
  assert (is_bad_version 1 0 stale)
  applied ← unwrap (delete_node (codes "/app/child") (some 0))
  assert (is_deleted_result applied.result)
  version ← read (λ s. exists s (codes "/app/child"))
  assert (version == none)
  node ← read (λ s. find_node s app)
  assert (node.stat.cversion == 2)
  assert (has_kinds (node_deleted ∷ node_children_changed ∷ []) applied.watch_events)

abbrev apply_dispatches_write_commands : Test
apply_dispatches_write_commands = do
  unwrap (apply (create app (codes "one") false false none))
  updated ← unwrap (apply (set_data app (codes "two") (some 0)))
  assert (is_version 1 updated.result)
  unwrap (apply (delete app (some 1)))
  version ← read (λ s. exists s app)
  assert (version == none)

abbrev sequential_create_appends_monotonic_suffix : Test
sequential_create_appends_monotonic_suffix = do
  first ← unwrap (create_path (codes "/worker-") [] false true none)
  second ← unwrap (create_path (codes "/worker-") [] false true none)
  assert (is_created (codes "/worker-0000000000") first.result)
  assert (is_created (codes "/worker-0000000001") second.result)

store_tests_pass :
    Passes store_starts_with_root default_store
    × Passes create_get_exists_and_child_metadata default_store
    × Passes (create_rejects_missing_duplicate_and_ephemeral_parent 7) default_store
    × Passes ephemeral_create_requires_session default_store
    × Passes (records_ephemeral_owner_and_lists_deepest_first 7) default_store
    × Passes set_checks_version_and_emits_data_event default_store
    × Passes delete_rejects_non_empty_and_checks_version default_store
    × Passes apply_dispatches_write_commands default_store
    × Passes sequential_create_appends_monotonic_suffix default_store
unfolding apply create_path choose_path create_node set_node delete_node check_version find_node
    get_data exists child_names ephemeral_owner ephemeral_paths_for_session owned_paths normalize
    parent_of leaf_name set_insert set_remove text_compare sort_deepest_first deepest_first depth
    padded Dict.get Dict.insert Dict.remove Dict.contains_key nat_eq text_eq option_eq
store_tests_pass = (refl, refl, refl, refl, refl, refl, refl, refl, refl)
