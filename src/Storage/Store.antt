-- ===== src/Storage/Store.antt =====
-- crates/storage/src/store.rs
pub mod Tests
pub mod Outcomes
pub mod Shape
pub mod Writes
pub mod Apply
pub mod View
pub mod Same
pub mod Contents
mod Conformance
pub mod Sequence
pub mod Versions
pub mod ReadBack
use zoocooker.Base.{
  ℕ, ◌≡◌, ◌≢◌, Bool, true, false, not, ◌&&◌, Text, Option, none, some, List, [], ◌∷◌, ◌++◌, ◌==◌,
  contains, nat_eq, text_eq, option_eq, if◌then◌else◌,
}
use zoocooker.Base.Dict.{Dict, values}
use zoocooker.Base.Dict
use zoocooker.Base.Exec.{
  Exec, Result, ok, err, panic, pure, lift, gets, modify, reject_if, ok_or, expect, ◌>>=◌, ◌>>◌,
}
use zoocooker.Protocol.Types.{
  Bytes, SessionId, Zxid, Int32, incr32, incr64, WatchEvent, WatchEventKind, node_created,
  node_deleted, node_data_changed, node_children_changed, Command, create, set_data, delete,
  ApplyResult, created, node_data, deleted, Applied, ZkError, ZkResult, node_exists, no_node,
  no_parent, not_empty, bad_version, ephemeral_parent, invalid_session,
}
use zoocooker.Protocol.Paths.{root, is_empty, normalize, parent_of, leaf_name}
use zoocooker.Storage.Order.{set_insert, set_remove, sort_deepest_first, padded}
use zoocooker.Storage.Node.{Stat, ZNode, default_node, new_node, is_ephemeral}

pub record TreeStore : Type 0 where
  pub nodes : Dict Text ZNode
  pub zxid : Zxid
  pub sequence_counters : Dict Text ℕ

abbrev pub default_store : TreeStore
default_store = record { nodes = (root, default_node) ∷ []; zxid = 0; sequence_counters = [] }

-- `normalize(path)?` and then the node, or `NoNode`
unfoldable pub find_node : TreeStore → Text → ZkResult ZNode
find_node s path = elim (normalize path) [
  | ok p ↦ ok_or (Dict.get p s.nodes) (no_node p)
  | err e ↦ err e
  | panic ↦ panic
]

abbrev pub map_result {ℓ κ} :
    {A : Type ℓ} {B : Type κ} → (A → B) → Result ZkError A → Result ZkError B
map_result f (ok a) = ok (f a)
map_result f (err e) = err e
map_result f panic = panic

unfoldable pub get_data : TreeStore → Text → ZkResult (Bytes × Int32)
unfolding find_node
get_data s path = map_result (λ node. (node.content, node.stat.version)) (find_node s path)

abbrev pub node_version : Option ZNode → Option Int32
node_version none = none
node_version (some node) = some node.stat.version

unfoldable pub exists : TreeStore → Text → ZkResult (Option Int32)
exists s path = map_result (λ p. node_version (Dict.get p s.nodes)) (normalize path)

unfoldable pub child_names : TreeStore → Text → ZkResult (List Text)
unfolding find_node
child_names s path = map_result (λ node. node.children) (find_node s path)

unfoldable pub ephemeral_owner : TreeStore → Text → ZkResult (Option SessionId)
unfolding find_node
ephemeral_owner s path = map_result (λ node. node.ephemeral_owner) (find_node s path)

-- the `filter_map` of `ephemeral_paths_for_session`
unfoldable pub owned_paths : SessionId → Dict Text ZNode → List Text
owned_paths session_id [] = []
owned_paths session_id ((path, node) ∷ nodes) =
    let rest = owned_paths session_id nodes in
    if node.ephemeral_owner == some session_id then path ∷ rest else rest

unfoldable pub ephemeral_paths_for_session : TreeStore → SessionId → List Text
unfolding owned_paths
ephemeral_paths_for_session s session_id = sort_deepest_first (owned_paths session_id s.nodes)

-- the distinct owners, with those in `seen` left out
unfoldable pub distinct_owners : List SessionId → List ZNode → List SessionId
distinct_owners seen [] = []
distinct_owners seen (node ∷ nodes) = elim node.ephemeral_owner [
  | none ↦ distinct_owners seen nodes
  | some id ↦
      let old = distinct_owners seen nodes in
      let new = distinct_owners (id ∷ seen) nodes in if contains seen id then old else id ∷ new
]

unfoldable pub ephemeral_session_ids : TreeStore → List SessionId
unfolding distinct_owners
ephemeral_session_ids s = distinct_owners [] (values s.nodes)

unfoldable pub check_version : Option Int32 → Int32 → ZkResult (Unit {0})
check_version none actual = ok tt
check_version (some expected) actual =
    if expected == actual then ok tt else err (bad_version expected actual)

abbrev pub StoreM : Type 0 → Type 0
StoreM A = Exec TreeStore ZkError A

unfoldable pub next_zxid : StoreM Zxid
next_zxid s = (ok (incr64 s.zxid), record s { zxid = incr64 s.zxid })

-- `nodes.get(path).ok_or(e)?`
abbrev pub require : Text → ZkError → StoreM ZNode
require path e s = (ok_or (Dict.get path s.nodes) e, s)

abbrev pub put_node : Text → ZNode → TreeStore → TreeStore
put_node path node s = record s { nodes = Dict.insert path node s.nodes }

abbrev pub counter : Option ℕ → ℕ
counter none = 0
counter (some n) = n

-- the block of `if sequential`: the counter moves here, whatever happens afterwards
unfoldable pub choose_path : Bool → Text → StoreM Text
choose_path true requested s =
    let next = counter (Dict.get requested s.sequence_counters) in
    (
      ok (requested ++ padded next),
      record s { sequence_counters = Dict.insert requested (incr64 next) s.sequence_counters },
    )
choose_path false requested s = (ok requested, s)

abbrev pub owner_for : Bool → Option SessionId → ZkResult (Option SessionId)
owner_for true none = err invalid_session
owner_for true (some id) = ok (some id)
owner_for false session_id = ok none

abbrev pub touched : ZNode → List Text → Zxid → ZNode
touched node children zxid = record node {
  children = children;
  stat = record (node.stat) { cversion = incr32 node.stat.cversion; modified_zxid = some zxid };
}

abbrev pub event : Text → WatchEventKind → WatchEvent
event path kind = record { path = path; kind = kind }

-- `create` from the test that the node is new
unfoldable pub create_node : Text → Bytes → Bool → Option SessionId → StoreM Applied
unfolding next_zxid
create_node path bytes ephemeral session_id = do
  present ← gets (λ s. Dict.contains_key path s.nodes)
  reject_if present (node_exists path)
  parent_path ← lift (expect (parent_of path))
  child_name ← lift (expect (leaf_name path))
  parent ← require parent_path (no_parent parent_path)
  reject_if (is_ephemeral parent) ephemeral_parent
  owner ← lift (owner_for ephemeral session_id)
  zxid ← next_zxid
  parent ← require parent_path (no_parent parent_path)
  modify (put_node parent_path (touched parent (set_insert child_name parent.children) zxid))
  let stat : Stat = record {
    version = 0;
    cversion = 0;
    created_zxid = some zxid;
    modified_zxid = some zxid;
  }
  modify (put_node path (new_node bytes stat owner))
  pure (record {
    result = created path;
    watch_events = event path node_created ∷ event parent_path node_children_changed ∷ [];
  })

unfoldable pub create_path : Text → Bytes → Bool → Bool → Option SessionId → StoreM Applied
create_path path bytes ephemeral sequential session_id = do
  requested ← lift (normalize path)
  reject_if (requested == root) (node_exists requested)
  chosen ← choose_path sequential requested
  create_node chosen bytes ephemeral session_id

unfoldable pub set_node : Text → Bytes → Option Int32 → StoreM Applied
unfolding next_zxid check_version
set_node path bytes expected_version = do
  path ← lift (normalize path)
  node ← require path (no_node path)
  lift (check_version expected_version node.stat.version)
  zxid ← next_zxid
  node ← require path (no_node path)
  let version : Int32 = incr32 node.stat.version
  modify (
      put_node path (record node {
        content = bytes;
        stat = record (node.stat) { version = version; modified_zxid = some zxid };
      }))
  pure (record {
    result = node_data bytes version;
    watch_events = event path node_data_changed ∷ [];
  })

-- `if let Some(parent) = self.nodes.get_mut(&parent_path)`
abbrev pub drop_child : Text → Text → Zxid → TreeStore → TreeStore
drop_child parent_path child_name zxid s = elim (Dict.get parent_path s.nodes) [
  | none ↦ s
  | some parent ↦
      put_node parent_path (touched parent (set_remove child_name parent.children) zxid) s
]

unfoldable pub delete_node : Text → Option Int32 → StoreM Applied
unfolding next_zxid check_version
delete_node path expected_version = do
  path ← lift (normalize path)
  reject_if (path == root) (not_empty path)
  node ← require path (no_node path)
  reject_if (not (is_empty node.children)) (not_empty path)
  lift (check_version expected_version node.stat.version)
  parent_path ← lift (expect (parent_of path))
  child_name ← lift (expect (leaf_name path))
  zxid ← next_zxid
  modify (λ s. record s { nodes = Dict.remove path s.nodes })
  modify (drop_child parent_path child_name zxid)
  pure (record {
    result = deleted;
    watch_events = event path node_deleted ∷ event parent_path node_children_changed ∷ [];
  })

unfoldable pub apply : Command → StoreM Applied
apply (create path bytes ephemeral sequential session_id) =
    create_path path bytes ephemeral sequential session_id
apply (set_data path bytes expected_version) = set_node path bytes expected_version
apply (delete path expected_version) = delete_node path expected_version
