-- ===== src/Storage/Store/Outcomes.antt =====
-- What a write that succeeds has found and done, and what a write that fails leaves.
use zoocooker.Base.{
  ◌≡◌, ◌≢◌, Bool, false, Text, Option, none, some, Option-cases, inl, inr, [], ◌∷◌, arith,
  if◌then◌else◌, text_eq,
}
use zoocooker.Base.Dict
use zoocooker.Base.Exec.{ok, is_ok, Result-cases}
use zoocooker.Protocol.Types.{
  Bytes, SessionId, Int32, incr32, incr64, node_created, node_deleted, node_data_changed,
  node_children_changed, created, node_data, deleted, Applied,
}
use zoocooker.Protocol.Paths.{root, normalize, parent_of, leaf_name}
use zoocooker.Storage.Order.{set_insert}
use zoocooker.Storage.Node.{ZNode, new_node}
use zoocooker.Storage.Store.{
  TreeStore, event, touched, owner_for, create_node, set_node, delete_node, drop_child,
  check_version,
}

-- `create` has passed its tests at `path`, and has added the node.
pub record Creates (s : TreeStore) (path : Text) (bytes : Bytes) (ephemeral : Bool)
    (session_id : Option SessionId) (a : Applied) (t : TreeStore) : Type 0 where
  pub parent_path : Text
  pub child_name : Text
  pub parent : ZNode
  pub owner : Option SessionId
  pub fresh : Dict.get path s.nodes ≡ none
  pub is_parent : parent_of path ≡ some parent_path
  pub is_leaf : leaf_name path ≡ some child_name
  pub found : Dict.get parent_path s.nodes ≡ some parent
  pub lasting : parent.ephemeral_owner ≡ none
  pub owned : owner_for ephemeral session_id ≡ ok owner
  pub nodes :
      t.nodes
      ≡ Dict.insert path
          (new_node bytes
            (record {
              version = 0;
              cversion = 0;
              created_zxid = some (incr64 s.zxid);
              modified_zxid = some (incr64 s.zxid);
            })
            owner)
          (Dict.insert parent_path
            (touched parent (set_insert child_name parent.children) (incr64 s.zxid))
            s.nodes)
  pub zxid : t.zxid ≡ incr64 s.zxid
  pub counters : t.sequence_counters ≡ s.sequence_counters
  pub result : a.result ≡ created path
  pub events :
      a.watch_events ≡ event path node_created ∷ event parent_path node_children_changed ∷ []

pub create_node-Creates :
    (s : TreeStore) (path : Text) (bytes : Bytes) (ephemeral : Bool) (session_id : Option SessionId)
    (a : Applied)
    → (create_node path bytes ephemeral session_id s).0 ≡ ok a
    → Creates s path bytes ephemeral session_id a (create_node path bytes ephemeral session_id s).1
unfolding create_node Dict.contains_key
create_node-Creates s path bytes ephemeral session_id a h = elim (Option-cases (parent_of path)) [
  | inl e ↦ absurd (ground arith)
  | inr (parent_path, is_parent) ↦ elim (Option-cases (leaf_name path)) [
    | inl e ↦ absurd (ground arith)
    | inr (child_name, is_leaf) ↦ elim (Option-cases (Dict.get parent_path s.nodes)) [
      | inl e ↦ absurd (ground arith)
      | inr (parent, found) ↦ record {
        parent_path = parent_path;
        child_name = child_name;
        parent = parent;
        owner = if ephemeral then session_id else none;
        fresh = ground arith;
        is_parent = is_parent;
        is_leaf = is_leaf;
        found = found;
        lasting = ground arith;
        owned = ground arith;
        nodes = ground arith;
        zxid = ground arith;
        counters = ground arith;
        result = ground arith;
        events = ground arith;
      }
    ]
  ]
]

pub create_node_fails :
    (s : TreeStore) (path : Text) (bytes : Bytes) (ephemeral : Bool) (session_id : Option SessionId)
    → is_ok (create_node path bytes ephemeral session_id s).0 ≡ false
    → (create_node path bytes ephemeral session_id s).1 ≡ s
unfolding create_node Dict.contains_key
create_node_fails s path bytes ephemeral session_id h = ground arith

-- `set_data` has found the node at the expected version, and has replaced its content.
pub record Sets (s : TreeStore) (path : Text) (bytes : Bytes) (expected : Option Int32)
    (a : Applied) (t : TreeStore) : Type 0 where
  pub key : Text
  pub node : ZNode
  pub normal : normalize path ≡ ok key
  pub found : Dict.get key s.nodes ≡ some node
  pub checked : check_version expected node.stat.version ≡ ok tt
  pub nodes :
      t.nodes
      ≡ Dict.insert key
          (record node {
            content = bytes;
            stat = record (node.stat) {
              version = incr32 node.stat.version;
              modified_zxid = some (incr64 s.zxid);
            };
          })
          s.nodes
  pub zxid : t.zxid ≡ incr64 s.zxid
  pub counters : t.sequence_counters ≡ s.sequence_counters
  pub result : a.result ≡ node_data bytes (incr32 node.stat.version)
  pub events : a.watch_events ≡ event key node_data_changed ∷ []

pub set_node-Sets :
    (s : TreeStore) (path : Text) (bytes : Bytes) (expected : Option Int32) (a : Applied)
    → (set_node path bytes expected s).0 ≡ ok a
    → Sets s path bytes expected a (set_node path bytes expected s).1
unfolding set_node
set_node-Sets s path bytes expected a h = elim (Result-cases (normalize path)) [
  | inr bad ↦ absurd (ground arith)
  | inl (key, normal) ↦ elim (Option-cases (Dict.get key s.nodes)) [
    | inl e ↦ absurd (ground arith)
    | inr (node, found) ↦ record {
      key = key;
      node = node;
      normal = normal;
      found = found;
      checked = ground arith;
      nodes = ground arith;
      zxid = ground arith;
      counters = ground arith;
      result = ground arith;
      events = ground arith;
    }
  ]
]

pub set_node_fails :
    (s : TreeStore) (path : Text) (bytes : Bytes) (expected : Option Int32)
    → is_ok (set_node path bytes expected s).0 ≡ false
    → (set_node path bytes expected s).1 ≡ s
unfolding set_node
set_node_fails s path bytes expected h = ground arith

-- `delete` has found a node with no children at the expected version, and has taken it away.
pub record Deletes (s : TreeStore) (path : Text) (expected : Option Int32) (a : Applied)
    (t : TreeStore) : Type 0 where
  pub key : Text
  pub node : ZNode
  pub parent_path : Text
  pub child_name : Text
  pub normal : normalize path ≡ ok key
  pub not_root : key ≢ root
  pub found : Dict.get key s.nodes ≡ some node
  pub childless : node.children ≡ []
  pub checked : check_version expected node.stat.version ≡ ok tt
  pub is_parent : parent_of key ≡ some parent_path
  pub is_leaf : leaf_name key ≡ some child_name
  pub nodes :
      t.nodes
      ≡ (drop_child parent_path child_name
          (incr64 s.zxid)
          (record s { nodes = Dict.remove key s.nodes })).nodes
  pub zxid : t.zxid ≡ incr64 s.zxid
  pub counters : t.sequence_counters ≡ s.sequence_counters
  pub result : a.result ≡ deleted
  pub events :
      a.watch_events ≡ event key node_deleted ∷ event parent_path node_children_changed ∷ []

pub delete_node-Deletes :
    (s : TreeStore) (path : Text) (expected : Option Int32) (a : Applied)
    → (delete_node path expected s).0 ≡ ok a
    → Deletes s path expected a (delete_node path expected s).1
unfolding delete_node
delete_node-Deletes s path expected a h = elim (Result-cases (normalize path)) [
  | inr bad ↦ absurd (ground arith)
  | inl (key, normal) ↦ elim (Option-cases (Dict.get key s.nodes)) [
    | inl e ↦ absurd (ground arith)
    | inr (node, found) ↦ elim (Option-cases (parent_of key)) [
      | inl e ↦ absurd (ground arith)
      | inr (parent_path, is_parent) ↦ elim (Option-cases (leaf_name key)) [
        | inl e ↦ absurd (ground arith)
        | inr (child_name, is_leaf) ↦ record {
          key = key;
          node = node;
          parent_path = parent_path;
          child_name = child_name;
          normal = normal;
          not_root = ground arith;
          found = found;
          childless = ground arith;
          checked = ground arith;
          is_parent = is_parent;
          is_leaf = is_leaf;
          nodes = ground arith;
          zxid = ground arith;
          counters = ground arith;
          result = ground arith;
          events = ground arith;
        }
      ]
    ]
  ]
]

pub delete_node_fails :
    (s : TreeStore) (path : Text) (expected : Option Int32)
    → is_ok (delete_node path expected s).0 ≡ false
    → (delete_node path expected s).1 ≡ s
unfolding delete_node
delete_node_fails s path expected h = ground arith
