-- ===== src/Storage/Store/Shape.antt =====
-- The well-formed stores: the nodes form a tree of paths, and every write keeps it.
pub mod Create
pub mod Delete
pub mod Set
use mathlib.Core.Logic.{if_pos, if_neg}
use zoocooker.Base.{
  ℕ, ◌≡◌, ◌≢◌, Bool, true, false, Text, Option, none, some, Option-cases, Bool-cases, ◌⊎◌, inl, inr,
  List, [], ◌∷◌, ◌==◌, arith, refl, sym, ap, ◌∙◌, text_eq, contains, if◌then◌else◌, subst,
}
use zoocooker.Base.Dict.{
  Dict, NodupKeys, get-insert, get-remove, insert-NodupKeys, remove-NodupKeys,
}
use zoocooker.Base.Dict
use zoocooker.Base.Exec.{Result, ok, err, panic, is_ok}
use zoocooker.Protocol.Types.{Bytes, SessionId, Int32, Applied, Zxid}
use zoocooker.Protocol.Paths.{root, normalize, parent_of, leaf_name}
use zoocooker.Protocol.Paths.Normalize.{IsPath, root-IsPath, normalize-ok}
use zoocooker.Protocol.Paths.Family.{child_path, child_path_of_parent_and_leaf, parent_of-root}
use zoocooker.Storage.Order.{set_insert, set_remove}
use zoocooker.Storage.Order.Sets.{
  contains-set_insert, contains-set_remove, IsAscending, set_insert-IsAscending,
  set_remove-IsAscending,
}
use zoocooker.Storage.Node.{ZNode, Stat, default_node, new_node}
use zoocooker.Storage.Store.{TreeStore, default_store, touched, drop_child}
use zoocooker.Storage.Store.Outcomes.{Creates, Sets, Deletes}

abbrev pub Nodes : Type 0
Nodes = Dict Text ZNode

-- The node `path` is there, may have children, and lists `name`.
pub record Lists (nodes : Nodes) (path name : Text) : Type 0 where
  pub node : ZNode
  pub found : Dict.get path nodes ≡ some node
  pub listed : contains node.children name ≡ true
  pub lasting : node.ephemeral_owner ≡ none

-- The node that the name `name` stands for in the node `path` is there.
pub record Present (nodes : Nodes) (path name : Text) : Type 0 where
  pub key : Text
  pub node : ZNode
  pub found : Dict.get key nodes ≡ some node
  pub is_parent : parent_of key ≡ some path
  pub is_leaf : leaf_name key ≡ some name

pub record HasRoot (nodes : Nodes) : Type 0 where
  pub node : ZNode
  pub found : Dict.get root nodes ≡ some node
  pub lasting : node.ephemeral_owner ≡ none

-- A tree: the root is there, every key is a path, every node but the root is listed by its parent,
-- which is not ephemeral, and every listed child is there; the children ascend; no key stands twice.
pub record IsTree (nodes : Nodes) : Type 0 where
  pub has_root : HasRoot nodes
  pub paths : (q : Text) (n : ZNode) → Dict.get q nodes ≡ some n → IsPath q
  pub parents :
      (q p c : Text) (n : ZNode)
      → Dict.get q nodes ≡ some n
      → parent_of q ≡ some p
      → leaf_name q ≡ some c
      → Lists nodes p c
  pub children :
      (p c : Text) (n : ZNode)
      → Dict.get p nodes ≡ some n
      → contains n.children c ≡ true
      → Present nodes p c
  pub ascending : (p : Text) (n : ZNode) → Dict.get p nodes ≡ some n → IsAscending n.children
  pub distinct : NodupKeys nodes

pub default_store-IsTree : IsTree default_store.nodes
unfolding Dict.get parent_of
default_store-IsTree = record {
  has_root = record { node = default_node; found = rw (if_pos _ refl) refl; lasting = refl };
  paths = λ q n h. subst IsPath {x = root} {y = q} (ground arith) root-IsPath;
  parents = λ q p c n h e f. absurd (ground arith);
  children = λ p c n h e. absurd (ground arith);
  ascending = λ p n h. ground arith;
  distinct = (refl, tt);
}
