-- ===== src/Storage/Store/Shape/Delete.antt =====
-- `delete` keeps the tree.
use zoocooker.Base.{
  ◌≡◌, ◌≢◌, true, not, ◌&&◌, Text, Option, none, some, ◌==◌, arith, refl, sym, ap, ◌∙◌, text_eq,
  contains, if◌then◌else◌,
}
use zoocooker.Base.Dict.{get-insert, get-remove, insert-NodupKeys, remove-NodupKeys}
use zoocooker.Base.Dict
use zoocooker.Protocol.Types.{Int32, Applied, incr64}
use zoocooker.Protocol.Paths.{root, parent_of, leaf_name}
use zoocooker.Protocol.Paths.Normalize.{IsPath}
use zoocooker.Protocol.Paths.Family.{child_path_of_parent_and_leaf}
use zoocooker.Storage.Order.{set_remove}
use zoocooker.Storage.Order.Sets.{contains-set_remove, IsAscending, set_remove-IsAscending}
use zoocooker.Storage.Node.{ZNode}
use zoocooker.Storage.Store.{TreeStore, touched}
use zoocooker.Storage.Store.Outcomes.{Deletes}
use zoocooker.Storage.Store.Shape.{IsTree, HasRoot, Lists, Present}

module _ {s t : TreeStore} {path : Text} {expected : Option Int32} {a : Applied}
    (k : Deletes s path expected a t) (v : IsTree s.nodes) where
  -- the parent of the node that goes
  above : Lists s.nodes k.parent_path k.child_name
  above = v.parents k.key k.parent_path k.child_name k.node k.found k.is_parent k.is_leaf

  abbrev parent_after : ZNode
  parent_after = touched above.node (set_remove k.child_name above.node.children) (incr64 s.zxid)

  parent-ne-key : k.parent_path ≢ k.key
  parent-ne-key e = ground (arith, above.found, above.listed, k.found, k.childless)

  drops : t.nodes ≡ Dict.insert k.parent_path parent_after (Dict.remove k.key s.nodes)
  drops =
      ground (arith, k.nodes, get-remove k.parent_path k.key s.nodes, above.found, parent-ne-key)

  get-deleted :
      (q : Text)
      → Dict.get q t.nodes ≡ (
          if q == k.parent_path
          then some parent_after
          else if q == k.key
          then none
          else Dict.get q s.nodes)
  get-deleted q = rw (drops, get-insert, get-remove) refl

  -- no other node has the same parent and the same name
  only_key :
      (q : Text) (n : ZNode)
      → Dict.get q s.nodes ≡ some n
      → parent_of q ≡ some k.parent_path
      → leaf_name q ≡ some k.child_name
      → q ≡ k.key
  only_key q n h e f =
      (child_path_of_parent_and_leaf q _ _ (v.paths q n h) e f).0
      ∙ sym
          (child_path_of_parent_and_leaf k.key _ _ (v.paths k.key k.node k.found) k.is_parent
            k.is_leaf).0

  parent_children :
      (c : Text)
      → contains parent_after.children c
        ≡ (not (c == k.child_name) && contains above.node.children c)
  parent_children c = contains-set_remove c k.child_name above.node.children

  was_there :
      (q : Text) (n : ZNode)
      → Dict.get q t.nodes ≡ some n
      → (m : ZNode) × (Dict.get q s.nodes ≡ some m) × (q ≢ k.key)
  was_there q n h = elim (text_eq.dec q k.parent_path) [
    | yes e ↦ (above.node, ground (arith, above.found), λ f. parent-ne-key (sym e ∙ f))
    | no ne ↦ (n, ground (arith, get-deleted q), λ f. ground (arith, get-deleted q))
  ]

  lists_after :
      (p c : Text) → Lists s.nodes p c → (p ≡ k.parent_path → c ≢ k.child_name) → Lists t.nodes p c
  lists_after p c l other = elim (text_eq.dec p k.parent_path) [
    | yes e ↦ record {
      node = parent_after;
      found = ground (arith, get-deleted p);
      listed = ground (arith, parent_children c, l.found, l.listed, above.found, other e);
      lasting = above.lasting;
    }
    | no ne ↦ record {
      node = l.node;
      found = ground (arith, get-deleted p, l.found, l.listed, k.found, k.childless);
      listed = l.listed;
      lasting = l.lasting;
    }
  ]

  parents_after :
      (q p c : Text) (n : ZNode)
      → Dict.get q t.nodes ≡ some n
      → parent_of q ≡ some p
      → leaf_name q ≡ some c
      → Lists t.nodes p c
  parents_after q p c n h e f =
      let (m, old, ne) = was_there q n h in
      lists_after p c (v.parents q p c m old e f)
        (λ x y. ne (only_key q m old (e ∙ ap some x) (f ∙ ap some y)))

  Present-after : (p c : Text) (w : Present s.nodes p c) → w.key ≢ k.key → Present t.nodes p c
  Present-after p c w ne = elim (text_eq.dec w.key k.parent_path) [
    | yes e ↦ record {
      key = w.key;
      node = parent_after;
      found = ground (arith, get-deleted w.key);
      is_parent = w.is_parent;
      is_leaf = w.is_leaf;
    }
    | no far ↦ record {
      key = w.key;
      node = w.node;
      found = ground (arith, get-deleted w.key, w.found);
      is_parent = w.is_parent;
      is_leaf = w.is_leaf;
    }
  ]

  children_after :
      (p c : Text) (n : ZNode)
      → Dict.get p t.nodes ≡ some n
      → contains n.children c ≡ true
      → Present t.nodes p c
  children_after p c n h e = elim (text_eq.dec p k.parent_path) [
    | yes near ↦
        let w =
          v.children p c above.node (ground (arith, above.found))
            (ground (arith, get-deleted p, parent_children c)) in
        Present-after p c w
          (λ x. ground (arith, get-deleted p, parent_children c, w.is_leaf, k.is_leaf, x))
    | no far ↦
        let w = v.children p c n (ground (arith, get-deleted p)) e in
        Present-after p c w (λ x. far (ground (arith, w.is_parent, k.is_parent, x)))
  ]

  root_after : HasRoot t.nodes
  root_after = elim (text_eq.dec root k.parent_path) [
    | yes e ↦ record {
      node = parent_after;
      found = ground (arith, get-deleted root);
      lasting = above.lasting;
    }
    | no ne ↦ record {
      node = v.has_root.node;
      found = ground (arith, get-deleted root, k.not_root, v.has_root.found);
      lasting = v.has_root.lasting;
    }
  ]

  paths_after : (q : Text) (n : ZNode) → Dict.get q t.nodes ≡ some n → IsPath q
  paths_after q n h = let (m, old, ne) = was_there q n h in v.paths q m old

  IsAscending-after : (p : Text) (n : ZNode) → Dict.get p t.nodes ≡ some n → IsAscending n.children
  IsAscending-after p n h = ground (
    arith,
    get-deleted p,
    v.ascending p n,
    set_remove-IsAscending k.child_name above.node.children
        (v.ascending k.parent_path above.node above.found),
  )

  pub delete-IsTree : IsTree t.nodes
  delete-IsTree = record {
    has_root = root_after;
    paths = paths_after;
    parents = parents_after;
    children = children_after;
    ascending = IsAscending-after;
    distinct = rw drops (insert-NodupKeys k.parent_path _ _ (remove-NodupKeys k.key _ v.distinct));
  }
