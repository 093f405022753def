-- ===== src/Storage/Store/Shape/Create.antt =====
-- `create` keeps the tree.
use zoocooker.Base.{
  ◌≡◌, Bool, true, Text, Option, some, Option-cases, inl, inr, ◌==◌, ◌||◌, arith, refl, sym,
  text_eq, contains, if◌then◌else◌, subst,
}
use zoocooker.Base.Dict.{get-insert, insert-NodupKeys}
use zoocooker.Base.Dict
use zoocooker.Protocol.Types.{Bytes, SessionId, Applied}
use zoocooker.Protocol.Paths.{root, parent_of, leaf_name}
use zoocooker.Protocol.Paths.Normalize.{IsPath}
use zoocooker.Storage.Order.{set_insert}
use zoocooker.Storage.Order.Sets.{contains-set_insert, IsAscending, set_insert-IsAscending}
use zoocooker.Storage.Node.{ZNode, new_node}
use zoocooker.Storage.Store.{TreeStore, touched}
use zoocooker.Storage.Store.Outcomes.{Creates}
use zoocooker.Storage.Store.Shape.{IsTree, HasRoot, Lists, Present}

module _ {s t : TreeStore} {path : Text} {bytes : Bytes} {ephemeral : Bool}
    {session_id : Option SessionId} {a : Applied}
    (k : Creates s path bytes ephemeral session_id a t) (v : IsTree s.nodes)
    (valid : IsPath path) where
  abbrev added : ZNode
  added =
      new_node bytes
        (record {
          version = 0;
          cversion = 0;
          created_zxid = some t.zxid;
          modified_zxid = some t.zxid;
        })
        k.owner

  abbrev parent_after : ZNode
  parent_after = touched k.parent (set_insert k.child_name k.parent.children) t.zxid

  get-created :
      (q : Text)
      → Dict.get q t.nodes ≡ (
          if q == path
          then some added
          else if q == k.parent_path
          then some parent_after
          else Dict.get q s.nodes)
  get-created q = rw (k.nodes, k.zxid, get-insert, get-insert) refl

  parent_children :
      (c : Text)
      → contains parent_after.children c ≡ (c == k.child_name || contains k.parent.children c)
  parent_children c = contains-set_insert c k.child_name k.parent.children

  -- what was there still is
  persists :
      (q : Text) (n : ZNode)
      → Dict.get q s.nodes ≡ some n
      → (m : ZNode) × (Dict.get q t.nodes ≡ some m)
  persists q n h = elim (text_eq.dec q k.parent_path) [
    | yes e ↦ (parent_after, ground (arith, get-created q, k.fresh, k.found))
    | no ne ↦ (n, ground (arith, get-created q, k.fresh))
  ]

  lists_after : (p c : Text) → Lists s.nodes p c → Lists t.nodes p c
  lists_after p c l = elim (text_eq.dec p k.parent_path) [
    | yes e ↦ record {
      node = parent_after;
      found = ground (arith, get-created p, k.fresh, l.found);
      listed = ground (arith, parent_children c, l.found, l.listed, k.found);
      lasting = k.lasting;
    }
    | no ne ↦ record {
      node = l.node;
      found = ground (arith, get-created p, k.fresh, l.found);
      listed = l.listed;
      lasting = l.lasting;
    }
  ]

  parent_lists : Lists t.nodes k.parent_path k.child_name
  parent_lists = record {
    node = parent_after;
    found = ground (arith, get-created k.parent_path, k.fresh, k.found);
    listed = ground (arith, parent_children k.child_name);
    lasting = k.lasting;
  }

  parents_after :
      (q p c : Text) (n : ZNode)
      → Dict.get q t.nodes ≡ some n
      → parent_of q ≡ some p
      → leaf_name q ≡ some c
      → Lists t.nodes p c
  parents_after q p c n h e f = elim (text_eq.dec q path) [
    | yes same ↦
        let ep : k.parent_path ≡ p = cc (k.is_parent, same, e) in
        let ec : k.child_name ≡ c = cc (k.is_leaf, same, f) in
        subst (λ x. Lists t.nodes x c) ep (subst (Lists t.nodes k.parent_path) ec parent_lists)
    | no other ↦ elim (Option-cases (Dict.get q s.nodes)) [
      | inl gone ↦ absurd (ground (arith, get-created q, k.found))
      | inr (m, old) ↦ lists_after p c (v.parents q p c m old e f)
    ]
  ]

  new_child : Present t.nodes k.parent_path k.child_name
  new_child = record {
    key = path;
    node = added;
    found = ground (arith, get-created path);
    is_parent = k.is_parent;
    is_leaf = k.is_leaf;
  }

  Present-after : (p c : Text) → Present s.nodes p c → Present t.nodes p c
  Present-after p c w =
      let (m, h) = persists w.key w.node w.found in
      record { key = w.key; node = m; found = h; is_parent = w.is_parent; is_leaf = w.is_leaf }

  children_after :
      (p c : Text) (n : ZNode)
      → Dict.get p t.nodes ≡ some n
      → contains n.children c ≡ true
      → Present t.nodes p c
  children_after p c n h e = elim (text_eq.dec p path) [
    | yes same ↦ absurd (ground (arith, get-created p))
    | no other ↦ elim (text_eq.dec p k.parent_path) [
      | no far ↦ Present-after p c (v.children p c n (ground (arith, get-created p)) e)
      | yes near ↦ elim (text_eq.dec c k.child_name) [
        | yes same ↦
            subst (λ x. Present t.nodes x c) (sym near)
              (subst (Present t.nodes k.parent_path) (sym same) new_child)
        | no old ↦ Present-after p c (
            v.children p c k.parent (ground (arith, k.found))
              (ground (arith, get-created p, parent_children c)))
      ]
    ]
  ]

  root_after : HasRoot t.nodes
  root_after = elim (text_eq.dec root k.parent_path) [
    | yes e ↦ record {
      node = parent_after;
      found = ground (arith, get-created root, k.fresh, v.has_root.found);
      lasting = k.lasting;
    }
    | no ne ↦ record {
      node = v.has_root.node;
      found = ground (arith, get-created root, k.fresh, v.has_root.found);
      lasting = v.has_root.lasting;
    }
  ]

  paths_after : (q : Text) (n : ZNode) → Dict.get q t.nodes ≡ some n → IsPath q
  paths_after q n h = elim (text_eq.dec q path) [
    | yes same ↦ subst IsPath (sym same) valid
    | no other ↦ elim (Option-cases (Dict.get q s.nodes)) [
      | inl gone ↦ absurd (ground (arith, get-created q, k.found))
      | inr (m, old) ↦ v.paths q m old
    ]
  ]

  IsAscending-after : (p : Text) (n : ZNode) → Dict.get p t.nodes ≡ some n → IsAscending n.children
  IsAscending-after p n h = ground (
    arith,
    get-created p,
    v.ascending p n,
    set_insert-IsAscending k.child_name k.parent.children
        (v.ascending k.parent_path k.parent k.found),
  )

  pub create-IsTree : IsTree t.nodes
  create-IsTree = record {
    has_root = root_after;
    paths = paths_after;
    parents = parents_after;
    children = children_after;
    ascending = IsAscending-after;
    distinct =
        rw k.nodes (insert-NodupKeys path _ _ (insert-NodupKeys k.parent_path _ _ v.distinct));
  }
