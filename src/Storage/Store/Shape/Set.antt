-- ===== src/Storage/Store/Shape/Set.antt =====
-- `set_data` keeps the tree.
use zoocooker.Base.{◌≡◌, Text, Option, some, ◌==◌, arith, refl, ◌∙◌, text_eq, if◌then◌else◌}
use zoocooker.Base.Dict.{get-insert, insert-NodupKeys}
use zoocooker.Base.Dict
use zoocooker.Protocol.Types.{Bytes, Int32, Applied, incr32, incr64}
use zoocooker.Protocol.Paths.{root}
use zoocooker.Storage.Node.{ZNode}
use zoocooker.Storage.Store.{TreeStore}
use zoocooker.Storage.Store.Outcomes.{Sets}
use zoocooker.Storage.Store.Shape.{IsTree, HasRoot, Lists, Present}

module _ {s t : TreeStore} {path : Text} {bytes : Bytes} {expected : Option Int32} {a : Applied}
    (k : Sets s path bytes expected a t) (v : IsTree s.nodes) where
  abbrev node_after : ZNode
  node_after = record (k.node) {
    content = bytes;
    stat = record (k.node.stat) {
      version = incr32 k.node.stat.version;
      modified_zxid = some (incr64 s.zxid);
    };
  }

  get-set :
      (q : Text) → Dict.get q t.nodes ≡ (if q == k.key then some node_after else Dict.get q s.nodes)
  get-set q = rw (k.nodes, get-insert) refl

  -- the node that stood at a key, with the same children and owner
  was_there :
      (q : Text) (n : ZNode)
      → Dict.get q t.nodes ≡ some n
      → (m : ZNode) × (Dict.get q s.nodes ≡ some m)
        × (n.children ≡ m.children)
        × (n.ephemeral_owner ≡ m.ephemeral_owner)
  was_there q n h = elim (text_eq.dec q k.key) [
    | yes e ↦
        (k.node, ground (arith, k.found), ground (arith, get-set q), ground (arith, get-set q))
    | no ne ↦ (n, ground (arith, get-set q), refl, refl)
  ]

  still_there :
      (q : Text) (m : ZNode)
      → Dict.get q s.nodes ≡ some m
      → (n : ZNode) × (Dict.get q t.nodes ≡ some n)
        × (n.children ≡ m.children)
        × (n.ephemeral_owner ≡ m.ephemeral_owner)
  still_there q m h = elim (text_eq.dec q k.key) [
    | yes e ↦
        (node_after, ground (arith, get-set q), ground (arith, k.found), ground (arith, k.found))
    | no ne ↦ (m, ground (arith, get-set q), refl, refl)
  ]

  lists_after : (p c : Text) → Lists s.nodes p c → Lists t.nodes p c
  lists_after p c l =
      let (n, h, same, owner) = still_there p l.node l.found in
      record { node = n; found = h; listed = rw same l.listed; lasting = owner ∙ l.lasting }

  Present-after : (p c : Text) → Present s.nodes p c → Present t.nodes p c
  Present-after p c w =
      let (n, h, same, owner) = still_there w.key w.node w.found in
      record { key = w.key; node = n; found = h; is_parent = w.is_parent; is_leaf = w.is_leaf }

  root_after : HasRoot t.nodes
  root_after =
      let (n, h, same, owner) = still_there root v.has_root.node v.has_root.found in
      record { node = n; found = h; lasting = owner ∙ v.has_root.lasting }

  pub set-IsTree : IsTree t.nodes
  set-IsTree = record {
    has_root = root_after;
    paths = λ q n h. let (m, old, same, owner) = was_there q n h in v.paths q m old;
    parents = λ q p c n h e f.
        let (m, old, same, owner) = was_there q n h in lists_after p c (v.parents q p c m old e f);
    children = λ p c n h e.
        let (m, old, same, owner) = was_there p n h in
        Present-after p c (v.children p c m old (rw same at e));
    ascending =
        λ p n h. let (m, old, same, owner) = was_there p n h in rw same (v.ascending p m old);
    distinct = rw k.nodes (insert-NodupKeys k.key _ _ v.distinct);
  }
