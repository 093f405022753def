-- ===== src/Storage/Store/Apply.antt =====
-- `apply` on every command: the tree it keeps, the errors that change nothing, no panic.
use zoocooker.Base.{
  ◌≡◌, ◌≢◌, inl, inr, Bool, true, false, Text, Option, List, [], ◌∷◌, arith, refl, sym, ap, ◌∙◌,
  text_eq,
}
use zoocooker.Base.Dict
use zoocooker.Base.Exec.{ok, panic, is_ok, Result-cases}
use zoocooker.Protocol.Types.{
  Bytes, SessionId, Int32, incr64, Command, create, set_data, delete, Applied,
}
use zoocooker.Protocol.Paths.{root, normalize}
use zoocooker.Protocol.Paths.Normalize.{normalize-IsPath, normalize-ne-panic}
use zoocooker.Protocol.Paths.Family.{IsChild, IsPath-cases, IsChild-IsPath, parent_and_leaf}
use zoocooker.Storage.Store.{TreeStore, default_store, create_node, set_node, delete_node, apply}
use zoocooker.Storage.Store.Outcomes.{
  create_node_fails, set_node-Sets, set_node_fails, delete_node-Deletes, delete_node_fails,
}
use zoocooker.Storage.Store.Shape.{IsTree, default_store-IsTree}
use zoocooker.Storage.Store.Shape.Create.{create-IsTree}
use zoocooker.Storage.Store.Shape.Delete.{delete-IsTree}
use zoocooker.Storage.Store.Shape.Set.{set-IsTree}
use zoocooker.Storage.Store.Writes.{
  CreatesAt, counted, create_path-cases, create_path-steps, create_path-CreatesAt,
  chosen_path-IsChild, nodes-counted, zxid-counted,
}

-- A `Create` with the `sequential` flag.
abbrev pub is_sequential : Command → Bool
is_sequential (create _ _ _ sequential _) = sequential
is_sequential _ = false

-- what an error leaves
abbrev Leaves : TreeStore → Bool → TreeStore → Type 0
Leaves s sequential t = (t.nodes ≡ s.nodes) × (t.zxid ≡ s.zxid) × (sequential ≡ false → t ≡ s)

Leaves-counted :
    (s t : TreeStore) (requested : Text) (b : Bool) → t ≡ counted b requested s → Leaves s b t
Leaves-counted s t requested true e = (ap (λ u. u.nodes) e, ap (λ u. u.zxid) e, λ f. cc)
Leaves-counted s t requested false e = (ap (λ u. u.nodes) e, ap (λ u. u.zxid) e, λ f. e)

Leaves-same : (s t : TreeStore) (b : Bool) → t ≡ s → Leaves s b t
Leaves-same s t b e = (ap (λ u. u.nodes) e, ap (λ u. u.zxid) e, λ f. e)

-- A write that fails changes no node and not the zxid. Unless it is a sequential create, it changes
-- nothing at all.
pub apply_fails :
    (s : TreeStore) (c : Command)
    → is_ok (apply c s).0 ≡ false
    → ((apply c s).1.nodes ≡ s.nodes)
      × ((apply c s).1.zxid ≡ s.zxid)
      × (is_sequential c ≡ false → (apply c s).1 ≡ s)
unfolding apply
apply_fails s (create path bytes ephemeral sequential session_id) h =
    create_path-cases (λ r. is_ok r.0 ≡ false → Leaves s sequential r.1) s path bytes ephemeral
      sequential session_id (λ e h. Leaves-same s s sequential refl)
      (λ requested normal ne h.
        Leaves-counted s _ requested sequential
          (create_node_fails _ _ bytes ephemeral session_id h))
      h
apply_fails s (set_data path bytes expected) h =
    Leaves-same s _ false (set_node_fails s path bytes expected h)
apply_fails s (delete path expected) h = Leaves-same s _ false (delete_node_fails s path expected h)

-- A write that fails leaves every node and the zxid as they were.
pub failure_keeps_nodes :
    (s : TreeStore) (c : Command)
    → is_ok (apply c s).0 ≡ false
    → ((apply c s).1.nodes ≡ s.nodes) × ((apply c s).1.zxid ≡ s.zxid)
failure_keeps_nodes s c h = let (nodes, zxid, _) = apply_fails s c h in (nodes, zxid)

-- A write that fails, and is not a sequential create, leaves the whole store as it was.
pub failure_keeps_store :
    (s : TreeStore) (c : Command)
    → is_ok (apply c s).0 ≡ false
    → is_sequential c ≡ false
    → (apply c s).1 ≡ s
failure_keeps_store s c h k = (apply_fails s c h).2 k

created-IsTree :
    {s t : TreeStore} {path : Text} {bytes : Bytes} {ephemeral sequential : Bool}
    {session_id : Option SessionId} {a : Applied}
    → CreatesAt s path bytes ephemeral sequential session_id a t
    → IsTree s.nodes
    → IsTree t.nodes
created-IsTree {s} {path = path} {sequential = sequential} k v =
    create-IsTree k.creates (rw (nodes-counted sequential k.requested s) v)
      (IsChild-IsPath _ (chosen_path-IsChild s path k.requested sequential k.normal k.not_root))

applied-IsTree :
    (s : TreeStore) (c : Command) (a : Applied)
    → (apply c s).0 ≡ ok a
    → IsTree s.nodes
    → IsTree (apply c s).1.nodes
unfolding apply
applied-IsTree s (create path bytes ephemeral sequential session_id) a h v =
    created-IsTree (create_path-CreatesAt s path bytes ephemeral sequential session_id a h) v
applied-IsTree s (set_data path bytes expected) a h v =
    set-IsTree (set_node-Sets s path bytes expected a h) v
applied-IsTree s (delete path expected) a h v =
    delete-IsTree (delete_node-Deletes s path expected a h) v

-- If the nodes of a store form a tree, every command, whether it succeeds or not, leaves nodes
-- that form a tree.
pub apply-IsTree : (s : TreeStore) (c : Command) → IsTree s.nodes → IsTree (apply c s).1.nodes
apply-IsTree s c v = elim (Result-cases (apply c s).0) [
  | inl (a, h) ↦ applied-IsTree s c a h v
  | inr bad ↦ rw ((apply_fails s c bad).0) v
]

abbrev pub run : TreeStore → List Command → TreeStore
run s [] = s
run s (c ∷ cs) = run (apply c s).1 cs

run_keeps-IsTree : (s : TreeStore) (cs : List Command) → IsTree s.nodes → IsTree (run s cs).nodes
run_keeps-IsTree s [] v = v
run_keeps-IsTree s (c ∷ cs) v = run_keeps-IsTree (apply c s).1 cs (apply-IsTree s c v)

-- From the empty store, after any commands, the nodes are a tree.
pub run-IsTree : (cs : List Command) → IsTree (run default_store cs).nodes
run-IsTree cs = run_keeps-IsTree default_store cs default_store-IsTree

create_node-ne-panic :
    (s : TreeStore) (path : Text) (bytes : Bytes) (ephemeral : Bool) (session_id : Option SessionId)
    → IsChild path
    → (create_node path bytes ephemeral session_id s).0 ≢ panic
unfolding create_node Dict.contains_key
create_node-ne-panic s path bytes ephemeral session_id k h =
    let family = parent_and_leaf k.parent k.name k.parent_path k.is_name in
    ground (arith, k.joined, family)

delete_node-ne-panic :
    (s : TreeStore) (path : Text) (expected : Option Int32)
    → (delete_node path expected s).0 ≢ panic
unfolding delete_node
delete_node-ne-panic s path expected h = elim (Result-cases (normalize path)) [
  | inr bad ↦ ground (arith, normalize-ne-panic path)
  | inl (key, normal) ↦ elim (IsPath-cases key (normalize-IsPath path key normal)) [
    | inl is_root ↦ ground arith
    | inr k ↦
        let family = parent_and_leaf k.parent k.name k.parent_path k.is_name in
        ground (arith, k.joined, family)
  ]
]

-- No command makes the store panic, whatever the store holds.
pub apply-ne-panic : (s : TreeStore) (c : Command) → (apply c s).0 ≢ panic
unfolding apply
apply-ne-panic s (create path bytes ephemeral sequential session_id) h =
    create_path-cases (λ r. r.0 ≢ panic) s path bytes ephemeral sequential session_id (λ e h. cc)
      (λ requested normal ne.
        create_node-ne-panic _ _ bytes ephemeral session_id
          (chosen_path-IsChild s path requested sequential normal ne))
      h
apply-ne-panic s (set_data path bytes expected) h =
    unfold set_node in ground (arith, normalize-ne-panic path)
apply-ne-panic s (delete path expected) h = delete_node-ne-panic s path expected h

-- A write that succeeds moves the zxid by one, around 2^64.
pub zxid-apply :
    (s : TreeStore) (c : Command) (a : Applied)
    → (apply c s).0 ≡ ok a
    → (apply c s).1.zxid ≡ incr64 s.zxid
unfolding apply
zxid-apply s (create path bytes ephemeral sequential session_id) a h =
    let k = create_path-CreatesAt s path bytes ephemeral sequential session_id a h in
    k.creates.zxid ∙ ap incr64 (zxid-counted sequential k.requested s)
zxid-apply s (set_data path bytes expected) a h = (set_node-Sets s path bytes expected a h).zxid
zxid-apply s (delete path expected) a h = (delete_node-Deletes s path expected a h).zxid

-- A sequential create that fails past its path has moved the counter of that path.
pub sequential_fails :
    (s : TreeStore) (path requested : Text) (bytes : Bytes) (ephemeral : Bool)
    (session_id : Option SessionId)
    → normalize path ≡ ok requested
    → requested ≢ root
    → is_ok (apply (create path bytes ephemeral true session_id) s).0 ≡ false
    → (apply (create path bytes ephemeral true session_id) s).1 ≡ counted true requested s
unfolding apply
sequential_fails s path requested bytes ephemeral session_id n ne h =
    let e = create_path-steps s path requested bytes ephemeral true session_id n ne in
    ap (λ r. r.1) e
    ∙ create_node_fails _ _ bytes ephemeral session_id (ap (λ r. is_ok r.0) (sym e) ∙ h)
