-- ===== src/Storage/Store/View.antt =====
-- The store as a map from paths to what a client reads of a node: each write is one change of it.
use zoocooker.Base.{
  ℕ, ◌≡◌, Bool, true, false, Text, Option, none, some, [], ◌==◌, arith, refl, sym, ap, ◌∙◌, text_eq,
  Option-cases, ◌++◌, append-nil, inl, inr, if◌then◌else◌,
}
use zoocooker.Base.Dict.{get-insert, get-remove}
use zoocooker.Base.Dict
use zoocooker.Base.Exec.{ok}
use zoocooker.Protocol.Types.{
  Bytes, SessionId, Int32, incr32, incr64, Command, create, set_data, delete, Applied, ApplyResult,
  created, node_data, deleted,
}
use zoocooker.Protocol.Paths.{normalize, parent_of, leaf_name}
use zoocooker.Protocol.Paths.Family.{IsPath-cases, parent_and_leaf, parent_of-root}
use zoocooker.Storage.Store.Shape.{IsTree}
use zoocooker.Storage.Order.{set_remove, padded}
use zoocooker.Storage.Node.{ZNode}
use zoocooker.Storage.Store.{
  TreeStore, counter, apply, check_version, owner_for, touched, drop_child,
}
use zoocooker.Storage.Store.Outcomes.{Creates, Sets, Deletes, set_node-Sets, delete_node-Deletes}
use zoocooker.Storage.Store.Writes.{CreatesAt, chosen_path, counted, create_path-CreatesAt}

-- what a client reads of a node
pub record Entry : Type 0 where
  pub content : Bytes
  pub version : Int32
  pub owner : Option SessionId

abbrev pub entry : Option ZNode → Option Entry
entry none = none
entry (some n) =
    some (record { content = n.content; version = n.stat.version; owner = n.ephemeral_owner })

abbrev pub view : TreeStore → Text → Option Entry
view s q = entry (Dict.get q s.nodes)

abbrev pub ReadMap : Type 0
ReadMap = Text → Option Entry

-- one change of a map
abbrev pub update : ReadMap → Text → Option Entry → ReadMap
update f path e q = if q == path then e else f q

-- What each command means for the map that clients read: the specification of a write.
pub data MapStep (f g : ReadMap) : Command → ApplyResult → Type 0 where
  creates :
      {path : Text} {bytes : Bytes} {ephemeral sequential : Bool} {session_id : Option SessionId}
      (requested suffix parent : Text) (above : Entry) (owner : Option SessionId)
      → normalize path ≡ ok requested
      → (sequential ≡ false → suffix ≡ [])
      → f (requested ++ suffix) ≡ none
      → parent_of (requested ++ suffix) ≡ some parent
      → f parent ≡ some above
      → above.owner ≡ none
      → owner_for ephemeral session_id ≡ ok owner
      → ((q : Text)
          → g q
            ≡ update f
                (requested ++ suffix)
                (some (record { content = bytes; version = 0; owner = owner }))
                q)
      → MapStep f g
          (create path bytes ephemeral sequential session_id)
          (created (requested ++ suffix))
  sets :
      {path : Text} {bytes : Bytes} {expected : Option Int32} (key : Text) (e : Entry) (v : Int32)
      → normalize path ≡ ok key
      → f key ≡ some e
      → check_version expected e.version ≡ ok tt
      → v ≡ incr32 e.version
      → ((q : Text) → g q ≡ update f key (some (record e { content = bytes; version = v })) q)
      → MapStep f g (set_data path bytes expected) (node_data bytes v)
  deletes :
      {path : Text} {expected : Option Int32} (key : Text) (e : Entry)
      → normalize path ≡ ok key
      → f key ≡ some e
      → check_version expected e.version ≡ ok tt
      → ((q : Text) → parent_of q ≡ some key → f q ≡ none)
      → ((q : Text) → g q ≡ update f key none q)
      → MapStep f g (delete path expected) deleted

pub view-created :
    {s t : TreeStore} {path : Text} {bytes : Bytes} {ephemeral : Bool}
    {session_id : Option SessionId} {a : Applied}
    (k : Creates s path bytes ephemeral session_id a t) (q : Text)
    → view t q
      ≡ update (view s) path (some (record { content = bytes; version = 0; owner = k.owner })) q
view-created {s} {t} {path} k q = rw (k.nodes, get-insert, get-insert) (ground (arith, k.found))

pub view-set :
    {s t : TreeStore} {path : Text} {bytes : Bytes} {expected : Option Int32} {a : Applied}
    (k : Sets s path bytes expected a t) (q : Text)
    → view t q
      ≡ update
          (view s)
          k.key
          (some (record {
            content = bytes;
            version = incr32 k.node.stat.version;
            owner = k.node.ephemeral_owner;
          }))
          q
view-set k q = rw (k.nodes, get-insert) (ground (arith, k.found))

view-drop_child :
    (pp c : Text) (z : ℕ) (s : TreeStore) (q : Text) → view (drop_child pp c z s) q ≡ view s q
view-drop_child pp c z s q = elim (Option-cases (Dict.get pp s.nodes)) [
  | inl e ↦ ground arith
  | inr (n, e) ↦ ground (arith, get-insert q pp (touched n (set_remove c n.children) z) s.nodes)
]

pub view-deleted :
    {s t : TreeStore} {path : Text} {expected : Option Int32} {a : Applied}
    (k : Deletes s path expected a t) (q : Text)
    → view t q ≡ update (view s) k.key none q
view-deleted {s} k q = rw k.nodes (
    view-drop_child k.parent_path k.child_name (incr64 s.zxid)
      (record s { nodes = Dict.remove k.key s.nodes }) q
    ∙ ground (arith, get-remove q k.key s.nodes))

pub view-counted :
    (b : Bool) (p : Text) (s : TreeStore) (q : Text) → view (counted b p s) q ≡ view s q
view-counted true p s q = refl
view-counted false p s q = refl

-- what a sequential create adds to the requested path
abbrev suffix_of : Bool → Text → TreeStore → Text
suffix_of true requested s = padded (counter (Dict.get requested s.sequence_counters))
suffix_of false requested s = []

chosen-suffix :
    (b : Bool) (requested : Text) (s : TreeStore)
    → chosen_path b requested s ≡ requested ++ suffix_of b requested s
chosen-suffix true requested s = refl
chosen-suffix false requested s = sym (append-nil requested)

created-MapStep :
    {s t : TreeStore} {path : Text} {bytes : Bytes} {ephemeral sequential : Bool}
    {session_id : Option SessionId} {a : Applied}
    → CreatesAt s path bytes ephemeral sequential session_id a t
    → MapStep (view s) (view t) (create path bytes ephemeral sequential session_id) a.result
created-MapStep {s} {t} {path} {bytes} {sequential = b} k =
    let c = k.creates in
    let e = chosen-suffix b k.requested s in
    let same = view-counted b k.requested s in
    rw (c.result, e)
      (creates k.requested (suffix_of b k.requested s) c.parent_path _ c.owner k.normal
        (λ f. ap (λ x. suffix_of x k.requested s) f) (rw (← e) (sym (same _) ∙ ap entry c.fresh))
        (rw (← e) c.is_parent) (sym (same _) ∙ ap entry c.found) c.lasting c.owned
        (λ q. rw (← e) (view-created c q ∙ ground (arith, same q))))

-- a node that has no children is above no node
childless-above :
    {s t : TreeStore} {path : Text} {expected : Option Int32} {a : Applied}
    (k : Deletes s path expected a t)
    → IsTree s.nodes
    → (q : Text) → parent_of q ≡ some k.key
    → view s q ≡ none
childless-above {s} k v q e = elim (Option-cases (Dict.get q s.nodes)) [
  | inl gone ↦ ap entry gone
  | inr (n, there) ↦ elim (IsPath-cases q (v.paths q n there)) [
    | inl r ↦ absurd (cc (parent_of-root, ap parent_of r))
    | inr c ↦
        let leaf : leaf_name q ≡ some c.name =
          ap leaf_name c.joined ∙ (parent_and_leaf c.parent c.name c.parent_path c.is_name).1 in
        let l = v.parents q k.key c.name n there e leaf in
        absurd (ground (arith, l.found, l.listed, k.found, k.childless))
  ]
]

-- A write that succeeds, on a store whose nodes form a tree, changes the map of what clients read
-- exactly as its command means, and its result says so.
pub apply-MapStep :
    (s : TreeStore) (c : Command) (a : Applied)
    → IsTree s.nodes
    → (apply c s).0 ≡ ok a
    → MapStep (view s) (view (apply c s).1) c a.result
unfolding apply
apply-MapStep s (create path bytes ephemeral sequential session_id) a v h =
    created-MapStep (create_path-CreatesAt s path bytes ephemeral sequential session_id a h)
apply-MapStep s (set_data path bytes expected) a v h =
    let k = set_node-Sets s path bytes expected a h in
    rw k.result (sets k.key _ _ k.normal (ap entry k.found) k.checked refl (view-set k))
apply-MapStep s (delete path expected) a v h =
    let k = delete_node-Deletes s path expected a h in
    rw k.result
      (deletes k.key _ k.normal (ap entry k.found) k.checked (childless-above k v) (view-deleted k))
