-- ===== src/Server/Watch/Completeness.antt =====
-- The events of a write name every path that it changed.
use zoocooker.Base.{
  ℕ, ◌≡◌, sym, ap, ◌∙◌, Bool, false, Text, Option, none, some, Option-cases, inl, inr, List, [],
  ◌==◌, text_eq, arith,
}
use zoocooker.Base.Dict.{Dict, get-insert, get-remove}
use zoocooker.Base.Dict
use zoocooker.Base.Exec.{ok}
use zoocooker.Protocol.Types.{
  Bytes, SessionId, incr64, Command, create, set_data, delete, Applied, data_watch, children_watch,
}
use zoocooker.Storage.Order.{set_remove}
use zoocooker.Storage.Node.{ZNode}
use zoocooker.Storage.Store.{TreeStore, apply, drop_child, touched}
use zoocooker.Storage.Store.Outcomes.{Deletes, set_node-Sets, delete_node-Deletes}
use zoocooker.Storage.Store.Writes.{CreatesAt, nodes-counted, create_path-CreatesAt}
use zoocooker.Storage.Store.View.{view, view-created, view-set, view-deleted, view-counted}
use zoocooker.Server.Watch.Delivery.{serves}

-- the names of a node's children; none for a node that is not there
abbrev names : Option ZNode → List Text
names none = []
names (some n) = n.children

abbrev pub names_at : TreeStore → Text → List Text
names_at s q = names (Dict.get q s.nodes)

created-quiet :
    {s t : TreeStore} {path : Text} {bytes : Bytes} {ephemeral sequential : Bool}
    {session_id : Option SessionId} {a : Applied}
    (k : CreatesAt s path bytes ephemeral sequential session_id a t) (q : Text)
    → serves a.watch_events data_watch q ≡ false
    → view t q ≡ view s q
created-quiet {s} {sequential = b} k q h =
    let c = k.creates in
    let quiet = sym (ap (λ es. serves es data_watch q) c.events) ∙ h in
    view-created c q ∙ ground (arith, quiet, view-counted b k.requested s q)

-- A path whose data watchers get no event of a write that succeeds reads as before.
pub data_events :
    (s : TreeStore) (c : Command) (a : Applied) (q : Text)
    → (apply c s).0 ≡ ok a
    → serves a.watch_events data_watch q ≡ false
    → view (apply c s).1 q ≡ view s q
unfolding apply
data_events s (create path bytes ephemeral sequential session_id) a q h quiet =
    created-quiet (create_path-CreatesAt s path bytes ephemeral sequential session_id a h) q quiet
data_events s (set_data path bytes expected) a q h quiet =
    let k = set_node-Sets s path bytes expected a h in
    view-set k q ∙ ground (arith, sym (ap (λ es. serves es data_watch q) k.events) ∙ quiet)
data_events s (delete path expected) a q h quiet =
    let k = delete_node-Deletes s path expected a h in
    view-deleted k q ∙ ground (arith, sym (ap (λ es. serves es data_watch q) k.events) ∙ quiet)

created-names :
    {s t : TreeStore} {path : Text} {bytes : Bytes} {ephemeral sequential : Bool}
    {session_id : Option SessionId} {a : Applied}
    (k : CreatesAt s path bytes ephemeral sequential session_id a t) (q : Text)
    → serves a.watch_events children_watch q ≡ false
    → names_at t q ≡ names_at s q
created-names {s} {sequential = b} k q h =
    let c = k.creates in
    let quiet = sym (ap (λ es. serves es children_watch q) c.events) ∙ h in
    rw (c.nodes, get-insert, get-insert)
      (ground (arith, quiet, nodes-counted b k.requested s, c.fresh))

names-drop_child :
    (pp c : Text) (z : ℕ) (s : TreeStore) (q : Text)
    → (q == pp) ≡ false
    → names_at (drop_child pp c z s) q ≡ names_at s q
names-drop_child pp c z s q h = elim (Option-cases (Dict.get pp s.nodes)) [
  | inl e ↦ ground arith
  | inr (n, e) ↦ ground (arith, get-insert q pp (touched n (set_remove c n.children) z) s.nodes)
]

deleted-names :
    {s t : TreeStore} {path : Text} {expected : Option ℕ} {a : Applied}
    (k : Deletes s path expected a t) (q : Text)
    → serves a.watch_events children_watch q ≡ false
    → names_at t q ≡ names_at s q
deleted-names {s} k q h =
    let quiet = sym (ap (λ es. serves es children_watch q) k.events) ∙ h in
    rw k.nodes (
      names-drop_child k.parent_path k.child_name (incr64 s.zxid)
        (record s { nodes = Dict.remove k.key s.nodes }) q (ground (arith, quiet))
      ∙ ground (arith, get-remove q k.key s.nodes, k.found, k.childless))

-- A path whose child watchers get no event of a write that succeeds lists the children it did.
pub child_events :
    (s : TreeStore) (c : Command) (a : Applied) (q : Text)
    → (apply c s).0 ≡ ok a
    → serves a.watch_events children_watch q ≡ false
    → names_at (apply c s).1 q ≡ names_at s q
unfolding apply
child_events s (create path bytes ephemeral sequential session_id) a q h quiet =
    created-names (create_path-CreatesAt s path bytes ephemeral sequential session_id a h) q quiet
child_events s (set_data path bytes expected) a q h quiet =
    let k = set_node-Sets s path bytes expected a h in
    rw (k.nodes, get-insert) (ground (arith, k.found))
child_events s (delete path expected) a q h quiet =
    deleted-names (delete_node-Deletes s path expected a h) q quiet
