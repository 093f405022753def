-- ===== src/Storage/Store/ReadBack.antt =====
-- What a successful write says of its node can be read there afterwards.
use zoocooker.Base.{
  ◌≡◌, ◌∙◌, subst, Bool, Text, Option, some, arith, text_eq, Option-cases, inl, inr,
}
use zoocooker.Base.Exec.{ok}
use zoocooker.Protocol.Types.{
  Bytes, SessionId, Int32, incr32, create, set_data, Applied, created, node_data,
}
use zoocooker.Protocol.Paths.{normalize}
use zoocooker.Protocol.Paths.Normalize.{normalize_of_IsPath}
use zoocooker.Protocol.Paths.Family.{IsChild-IsPath}
use zoocooker.Storage.Store.{TreeStore, apply, get_data, find_node}
use zoocooker.Storage.Store.Outcomes.{set_node-Sets}
use zoocooker.Storage.Store.Writes.{chosen_path, create_path-CreatesAt, chosen_path-IsChild}
use zoocooker.Storage.Store.View.{view, view-created, view-set, Entry}
use zoocooker.Base.Dict

-- a read of a path that has an entry
pub get_data-view :
    (s : TreeStore) (p key : Text) (e : Entry)
    → normalize p ≡ ok key
    → view s key ≡ some e
    → get_data s p ≡ ok (e.content, e.version)
unfolding get_data find_node
get_data-view s p key e n h = elim (Option-cases (Dict.get key s.nodes)) [
  | inl gone ↦ absurd (ground (arith, gone, h))
  | inr (node, there) ↦ ground (arith, n, there, h)
]

-- There is a node at the path `q`, with these data at this version.
pub record Reads (s : TreeStore) (q : Text) (bytes : Bytes) (version : Int32) : Type 0 where
  pub owner : Option SessionId
  pub found : view s q ≡ some (record { content = bytes; version = version; owner = owner })

pub create-Reads :
    (s : TreeStore) (path : Text) (bytes : Bytes) (ephemeral sequential : Bool)
    (session_id : Option SessionId) (a : Applied) (q : Text)
    → (apply (create path bytes ephemeral sequential session_id) s).0 ≡ ok a
    → a.result ≡ created q
    → (normalize q ≡ ok q)
      × Reads (apply (create path bytes ephemeral sequential session_id) s).1 q bytes 0
unfolding apply
create-Reads s path bytes ephemeral sequential session_id a q h r =
    let k = create_path-CreatesAt s path bytes ephemeral sequential session_id a h in
    let c = k.creates in
    let at : chosen_path sequential k.requested s ≡ q = ground (arith, c.result, r) in
    let is_path =
      IsChild-IsPath _ (chosen_path-IsChild s path k.requested sequential k.normal k.not_root) in
    (
      subst (λ x. normalize x ≡ ok x) at (normalize_of_IsPath _ is_path),
      record { owner = c.owner; found = view-created c q ∙ ground (arith, at) },
    )

pub set-Reads :
    (s : TreeStore) (path : Text) (bytes b : Bytes) (expected : Option Int32) (a : Applied)
    (v : Int32)
    → (apply (set_data path bytes expected) s).0 ≡ ok a
    → a.result ≡ node_data b v
    → (key : Text) × (normalize path ≡ ok key)
      × Reads (apply (set_data path bytes expected) s).1 key bytes v
unfolding apply
set-Reads s path bytes b expected a v h r =
    let k = set_node-Sets s path bytes expected a h in
    let version : incr32 k.node.stat.version ≡ v = ground (arith, k.result, r) in
    (
      k.key,
      k.normal,
      record { owner = k.node.ephemeral_owner; found = view-set k k.key ∙ ground (arith, version) },
    )
