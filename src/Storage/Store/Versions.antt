-- ===== src/Storage/Store/Versions.antt =====
-- The version of a node over time: it only moves forward while the node is there.
use zoocooker.Base.{
  ℕ, ◌+◌, ◌%◌, ◌^◌, ◌<◌, ◌≤◌, ◌≡◌, ◌≢◌, ◌⊎◌, sym, subst, ap, ◌∙◌, Text, Option, some, List, [], ◌∷◌,
  inl, inr, All, length, text_eq, nat_eq, Option-cases, arith,
}
use zoocooker.Base.Dict
use zoocooker.Base.Exec.{ok, err, Result-cases}
use zoocooker.Protocol.Types.{
  Bytes, Int32, incr32, Command, create, set_data, delete, Applied, bad_version,
}
use zoocooker.Protocol.Paths.{normalize}
use zoocooker.Storage.Store.{TreeStore, apply, set_node, check_version}
use zoocooker.Storage.Store.Outcomes.{set_node-Sets, delete_node-Deletes}
use zoocooker.Storage.Store.Writes.{chosen_path, create_path-CreatesAt}
use zoocooker.Storage.Store.Apply.{run, apply_fails}
use zoocooker.Storage.Store.View.{
  Entry, entry, view, view-created, view-set, view-deleted, view-counted,
}

-- The command is no delete of the node at the key.
abbrev pub Spares : Text → Command → Type 0
Spares key (delete path _) = normalize path ≢ ok key
Spares key _ = Unit

-- The node at the key has the version `v` moved `n` times.
abbrev Moved : TreeStore → Text → Int32 → ℕ → Type 0
Moved s key v n = (e : Entry) × (view s key ≡ some e) × (e.version ≡ (v + n) % 2 ^ 32)

-- a set of the node's data moves its version
set-Moved :
    (s : TreeStore) (path key : Text) (bytes : Bytes) (expected : Option Int32) (a : Applied)
    (v n : ℕ)
    → (apply (set_data path bytes expected) s).0 ≡ ok a
    → normalize path ≡ ok key
    → Moved s key v n
    → Moved (apply (set_data path bytes expected) s).1 key v (n + 1)
unfolding apply
set-Moved s path key bytes expected a v n h normal (e, there, version) =
    let k = set_node-Sets s path bytes expected a h in
    let same : key ≡ k.key = ground (arith, normal, k.normal) in
    let found : e.version ≡ k.node.stat.version = ground (arith, there, k.found, same) in
    let new : Entry = record {
      content = bytes;
      version = incr32 k.node.stat.version;
      owner = k.node.ephemeral_owner;
    } in
    (new, view-set k key ∙ ground (arith, same), omega (arith, found, version))

applied-Moved :
    (s : TreeStore) (c : Command) (a : Applied) (key : Text) (v n : ℕ)
    → (apply c s).0 ≡ ok a
    → Spares key c
    → Moved s key v n
    → Moved (apply c s).1 key v n ⊎ Moved (apply c s).1 key v (n + 1)
unfolding apply
applied-Moved s (create path bytes ephemeral sequential owner) a key v n h spares
      (e, there, version) =
    let k = create_path-CreatesAt s path bytes ephemeral sequential owner a h in
    let kept = view-counted sequential k.requested s in
    let fresh = sym (kept _) ∙ ap entry k.creates.fresh in
    let other : key ≢ chosen_path sequential k.requested s =
      λ same. ground (arith, there, fresh, ap (view s) same) in
    inl (e, view-created k.creates key ∙ ground (arith, other, kept key, there), version)
applied-Moved s (set_data path bytes expected) a key v n h spares (e, there, version) =
    let k = set_node-Sets s path bytes expected a h in
    elim (text_eq.dec key k.key) [
      | yes same ↦ inr (
          set-Moved s path key bytes expected a v n h (k.normal ∙ ap ok (sym same))
            (e, there, version))
      | no ne ↦ inl (e, view-set k key ∙ ground (arith, ne, there), version)
    ]
applied-Moved s (delete path expected) a key v n h spares (e, there, version) =
    let k = delete_node-Deletes s path expected a h in
    let other : key ≢ k.key = λ same. spares (k.normal ∙ ap ok (sym same)) in
    inl (e, view-deleted k key ∙ ground (arith, other, there), version)

Moved-apply :
    (s : TreeStore) (c : Command) (key : Text) (v n : ℕ)
    → Spares key c
    → Moved s key v n
    → Moved (apply c s).1 key v n ⊎ Moved (apply c s).1 key v (n + 1)
Moved-apply s c key v n spares (e, there, version) = elim (Result-cases (apply c s).0) [
  | inr bad ↦
      inl (e, ap (λ nodes. entry (Dict.get key nodes)) (apply_fails s c bad).0 ∙ there, version)
  | inl (a, h) ↦ applied-Moved s c a key v n h spares (e, there, version)
]

Moved-run :
    (s : TreeStore) (cs : List Command) (key : Text) (v n : ℕ)
    → All (Spares key) cs
    → Moved s key v n
    → (m : ℕ) × (n ≤ m) × (m ≤ n + length cs) × Moved (run s cs) key v m
Moved-run s [] key v n spares moved = (n, omega arith, omega arith, moved)
Moved-run s (c ∷ cs) key v n (first, rest) moved = elim (Moved-apply s c key v n first moved) [
  | inl same ↦
      let (m, low, high, end) = Moved-run (apply c s).1 cs key v n rest same in
      (m, low, omega (arith, high), end)
  | inr more ↦
      let (m, low, high, end) = Moved-run (apply c s).1 cs key v (n + 1) rest more in
      (m, omega (arith, low), omega (arith, high), end)
]

-- a write that expects another version than the node's
stale-refused :
    (s : TreeStore) (path key : Text) (bytes : Bytes) (v : Int32) (e : Entry)
    → normalize path ≡ ok key
    → view s key ≡ some e
    → v ≢ e.version
    → apply (set_data path bytes (some v)) s ≡ (err (bad_version v e.version), s)
unfolding apply set_node check_version
stale-refused s path key bytes v e normal there ne = elim (Option-cases (Dict.get key s.nodes)) [
  | inl gone ↦ absurd (ground (arith, gone, there))
  | inr (node, found) ↦ ground (arith, normal, found, there, ne)
]

-- A set of data that expects a version has succeeded. Afterwards, as long as fewer than 2^32 - 1
-- commands come and none of them deletes the node, a set that expects the same version is refused
-- with another version of the node, and changes nothing.
pub stale_set_refused :
    (s t : TreeStore) (path key : Text) (bytes bytes' : Bytes) (v : Int32) (a : Applied)
    (cs : List Command)
    → v < 2 ^ 32
    → length cs + 1 < 2 ^ 32
    → normalize path ≡ ok key
    → apply (set_data path bytes (some v)) s ≡ (ok a, t)
    → All (Spares key) cs
    → (w : Int32) × (w ≢ v)
      × (apply (set_data path bytes' (some v)) (run t cs) ≡ (err (bad_version v w), run t cs))
stale_set_refused s t path key bytes bytes' v a cs small few normal h spares =
    let succeeds = ap (λ r. r.0) h in
    let k = set_node-Sets s path bytes (some v) a (unfold apply in succeeds) in
    let same : k.key ≡ key = ground (arith, normal, k.normal) in
    let at_v : k.node.stat.version ≡ v = unfold check_version in ground (arith, k.checked) in
    let before : Moved s key v 0 =
      (_, ap (λ q. view s q) (sym same) ∙ ap entry k.found, omega (arith, at_v, small)) in
    let once = set-Moved s path key bytes (some v) a v 0 succeeds normal before in
    let first = subst (λ u. Moved u key v 1) (ap (λ r. r.1) h) once in
    let (m, low, high, (e, there, version)) = Moved-run t cs key v 1 spares first in
    let other : v ≢ e.version = λ eq. omega (arith, eq, version, low, high, few, small) in
    (
      e.version,
      (λ eq. other (sym eq)),
      stale-refused (run t cs) path key bytes' v e normal there other,
    )
