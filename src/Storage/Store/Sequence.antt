-- ===== src/Storage/Store/Sequence.antt =====
-- The counters of sequential creates over time: later names are greater.
use Prim.Native.Nat.{compare, Ordering}
use zoocooker.Base.{
  ℕ, ◌+◌, ◌^◌, ◌<◌, ◌≤◌, ◌≡◌, sym, ap, ◌∙◌, Bool, true, false, Text, Option, List, [], ◌∷◌, ◌++◌,
  ◌==◌, inl, inr, length, if◌then◌else◌, text_eq, arith,
}
use zoocooker.Base.Dict.{get-insert}
use zoocooker.Base.Dict
use zoocooker.Base.Exec.{ok, Result-cases}
use zoocooker.Protocol.Types.{
  Bytes, SessionId, incr64, Command, create, set_data, delete, created, Applied,
}
use zoocooker.Protocol.Paths.{normalize}
use zoocooker.Storage.Order.{text_compare, padded}
use zoocooker.Storage.Order.Decimal.{text_compare-padded}
use zoocooker.Storage.Store.{
  TreeStore, default_store, counter, create_node, set_node, delete_node, apply,
}
use zoocooker.Storage.Store.Outcomes.{
  create_node-Creates, create_node_fails, set_node-Sets, set_node_fails, delete_node-Deletes,
  delete_node_fails,
}
use zoocooker.Storage.Store.Writes.{counted, create_path-cases, create_path-CreatesAt}
use zoocooker.Storage.Store.Apply.{run}

-- the number that the next sequential create of a path gets
abbrev pub next_number : Text → TreeStore → ℕ
next_number path s = counter (Dict.get path s.sequence_counters)

create_node-counters :
    (s : TreeStore) (path : Text) (bytes : Bytes) (ephemeral : Bool) (owner : Option SessionId)
    → (create_node path bytes ephemeral owner s).1.sequence_counters ≡ s.sequence_counters
create_node-counters s path bytes ephemeral owner =
    elim (Result-cases (create_node path bytes ephemeral owner s).0) [
      | inl (a, h) ↦ (create_node-Creates s path bytes ephemeral owner a h).counters
      | inr bad ↦ ap (λ t. t.sequence_counters) (create_node_fails s path bytes ephemeral owner bad)
    ]

-- A counter below 2^64 - 1 stays or moves by one.
abbrev Moves : ℕ → ℕ → Type 0
Moves m n = m + 1 < 2 ^ 64 → (m ≤ n) × (n ≤ m + 1)

next_number-counted :
    (requested path : Text) (s : TreeStore)
    → next_number path (counted true requested s)
      ≡ (if path == requested then incr64 (next_number path s) else next_number path s)
next_number-counted requested path s =
    let put = get-insert path requested (incr64 (next_number requested s)) s.sequence_counters in
    elim (text_eq.dec path requested) [
      | yes e ↦ ground (arith, put, e)
      | no ne ↦ ground (arith, put, ne)
    ]

incr64-Moves : (n : ℕ) → Moves n (incr64 n)
incr64-Moves n below = (omega arith, omega arith)

counted-Moves :
    (sequential : Bool) (requested path : Text) (s : TreeStore)
    → Moves (next_number path s) (next_number path (counted sequential requested s))
counted-Moves false requested path s below = (omega arith, omega arith)
counted-Moves true requested path s below =
    let moved = next_number-counted requested path s in
    elim (text_eq.dec path requested) [
      | yes e ↦
          let steps : next_number path (counted true requested s) ≡ incr64 (next_number path s) =
            moved ∙ ground (arith, e) in
          rw steps (incr64-Moves (next_number path s) below)
      | no ne ↦
          let stays : next_number path (counted true requested s) ≡ next_number path s =
            moved ∙ ground (arith, ne) in
          rw stays (omega arith, omega arith)
    ]

apply-Moves :
    (c : Command) (path : Text) (s : TreeStore)
    → Moves (next_number path s) (next_number path (apply c s).1)
unfolding apply
apply-Moves (create p bytes ephemeral sequential owner) path s below =
    create_path-cases
      (λ r.
        (next_number path s ≤ next_number path r.1)
        × (next_number path r.1 ≤ next_number path s + 1))
      s p bytes ephemeral sequential owner (λ e. (omega arith, omega arith))
      (λ requested normal ne.
        rw (create_node-counters (counted sequential requested s) _ bytes ephemeral owner)
          (counted-Moves sequential requested path s below))
apply-Moves (set_data p bytes expected) path s below =
    elim (Result-cases (set_node p bytes expected s).0) [
      | inl (a, h) ↦ rw ((set_node-Sets s p bytes expected a h).counters) (omega arith, omega arith)
      | inr bad ↦ rw (set_node_fails s p bytes expected bad) (omega arith, omega arith)
    ]
apply-Moves (delete p expected) path s below = elim (Result-cases (delete_node p expected s).0) [
  | inl (a, h) ↦ rw ((delete_node-Deletes s p expected a h).counters) (omega arith, omega arith)
  | inr bad ↦ rw (delete_node_fails s p expected bad) (omega arith, omega arith)
]

-- after any commands, as long as the number stays in its bounds
run-Moves :
    (path : Text) (s : TreeStore) (cs : List Command)
    → next_number path s + length cs < 2 ^ 64
    → (next_number path s ≤ next_number path (run s cs))
      × (next_number path (run s cs) ≤ next_number path s + length cs)
run-Moves path s [] below = (omega arith, omega arith)
run-Moves path s (c ∷ cs) below =
    let (up, most) = apply-Moves c path s (omega (arith, below)) in
    let (up', most') = run-Moves path (apply c s).1 cs (omega (arith, below, most)) in
    (omega (arith, up, up'), omega (arith, most, most'))

-- what a sequential create that succeeds has chosen
abbrev Chooses : TreeStore → Text → Text → TreeStore → Type 0
Chooses s path name t =
    (requested : Text) × (normalize path ≡ ok requested)
    × (name ≡ requested ++ padded (next_number requested s))
    × (next_number requested t ≡ incr64 (next_number requested s))

sequential_created :
    (s t : TreeStore) (path : Text) (bytes : Bytes) (ephemeral : Bool) (owner : Option SessionId)
    (a : Applied) (name : Text)
    → apply (create path bytes ephemeral true owner) s ≡ (ok a, t)
    → a.result ≡ created name
    → Chooses s path name t
unfolding apply
sequential_created s t path bytes ephemeral owner a name h e =
    let k = create_path-CreatesAt s path bytes ephemeral true owner a (ap (λ r. r.0) h) in
    let moved = ap (next_number k.requested) (sym (ap (λ r. r.1) h)) in
    (
      k.requested,
      k.normal,
      ground (arith, k.creates.result, e),
      moved
          ∙ ap (λ d. counter (Dict.get k.requested d)) k.creates.counters
          ∙ next_number-counted k.requested k.requested s
          ∙ ground arith,
    )

compare-lt : (m n : ℕ) → m < n → compare m n ≡ Ordering.lt
compare-lt m n h = ground (arith, h)

-- From the empty store, over fewer than 10^10 commands: of two sequential creates of one path that
-- succeed, with any commands before and between them, the later one gets the greater name.
pub sequential_names_increase :
    (before between : List Command) (path : Text) (bytes bytes' : Bytes)
    (ephemeral ephemeral' : Bool) (owner owner' : Option SessionId) (a a' : Applied)
    (name name' : Text) (s t : TreeStore)
    → length before + length between + 1 < 10 ^ 10
    → apply (create path bytes ephemeral true owner) (run default_store before) ≡ (ok a, s)
    → a.result ≡ created name
    → apply (create path bytes' ephemeral' true owner') (run s between) ≡ (ok a', t)
    → a'.result ≡ created name'
    → text_compare name name' ≡ Ordering.lt
unfolding Dict.get
sequential_names_increase before between path bytes bytes' ephemeral ephemeral' owner owner' a a'
      name name' s t below h e h' e' =
    let (r, normal, named, moved) =
      sequential_created (run default_store before) s path bytes ephemeral owner a name h e in
    let (r', normal', named', _) =
      sequential_created (run s between) t path bytes' ephemeral' owner' a' name' h' e' in
    let same : r' ≡ r = ground (arith, normal, normal') in
    let named'' : name' ≡ r ++ padded (next_number r (run s between)) =
      named' ∙ ap (λ x. x ++ padded (next_number x (run s between))) same in
    let early = run-Moves r default_store before (omega (arith, below)) in
    let late = run-Moves r s between (omega (arith, below, early.1, moved)) in
    let lower : next_number r (run default_store before) < next_number r (run s between) =
      omega (arith, below, early.1, moved, late.0) in
    rw (named, named'')
      (text_compare-padded r _ _ (omega (arith, below, early.1))
          (omega (arith, below, early.1, moved, late.1))
        ∙ compare-lt _ _ lower)
