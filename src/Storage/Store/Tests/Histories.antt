-- ===== src/Storage/Store/Tests/Histories.antt =====
-- store.rs over short histories: two sequential creates, and two sets of one node.
use Prim.Native.Nat.{Ordering}
use zoocooker.Storage.Store.Sequence.{sequential_names_increase}
use zoocooker.Storage.Store.Versions.{Spares, stale_set_refused}
use zoocooker.Storage.Store.Apply.{run}
use zoocooker.Base.Exec.{Exec, err, ok}
use zoocooker.Protocol.Types.{
  created, node_data, node_data_changed, ZkError, bad_version, set_data, Int32, node_created,
  node_children_changed, Command, create, delete, Applied,
}
use zoocooker.Base.{
  ◌≢◌, arith, Text, All, ap, ◌≡◌, refl, false, true, none, some, List, [], ◌∷◌, codes, nat_eq,
  text_eq, option_eq,
}
use zoocooker.Base.Dict
use zoocooker.Protocol.Paths.{normalize, parent_of, leaf_name}
use zoocooker.Storage.Order.{set_insert, set_remove, padded, text_compare}
use zoocooker.Storage.Store.{
  TreeStore, default_store, apply, create_path, choose_path, create_node, set_node, delete_node,
  check_version,
}

-- a reply with the state that comes with it
with_state : {A B : Type 0} {x : A × B} {y : A} → x.0 ≡ y → x ≡ (y, x.1)
with_state {x = x} e = ap (λ z. (z, x.1)) e

-- two sequential creates of "/w-", with a delete of the first between them
abbrev create_worker : Command
create_worker = create (codes "/w-") [] false true none

abbrev worker_applied : Text → Applied
worker_applied name = record {
  result = created name;
  watch_events =
      record { path = name; kind = node_created }
      ∷ record { path = codes "/"; kind = node_children_changed }
      ∷ [];
}

abbrev one_worker : TreeStore
one_worker = (apply create_worker default_store).1

abbrev worker_gone : TreeStore
worker_gone = run one_worker (delete (codes "/w-0000000000") none ∷ [])

first_worker : (apply create_worker default_store).0 ≡ ok (worker_applied (codes "/w-0000000000"))
unfolding apply create_path choose_path create_node normalize parent_of leaf_name set_insert
    text_compare padded Dict.get Dict.insert Dict.contains_key nat_eq text_eq option_eq
first_worker = refl

second_worker : (apply create_worker worker_gone).0 ≡ ok (worker_applied (codes "/w-0000000001"))
unfolding apply create_path choose_path create_node delete_node normalize parent_of leaf_name
    set_insert set_remove text_compare padded Dict.get Dict.insert Dict.remove Dict.contains_key
    nat_eq text_eq option_eq
second_worker = refl

sequential_names_increase_example :
    text_compare (codes "/w-0000000000") (codes "/w-0000000001") ≡ Ordering.lt
sequential_names_increase_example =
    sequential_names_increase [] (delete (codes "/w-0000000000") none ∷ []) (codes "/w-") [] []
      false false none none (worker_applied (codes "/w-0000000000"))
      (worker_applied (codes "/w-0000000001")) (codes "/w-0000000000") (codes "/w-0000000001")
      one_worker (apply create_worker worker_gone).1 (omega arith) (with_state first_worker) refl
      (with_state second_worker) refl

-- "/app", created and set once at version 0; then a child comes, and another set
abbrev app : TreeStore
app = (apply (create (codes "/app") (1 ∷ []) false false none) default_store).1

abbrev app_set : Exec TreeStore ZkError Applied
app_set = apply (set_data (codes "/app") (2 ∷ []) (some 0))

abbrev app_applied : Applied
app_applied = record {
  result = node_data (2 ∷ []) 1;
  watch_events = record { path = codes "/app"; kind = node_data_changed } ∷ [];
}

app_set-ok : (app_set app).0 ≡ ok app_applied
unfolding apply create_path choose_path create_node set_node check_version normalize parent_of
    leaf_name set_insert text_compare Dict.get Dict.insert Dict.contains_key nat_eq text_eq
    option_eq
app_set-ok = refl

app-normal : normalize (codes "/app") ≡ ok (codes "/app")
unfolding normalize nat_eq text_eq
app-normal = refl

abbrev later : List Command
later =
    create (codes "/app/x") [] false false none
    ∷ set_data (codes "/app") (3 ∷ []) none
    ∷ delete (codes "/app/x") none
    ∷ []

later-Spares : All (Spares (codes "/app")) later
unfolding normalize nat_eq text_eq
later-Spares = (tt, (tt, ((λ e. cc), tt)))

stale_set_refused_example :
    (w : Int32) × (w ≢ 0)
    × (apply (set_data (codes "/app") [] (some 0)) (run (app_set app).1 later)
        ≡ (err (bad_version 0 w), run (app_set app).1 later))
stale_set_refused_example =
    stale_set_refused app (app_set app).1 (codes "/app") (codes "/app") (2 ∷ []) [] 0 app_applied
      later (omega arith) (omega arith) app-normal (with_state app_set-ok) later-Spares
