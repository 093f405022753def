-- ===== src/Storage/Store/Tests.antt =====
-- store.rs at concrete inputs: the flows of its own tests.
mod Histories
use zoocooker.Storage.Store.Shape.{IsTree, default_store-IsTree}
use zoocooker.Storage.Store.Apply.{apply-IsTree, failure_keeps_store, apply-ne-panic}
use zoocooker.Storage.Store.View.{view, MapStep, apply-MapStep}
use zoocooker.Storage.Store.Same.{SameStore, SameRun, apply-SameRun}
use zoocooker.Base.Exec.{panic, is_ok, ok}
use zoocooker.Protocol.Types.{
  created, node_created, node_children_changed, Command, create, Applied,
}
use zoocooker.Base.{
  ◌≢◌, arith, ◌≡◌, refl, false, true, none, some, List, [], ◌∷◌, codes, nat_eq, text_eq, option_eq,
}
use zoocooker.Base.Dict
use zoocooker.Protocol.Paths.{normalize, parent_of, leaf_name}
use zoocooker.Storage.Order.{
  set_insert, sort_deepest_first, padded, text_compare, deepest_first, depth,
}
use zoocooker.Storage.Store.{
  TreeStore, default_store, apply, create_path, choose_path, create_node, set_node, delete_node,
  get_data, child_names, ephemeral_paths_for_session,
}

-- the store after a list of commands, whatever their results
abbrev after : TreeStore → List Command → TreeStore
after s [] = s
after s (c ∷ cs) = after (apply c s).1 cs

abbrev app_created : TreeStore
app_created = after default_store (create (codes "/app") (1 ∷ []) false false none ∷ [])

create_then_read :
    (get_data app_created (codes "/app") ≡ ok (1 ∷ [], 0))
    × (child_names app_created (codes "/") ≡ ok (codes "app" ∷ []))
unfolding apply create_path choose_path create_node set_node delete_node get_data child_names
    normalize parent_of leaf_name set_insert text_compare Dict.get Dict.insert Dict.contains_key
    nat_eq text_eq option_eq
create_then_read = (refl, refl)

abbrev workers : TreeStore
workers =
    after default_store
      (create (codes "/w-") [] false true none ∷ create (codes "/w-") [] false true none ∷ [])

sequential_names :
    child_names workers (codes "/") ≡ ok (codes "w-0000000000" ∷ codes "w-0000000001" ∷ [])
unfolding apply create_path choose_path create_node set_node delete_node child_names normalize
    parent_of leaf_name set_insert text_compare padded Dict.get Dict.insert Dict.contains_key nat_eq
    text_eq option_eq
sequential_names = refl

abbrev owned : TreeStore
owned = after default_store (
    create (codes "/a") [] false false none
    ∷ create (codes "/b") [] false false none
    ∷ create (codes "/a/e") [] true false (some 7)
    ∷ create (codes "/b/e") [] true false (some 7)
    ∷ create (codes "/b/e/x") [] true false (some 7)
    ∷ [])

deepest_of_owned : ephemeral_paths_for_session owned 7 ≡ codes "/b/e" ∷ codes "/a/e" ∷ []
unfolding apply create_path choose_path create_node set_node delete_node ephemeral_paths_for_session
    normalize parent_of leaf_name set_insert text_compare sort_deepest_first deepest_first depth
    Dict.get Dict.insert Dict.contains_key nat_eq text_eq option_eq
deepest_of_owned = refl

abbrev create_app : Command
create_app = create (codes "/app") (1 ∷ []) true false (some 7)

abbrev create_orphan : Command
create_orphan = create (codes "/x/y") [] false false none

abbrev app_applied : Applied
app_applied = record {
  result = created (codes "/app");
  watch_events =
      record { path = codes "/app"; kind = node_created }
      ∷ record { path = codes "/"; kind = node_children_changed }
      ∷ [];
}

create_app-ok : (apply create_app default_store).0 ≡ ok app_applied
unfolding apply create_path choose_path create_node set_node delete_node normalize parent_of
    leaf_name set_insert text_compare Dict.get Dict.insert Dict.contains_key nat_eq text_eq
    option_eq
create_app-ok = refl

create_orphan-fails : is_ok (apply create_orphan default_store).0 ≡ false
unfolding apply create_path choose_path create_node set_node delete_node normalize parent_of
    leaf_name set_insert text_compare Dict.get Dict.insert Dict.contains_key nat_eq text_eq
    option_eq
create_orphan-fails = refl

apply-IsTree_example : IsTree (apply create_app default_store).1.nodes
apply-IsTree_example = apply-IsTree default_store create_app default_store-IsTree

apply-MapStep_example :
    MapStep
      (view default_store)
      (view (apply create_app default_store).1)
      create_app
      (created (codes "/app"))
apply-MapStep_example =
    apply-MapStep default_store create_app app_applied default_store-IsTree create_app-ok

failure_keeps_store_example : (apply create_orphan default_store).1 ≡ default_store
failure_keeps_store_example =
    failure_keeps_store default_store create_orphan create_orphan-fails refl

apply-ne-panic_example : (apply create_app default_store).0 ≢ panic
apply-ne-panic_example = apply-ne-panic default_store create_app
