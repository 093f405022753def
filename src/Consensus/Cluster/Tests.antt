-- ===== src/Consensus/Cluster/Tests.antt =====
-- A cluster of two nodes at concrete commands.
use zoocooker.Base.{
  ◌%◌, ◌^◌, ◌≢◌, ◌≡◌, refl, true, false, none, some, [], ◌∷◌, codes, nat_eq, text_eq, option_eq,
  arith,
}
use zoocooker.Base.Exec.{panic, ok, is_ok}
use zoocooker.Consensus.Kept.{AllTrees, submit_keeps_trees}
use zoocooker.Storage.Store.Shape.{default_store-IsTree}
use zoocooker.Base.Dict
use zoocooker.Protocol.Types.{
  Command, create, Applied, created, node_created, node_children_changed,
}
use zoocooker.Protocol.Paths.{normalize, parent_of, leaf_name}
use zoocooker.Storage.Order.{set_insert, text_compare, padded}
use zoocooker.Storage.Store.{TreeStore, default_store, apply, create_path, choose_path, create_node}
use zoocooker.Storage.Store.Same.{SameStore-refl}
use zoocooker.Storage.Store.Contents.{accepted_on, contents_of, replay_on}
use zoocooker.Consensus.Cluster.{ClusterState, submit, apply_all, cluster, new_stores}
use zoocooker.Consensus.Cluster.History.{accepts, settles, Reach, here, next, replica_contents}
use zoocooker.Consensus.Cluster.Replicas.{
  AllSame, submit_commits, submit_refuses, refused_sequential_splits,
}

abbrev pair : ClusterState
pair = record {
  leader_id = codes "a";
  term = 1;
  stores = (codes "a", default_store) ∷ (codes "b", default_store) ∷ [];
  log = [];
  committed = 0;
}

pair-AllSame : AllSame default_store pair.stores
pair-AllSame = (SameStore-refl default_store, (SameStore-refl default_store, tt))

abbrev create_app : Command
create_app = create (codes "/app") (1 ∷ []) false false none

abbrev create_orphan : Command
create_orphan = create (codes "/x/y") [] false false none

abbrev app_applied : Applied
app_applied = record {
  result = created (codes "/app");
  watch_events =
      record { path = codes "/app"; kind = node_created }
      ∷ record { path = codes "/"; kind = node_children_changed }
      ∷ [];
}

create_app-ok : (apply create_app default_store).0 ≡ ok app_applied
unfolding apply create_path choose_path create_node normalize parent_of leaf_name set_insert
    text_compare Dict.get Dict.insert Dict.contains_key nat_eq text_eq option_eq
create_app-ok = refl

create_orphan-fails : is_ok (apply create_orphan default_store).0 ≡ false
unfolding apply create_path choose_path create_node normalize parent_of leaf_name set_insert
    text_compare Dict.get Dict.insert Dict.contains_key nat_eq text_eq option_eq
create_orphan-fails = refl

orphan-sequential-fails :
    is_ok (apply (create (codes "/x/y-") [] false true none) default_store).0 ≡ false
unfolding apply create_path choose_path create_node normalize parent_of leaf_name set_insert
    text_compare Dict.get Dict.insert Dict.contains_key nat_eq text_eq option_eq padded
orphan-sequential-fails = refl

normalize_orphan : normalize (codes "/x/y-") ≡ ok (codes "/x/y-")
unfolding normalize nat_eq text_eq
normalize_orphan = refl

submit_commits_example :
    let (reply, after) = submit (codes "a") create_app pair in
    (reply ≡ ok app_applied)
    × AllSame (apply create_app default_store).1 after.stores
    × (after.log ≡ create_app ∷ [])
    × (after.committed ≡ 1)
submit_commits_example =
    submit_commits pair default_store create_app app_applied
      (unfold Dict.contains_key in unfold Dict.get in unfold text_eq in refl) pair-AllSame
      create_app-ok

submit_refuses_example : (submit (codes "a") create_orphan pair).1.stores ≡ pair.stores
submit_refuses_example =
    submit_refuses pair (codes "a") default_store create_orphan pair-AllSame create_orphan-fails
      refl

refused_sequential_splits_example :
    ¬ AllSame default_store
      (submit (codes "a") (create (codes "/x/y-") [] false true none) pair).1.stores
refused_sequential_splits_example =
    refused_sequential_splits pair default_store default_store (codes "/x/y-") (codes "/x/y-") []
      false none (codes "a") (codes "b") default_store default_store [] refl pair-AllSame
      normalize_orphan (ground arith) orphan-sequential-fails

new_pair : cluster (codes "a" ∷ codes "b" ∷ []) ≡ some pair
unfolding cluster new_stores Dict.insert nat_eq text_eq
new_pair = refl

abbrev after_app : ClusterState
after_app = (submit (codes "a") create_app pair).1

abbrev after_orphan : ClusterState
after_orphan = (submit (codes "a") create_orphan after_app).1

pair-Reach : Reach pair after_orphan
pair-Reach =
    next (next here (accepts (codes "a") create_app app_applied submit_commits_example.0 refl))
      (settles (codes "a") create_orphan refl refl)

abbrev app_store : TreeStore
app_store = (apply create_orphan (apply create_app default_store).1).1

app_store-found : Dict.get (codes "b") after_orphan.stores ≡ some app_store
unfolding submit apply_all apply create_path choose_path create_node normalize parent_of leaf_name
    set_insert text_compare Dict.get Dict.insert Dict.contains_key nat_eq text_eq option_eq
app_store-found = refl

replica_contents_example :
    (contents_of app_store ≡ replay_on (contents_of default_store) after_orphan.log)
    × (after_orphan.committed ≡ accepted_on (contents_of default_store) after_orphan.log % 2 ^ 64)
replica_contents_example =
    replica_contents (codes "a" ∷ codes "b" ∷ []) pair after_orphan (codes "b") app_store new_pair
      pair-Reach app_store-found

submit_keeps_trees_example :
    AllTrees (submit (codes "a") create_app pair).1.stores
    × ((submit (codes "a") create_app pair).0 ≢ panic)
submit_keeps_trees_example =
    submit_keeps_trees (codes "a") create_app pair
      (default_store-IsTree, (default_store-IsTree, tt))
