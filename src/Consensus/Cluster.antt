-- ===== src/Consensus/Cluster.antt =====
-- `ReplicatedClusterConsensus`: one lock over a store for each node.
pub mod Tests
pub mod Replicas
pub mod History
mod Conformance
use zoocooker.Base.{
  ℕ, ◌+◌, Bool, true, false, Text, Option, none, some, List, [], ◌∷◌, ◌++◌, ◌==◌, text_eq, codes,
  if◌then◌else◌,
}
use zoocooker.Base.Dict.{Dict}
use zoocooker.Base.Dict
use zoocooker.Base.Exec.{Exec, Result, ok, err, panic, lift, gets, modify, pure, ok_or, ◌>>=◌, ◌>>◌}
use zoocooker.Protocol.Types.{
  Bytes, SessionId, Int32, incr64, Command, Applied, ZkError, ZkResult, no_node, not_leader,
}
use zoocooker.Storage.Store
use zoocooker.Storage.Store.{TreeStore, default_store, apply, ephemeral_paths_for_session}
use zoocooker.Consensus.Interface.{Consensus, Leadership, leader, follower}

pub record ClusterState : Type 0 where
  pub leader_id : Text
  pub term : ℕ
  pub stores : Dict Text TreeStore
  pub log : List Command
  pub committed : ℕ

-- collecting `(node_id, TreeStore::new())` into a map
unfoldable pub new_stores : List Text → Dict Text TreeStore → Dict Text TreeStore
new_stores [] stores = stores
new_stores (id ∷ ids) stores = new_stores ids (Dict.insert id default_store stores)

-- The state that the nodes of a new cluster share; `none` is the failed `assert!` on no nodes.
unfoldable pub cluster : List Text → Option ClusterState
unfolding new_stores
cluster [] = none
cluster (id ∷ ids) = some (record {
  leader_id = id;
  term = 1;
  stores = new_stores (id ∷ ids) [];
  log = [];
  committed = 0;
})

unfoldable pub set_leader : Text → ClusterState → ClusterState
set_leader id state = record state { leader_id = id; term = incr64 state.term }

unfoldable pub ensure_leader : ClusterState → Text → ZkResult (Unit {0})
ensure_leader state node_id =
    if state.leader_id == node_id then ok tt else err (not_leader (some state.leader_id))

-- The loop over the stores, in the order of the map; an error ends it where it stands.
unfoldable pub apply_all :
    Text
    → Command
    → Option Applied
    → Dict Text TreeStore
    → Result ZkError (Option Applied) × Dict Text TreeStore
apply_all leader_id command found [] = (ok found, [])
apply_all leader_id command found ((id, store) ∷ stores) =
    let (r, store') = apply command store in
    elim r [
      | err e ↦ (err e, (id, store') ∷ stores)
      | panic ↦ (panic, (id, store') ∷ stores)
      | ok applied ↦
          let (r', stores') =
            apply_all leader_id command (if id == leader_id then some applied else found) stores in
          (r', (id, store') ∷ stores')
    ]

abbrev on_stores : Text → Command → Exec ClusterState ZkError (Option Applied)
on_stores leader_id command state =
    let (r, stores) = apply_all leader_id command none state.stores in
    (r, record state { stores = stores })

unfoldable pub submit : Text → Command → Exec ClusterState ZkError Applied
unfolding ensure_leader
submit node_id command = do
  allowed ← gets (λ s. ensure_leader s node_id)
  lift allowed
  modify (λ s. record s { log = s.log ++ command ∷ [] })
  leader_id ← gets (λ s. s.leader_id)
  found ← on_stores leader_id command
  modify (λ s. record s { committed = incr64 s.committed })
  lift (ok_or found (no_node (codes "leader store missing")))

abbrev own_store : ClusterState → Text → ZkResult TreeStore
own_store state node_id =
    ok_or (Dict.get node_id state.stores) (no_node (codes "node store missing"))

abbrev then_read {ℓ} : {A B : Type ℓ} → ZkResult B → (B → ZkResult A) → ZkResult A
then_read (ok b) f = f b
then_read (err e) f = err e
then_read panic f = panic

unfoldable pub get_data : Text → ClusterState → Text → ZkResult (Bytes × Int32)
unfolding ensure_leader
get_data node_id state path =
    then_read (ensure_leader state node_id)
      λ _. then_read (own_store state node_id) λ store. Store.get_data store path

unfoldable pub exists : Text → ClusterState → Text → ZkResult (Option Int32)
unfolding ensure_leader
exists node_id state path =
    then_read (ensure_leader state node_id)
      λ _. then_read (own_store state node_id) λ store. Store.exists store path

unfoldable pub leadership : Text → ClusterState → Leadership
leadership node_id state = record {
  node_id = node_id;
  leader_id = some state.leader_id;
  term = state.term;
  role = if state.leader_id == node_id then leader else follower;
}

unfoldable pub ephemeral_paths : Text → ClusterState → SessionId → List Text
ephemeral_paths node_id state session_id = elim (Dict.get node_id state.stores) [
  | none ↦ []
  | some store ↦ ephemeral_paths_for_session store session_id
]

abbrev pub cluster_node : Text → Consensus ClusterState
cluster_node node_id = record {
  submit = submit node_id;
  get_data = get_data node_id;
  exists = exists node_id;
  leadership = leadership node_id;
  ephemeral_paths_for_session = ephemeral_paths node_id;
}
