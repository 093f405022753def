-- ===== src/Consensus/Cluster/Conformance.antt =====
-- The unit tests of crates/consensus/src/lib.rs on the replicated cluster, on the model.
use zoocooker.Base.{
  ◌≡◌, refl, Bool, true, false, ◌&&◌, Text, none, some, List, [], ◌∷◌, ◌==◌, codes, nat_eq, text_eq,
  option_eq,
}
use zoocooker.Base.Dict
use zoocooker.Base.Assert.{unwrap, unwrap_err, assert, Passes}
use zoocooker.Base.Exec.{Exec, pure, ok, gets, lift, modify, expect, ◌>>=◌, ◌>>◌}
use zoocooker.Protocol.Types.{Bytes, Command, create, ZkError, not_leader}
use zoocooker.Protocol.Paths.{normalize, parent_of, leaf_name}
use zoocooker.Storage.Order.{set_insert, text_compare}
use zoocooker.Storage.Store.{apply, create_path, choose_path, create_node, find_node, default_store}
use zoocooker.Storage.Store
use zoocooker.Consensus.Interface.{Role, leader, follower}
use zoocooker.Consensus.Cluster.{
  ClusterState, cluster, new_stores, set_leader, ensure_leader, apply_all, submit, leadership,
}

abbrev Test : Type 0
Test = Exec ClusterState ZkError (Unit {0})

abbrev n1 : Text
n1 = codes "n1"

abbrev n2 : Text
n2 = codes "n2"

abbrev n3 : Text
n3 = codes "n3"

-- the state behind `ReplicatedClusterConsensus::cluster(["n1", "n2", "n3"])`
abbrev three : ClusterState
three = record {
  leader_id = n1;
  term = 1;
  stores = new_stores (n1 ∷ n2 ∷ n3 ∷ []) [];
  log = [];
  committed = 0;
}

three_new : cluster (n1 ∷ n2 ∷ n3 ∷ []) ≡ some three
unfolding cluster
three_new = refl

abbrev create_at : Text → Bytes → Command
create_at path bytes = create path bytes false false none

abbrev names_leader : Text → ZkError → Bool
names_leader id (not_leader (some leader_id)) = leader_id == id
names_leader id _ = false

abbrev is_follower : Role → Bool
is_follower follower = true
is_follower leader = false

abbrev is_leader : Role → Bool
is_leader follower = false
is_leader leader = true

abbrev replicated_cluster_rejects_follower_writes : Test
replicated_cluster_rejects_follower_writes = do
  error ← unwrap_err (submit n2 (create_at (codes "/app") []))
  assert (names_leader n1 error)
  found ← gets (leadership n2)
  assert (is_follower found.role)

-- the loop over the nodes: each one's own store has the data
abbrev holds_at : Text → Bytes → List Text → Test
holds_at path bytes [] s = (ok tt, s)
holds_at path bytes (id ∷ ids) s =
    (do
      store ← gets (λ s. Dict.get id s.stores)
      store ← lift (expect store)
      found ← unwrap (lift (Store.get_data store path))
      assert (found.0 == bytes && found.1 == 0)
      holds_at path bytes ids)
      s

abbrev replicated_cluster_applies_committed_write_to_all_nodes : Test
replicated_cluster_applies_committed_write_to_all_nodes = do
  unwrap (submit n1 (create_at (codes "/app") (codes "one")))
  committed ← gets (λ s. s.committed)
  assert (committed == 1)
  holds_at (codes "/app") (codes "one") (n1 ∷ n2 ∷ n3 ∷ [])

abbrev replicated_cluster_surfaces_leadership_changes : Test
replicated_cluster_surfaces_leadership_changes = do
  modify (set_leader n2)
  first ← gets (leadership n1)
  assert (is_follower first.role)
  second ← gets (leadership n2)
  assert (is_leader second.role)
  unwrap (submit n2 (create_at (codes "/after") []))
  pure tt

cluster_tests_pass :
    Passes replicated_cluster_rejects_follower_writes three
    × Passes replicated_cluster_applies_committed_write_to_all_nodes three
    × Passes replicated_cluster_surfaces_leadership_changes three
unfolding submit apply_all ensure_leader set_leader leadership new_stores Store.get_data find_node
    apply create_path choose_path create_node normalize parent_of leaf_name set_insert text_compare
    Dict.get Dict.insert Dict.contains_key nat_eq text_eq option_eq
cluster_tests_pass = (refl, refl, refl)
