-- ===== src/Server/Tasks/Tests.antt =====
-- A create and a cleanup at the same time, on a cluster of two.
use zoocooker.Base.{true, false, none, some, List, [], ◌∷◌, codes}
use zoocooker.Storage.Store.{default_store}
use zoocooker.Storage.Store.Shape.{default_store-IsTree}
use zoocooker.Consensus.Cluster.{ClusterState, cluster_node}
use zoocooker.Consensus.Kept.{AllTrees, cluster_node-Keeps}
use zoocooker.Server.Metrics.{default_config}
use zoocooker.Server.Service.{Texts, with_config}
use zoocooker.Server.Endpoint.{Env}
use zoocooker.Server.Requests.{Request, Event, call, tick}
use zoocooker.Server.Requests.Sound.State.{IsSound}
use zoocooker.Server.Tasks.{Move, arrives, runs, run_moves}
use zoocooker.Server.Tasks.Interleaving.{run_moves-IsSound}

abbrev texts : Texts
texts = record {
  display = λ e. [];
  parse_uuid = λ raw. some 7;
  print_uuid = λ id. [];
  limit_text = λ n. [];
}

abbrev env : Env
env = record { closed = λ tx. false; tx = 0; fresh = 7; now = 0 }

abbrev beat : Event
beat = call env (Request.heartbeat (record { session_id = none }))

abbrev owned : Event
owned = call env (
    Request.create (record {
      path = codes "/e";
      content = [];
      ephemeral = true;
      sequential = false;
      session_id = some (codes "7");
    }))

-- the create checks its session, and the whole of the cleanup runs before its submit
abbrev moves : List Move
moves =
    arrives beat
    ∷ runs 0
    ∷ arrives owned
    ∷ runs 1
    ∷ arrives (tick 20_000)
    ∷ runs 2
    ∷ runs 2
    ∷ runs 2
    ∷ runs 2
    ∷ runs 1
    ∷ runs 1
    ∷ runs 1
    ∷ []

abbrev pair : ClusterState
pair = record {
  leader_id = codes "a";
  term = 1;
  stores = (codes "a", default_store) ∷ (codes "b", default_store) ∷ [];
  log = [];
  committed = 0;
}

run_moves-IsSound_example :
    IsSound
      (λ (state : ClusterState). AllTrees state.stores)
      (run_moves (cluster_node (codes "a")) texts moves [] (with_config pair default_config)).1
run_moves-IsSound_example =
    run_moves-IsSound (cluster_node (codes "a")) (λ (state : ClusterState). AllTrees state.stores)
      texts default_config pair moves (cluster_node-Keeps (codes "a"))
      (default_store-IsTree, (default_store-IsTree, tt))
