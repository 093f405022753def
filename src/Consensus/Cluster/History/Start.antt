-- ===== src/Consensus/Cluster/History/Start.antt =====
-- A new cluster: its replicas are the replay of the empty log.
use zoocooker.Base.{◌≡◌, refl, subst, true, Text, some, List, [], ◌∷◌, arith, text_eq}
use zoocooker.Base.Dict.{Dict, get-insert}
use zoocooker.Base.Dict
use zoocooker.Storage.Store.{TreeStore, default_store}
use zoocooker.Storage.Store.Same.{SameStore-refl}
use zoocooker.Consensus.Cluster.{ClusterState, cluster, new_stores}
use zoocooker.Consensus.Cluster.Replicas.{AllSame}
use zoocooker.Consensus.Cluster.History.Replay.{IsReplay}

-- the state that the nodes of a new cluster share
AllSame-insert :
    (id : Text) (stores : Dict Text TreeStore)
    → AllSame default_store stores
    → AllSame default_store (Dict.insert id default_store stores)
unfolding Dict.insert
AllSame-insert id [] v = (SameStore-refl default_store, tt)
AllSame-insert id ((j, t) ∷ stores) v = elim (text_eq.dec id j) [
  | yes e ↦
      let put : (id, default_store) ∷ stores ≡ Dict.insert id default_store ((j, t) ∷ stores) =
        ground (arith, e) in
      subst (AllSame default_store) put (SameStore-refl default_store, v.1)
  | no ne ↦
      let put : (j, t) ∷ Dict.insert id default_store stores
          ≡ Dict.insert id default_store ((j, t) ∷ stores) =
        ground (arith, ne) in
      subst (AllSame default_store) put (v.0, AllSame-insert id stores v.1)
]

AllSame-new_stores :
    (ids : List Text) (stores : Dict Text TreeStore)
    → AllSame default_store stores
    → AllSame default_store (new_stores ids stores)
unfolding new_stores
AllSame-new_stores [] stores v = v
AllSame-new_stores (id ∷ ids) stores v =
    AllSame-new_stores ids (Dict.insert id default_store stores) (AllSame-insert id stores v)

contains_key-new_stores :
    (id : Text) (ids : List Text) (stores : Dict Text TreeStore)
    → Dict.contains_key id stores ≡ true
    → Dict.contains_key id (new_stores ids stores) ≡ true
unfolding new_stores Dict.contains_key
contains_key-new_stores id [] stores h = h
contains_key-new_stores id (j ∷ ids) stores h =
    contains_key-new_stores id ids (Dict.insert j default_store stores)
      (ground (arith, h, get-insert id j default_store stores))

abbrev new_cluster : Text → List Text → ClusterState
new_cluster id ids = record {
  leader_id = id;
  term = 1;
  stores = new_stores (id ∷ ids) [];
  log = [];
  committed = 0;
}

pub cluster-IsReplay : (ids : List Text) (m : ClusterState) → cluster ids ≡ some m → IsReplay m
unfolding cluster
cluster-IsReplay [] m h = absurd (ground (arith, h))
cluster-IsReplay (id ∷ ids) m h =
    let same : new_cluster id ids ≡ m = ground (arith, h) in
    subst IsReplay same (record {
      replicas = AllSame-new_stores (id ∷ ids) [] tt;
      present =
          unfold new_stores in
          contains_key-new_stores id ids (Dict.insert id default_store [])
            (unfold Dict.contains_key in ground (arith, get-insert id id default_store []));
      counted = refl;
    })
