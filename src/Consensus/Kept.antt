-- ===== src/Consensus/Kept.antt =====
-- The nodes form a tree in every store of each implementation of `Consensus`, after any submit.
use zoocooker.Base.{
  ◌≡◌, ◌≢◌, refl, sym, subst, ℕ, ◌⊎◌, Text, Option, none, some, [], ◌∷◌, All, arith, inl, inr,
  if◌then◌else◌, ◌==◌, text_eq,
}
use zoocooker.Base.Dict.{Dict}
use zoocooker.Base.Exec.{Result-split, panic}
use zoocooker.Protocol.Types.{Command, Applied}
use zoocooker.Storage.Store.{TreeStore, apply}
use zoocooker.Storage.Store.Shape.{IsTree}
use zoocooker.Storage.Store.Apply.{apply-IsTree, apply-ne-panic}
use zoocooker.Storage.Persistence.{PersistenceError, Codec, Outcome, done, failed, append}
use zoocooker.Consensus.Interface.{Keeps}
use zoocooker.Consensus.Single.{single_node}
use zoocooker.Consensus.Persistent.{PersistentNode, persistent_node, submit}
use zoocooker.Consensus.Cluster.{ClusterState, cluster_node, apply_all}
use zoocooker.Consensus.Cluster

abbrev pub OnTree : TreeStore → Type 0
OnTree s = IsTree s.nodes

pub single_node-Keeps : Keeps single_node OnTree
single_node-Keeps = record {
  submit = λ c s v. apply-IsTree s c v;
  returns = λ c s v. apply-ne-panic s c;
}

Outcome-cases : (o : Outcome) → (o ≡ done) ⊎ ((n : ℕ) × (o ≡ failed n))
Outcome-cases done = inl refl
Outcome-cases (failed n) = inr (n, refl)

-- whether the log takes the record or not
module _ (codec : Codec) (describe : PersistenceError → Text) (outcome : Outcome) where
  store-submit :
      (c : Command) (node : PersistentNode)
      → (submit codec describe outcome c node).1.store ≡ (apply c node.store).1
  unfolding submit append
  store-submit c node = elim (Result-split (apply c node.store).0) [
    | inl (a, e) ↦ elim (Outcome-cases outcome) [
      | inl w ↦ ground (arith, e, w)
      | inr (n, w) ↦ ground (arith, e, w)
    ]
    | inr (inl (x, e)) ↦ ground (arith, e)
    | inr (inr e) ↦ ground (arith, e)
  ]

  submit-ne-panic :
      (c : Command) (node : PersistentNode) → (submit codec describe outcome c node).0 ≢ panic
  unfolding submit append
  submit-ne-panic c node h = elim (Result-split (apply c node.store).0) [
    | inl (a, e) ↦ elim (Outcome-cases outcome) [
      | inl w ↦ ground (arith, e, w, h)
      | inr (n, w) ↦ ground (arith, e, w, h)
    ]
    | inr (inl (x, e)) ↦ ground (arith, e, h)
    | inr (inr e) ↦ apply-ne-panic node.store c e
  ]

  pub persistent_node-Keeps :
      Keeps (persistent_node codec describe outcome) (λ node. OnTree node.store)
  persistent_node-Keeps = record {
    submit = λ c node v. subst OnTree (sym (store-submit c node)) (apply-IsTree node.store c v);
    returns = λ c node v. submit-ne-panic c node;
  }

-- every replica's
abbrev pub AllTrees : Dict Text TreeStore → Type 0
AllTrees = All (λ e. OnTree e.1)

apply_all-AllTrees :
    (leader : Text) (c : Command) (found : Option Applied) (stores : Dict Text TreeStore)
    → AllTrees stores
    → AllTrees (apply_all leader c found stores).1
unfolding apply_all
apply_all-AllTrees leader c found [] v = tt
apply_all-AllTrees leader c found ((id, t) ∷ stores) v =
    let first = apply-IsTree t c v.0 in
    let rest = λ (a : Applied).
      apply_all-AllTrees leader c (if id == leader then some a else found) stores v.1 in
    elim (Result-split (apply c t).0) [
      | inl (a, e) ↦ rw (e, apply_all) (first, rest a)
      | inr (inl (x, e)) ↦ rw (e, apply_all) (first, v.1)
      | inr (inr e) ↦ rw (e, apply_all) (first, v.1)
    ]

apply_all-ne-panic :
    (leader : Text) (c : Command) (found : Option Applied) (stores : Dict Text TreeStore)
    → (apply_all leader c found stores).0 ≢ panic
unfolding apply_all
apply_all-ne-panic leader c found [] h = cc
apply_all-ne-panic leader c found ((id, t) ∷ stores) h = elim (Result-split (apply c t).0) [
  | inl (a, e) ↦
      apply_all-ne-panic leader c (if id == leader then some a else found) stores
        (ground (arith, e, h))
  | inr (inl (x, e)) ↦ ground (arith, e, h)
  | inr (inr e) ↦ apply-ne-panic t c e
]

cluster-AllTrees :
    (node_id : Text) (c : Command) (state : ClusterState)
    → AllTrees state.stores
    → AllTrees (Cluster.submit node_id c state).1.stores
unfolding Cluster.submit
cluster-AllTrees node_id c state v =
    ground (arith, v, apply_all-AllTrees state.leader_id c none state.stores v)

cluster-ne-panic :
    (node_id : Text) (c : Command) (state : ClusterState)
    → (Cluster.submit node_id c state).0 ≢ panic
unfolding Cluster.submit
cluster-ne-panic node_id c state h =
    ground (arith, h, apply_all-ne-panic state.leader_id c none state.stores)

-- On a cluster where the nodes of every replica's store form a tree: a submit at any node, also one
-- that is refused by some of the replicas, leaves every replica's store a tree, and does not panic.
pub submit_keeps_trees :
    (node_id : Text) (c : Command) (state : ClusterState)
    → AllTrees state.stores
    → AllTrees (Cluster.submit node_id c state).1.stores
      × ((Cluster.submit node_id c state).0 ≢ panic)
submit_keeps_trees node_id c state v =
    (cluster-AllTrees node_id c state v, cluster-ne-panic node_id c state)

pub cluster_node-Keeps :
    (node_id : Text) → Keeps (cluster_node node_id) (λ state. AllTrees state.stores)
cluster_node-Keeps node_id = record {
  submit = λ c state v. (submit_keeps_trees node_id c state v).0;
  returns = λ c state v. (submit_keeps_trees node_id c state v).1;
}
