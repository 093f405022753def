-- ===== src/Consensus/Cluster/History.antt =====
-- A cluster over time: its replicas are what the shared log, replayed on an empty store, gives.
mod Replay
mod Start
use zoocooker.Base.{
  ℕ, ap, ◌%◌, ◌^◌, ◌≡◌, sym, ◌∙◌, subst, true, false, Text, some, List, [], ◌∷◌, arith, text_eq,
}
use zoocooker.Consensus.Cluster.History.Replay.{IsReplay, submit-IsReplay}
use zoocooker.Consensus.Cluster.History.Start.{cluster-IsReplay}
use zoocooker.Base.Dict.{Dict}
use zoocooker.Base.Dict
use zoocooker.Base.Exec.{ok}
use zoocooker.Protocol.Types.{Command, Applied}
use zoocooker.Storage.Store.{TreeStore, default_store}
use zoocooker.Storage.Store.Apply.{is_sequential, run}
use zoocooker.Storage.Store.Same.{SameStore}
use zoocooker.Storage.Store.Contents.{
  contents_of, replay_on, accepted, accepted_on, contents_of-accepted, contents_of-eq_iff,
  contents_of-run,
}
use zoocooker.Consensus.Cluster.{ClusterState, cluster, set_leader, submit}
use zoocooker.Consensus.Cluster.Replicas.{AllSame}

-- What may happen: a node is given a command, which is accepted or is no sequential create; a node
-- that has a store becomes the leader.
pub data Step (m m' : ClusterState) : Type 0 where
  accepts :
      (node_id : Text) (c : Command) (a : Applied)
      → (submit node_id c m).0 ≡ ok a
      → m' ≡ (submit node_id c m).1
      → Step m m'
  settles :
      (node_id : Text) (c : Command)
      → is_sequential c ≡ false
      → m' ≡ (submit node_id c m).1
      → Step m m'
  leads : (id : Text) → Dict.contains_key id m.stores ≡ true → m' ≡ set_leader id m → Step m m'

pub data Reach (m : ClusterState) : ClusterState → Type 0 where
  here : Reach m m
  next : {n o : ClusterState} → Reach m n → Step n o → Reach m o

Step-IsReplay : {m m' : ClusterState} → Step m m' → IsReplay m → IsReplay m'
Step-IsReplay {m} {m'} (accepts node_id c a h e) v =
    subst IsReplay (sym e) (submit-IsReplay m node_id c (λ bad. absurd (ground (arith, h, bad))) v)
Step-IsReplay {m} {m'} (settles node_id c k e) v =
    subst IsReplay (sym e) (submit-IsReplay m node_id c (λ bad. k) v)
Step-IsReplay {m} {m'} (leads id h e) v =
    subst IsReplay (sym e)
      (unfold set_leader in record { replicas = v.replicas; present = h; counted = v.counted })

Reach-IsReplay : {m m' : ClusterState} → Reach m m' → IsReplay m → IsReplay m'
Reach-IsReplay here v = v
Reach-IsReplay (next r st) v = Step-IsReplay st (Reach-IsReplay r v)

-- From a new cluster, after any history of commands that nodes are given, each accepted or no
-- sequential create, and of changes of the leader to a node that has a store: every replica holds the
-- entries that an empty store has after the commands of the shared log in their order, and the count
-- of commits is the number of these commands that succeed, modulo 2^64.
pub replicas_replay_log :
    (ids : List Text) (start m : ClusterState)
    → cluster ids ≡ some start
    → Reach start m
    → AllSame (run default_store m.log) m.stores
      × (m.committed ≡ accepted default_store m.log % 2 ^ 64)
replicas_replay_log ids start m h r =
    let v = Reach-IsReplay r (cluster-IsReplay ids start h) in (v.replicas, v.counted)

AllSame-get :
    (s t : TreeStore) (id : Text) (stores : Dict Text TreeStore)
    → AllSame s stores
    → Dict.get id stores ≡ some t
    → SameStore t s
unfolding Dict.get
AllSame-get s t id [] v h = cc
AllSame-get s t id ((j, u) ∷ stores) v h = elim (text_eq.dec id j) [
  | yes e ↦ let same : u ≡ t = ground (arith, e, h) in subst (λ x. SameStore x s) same v.0
  | no ne ↦ AllSame-get s t id stores v.1 (ground (arith, ne, h))
]

-- From a new cluster, after any history of commands that nodes are given, each accepted or no
-- sequential create, and of changes of the leader to a node that has a store: what any replica holds,
-- whatever the order of its maps, is what the one abstract store gives when it runs the commands of
-- the shared log in their order, and the count of commits is the number of these commands that
-- the abstract store accepts, modulo 2^64.
pub replica_contents :
    (ids : List Text) (start m : ClusterState) (id : Text) (t : TreeStore)
    → cluster ids ≡ some start
    → Reach start m
    → Dict.get id m.stores ≡ some t
    → (contents_of t ≡ replay_on (contents_of default_store) m.log)
      × (m.committed ≡ accepted_on (contents_of default_store) m.log % 2 ^ 64)
replica_contents ids start m id t h r found =
    let (replicas, committed) = replicas_replay_log ids start m h r in
    (
      (contents_of-eq_iff t (run default_store m.log)).1
            (AllSame-get (run default_store m.log) t id m.stores replicas found)
          ∙ contents_of-run default_store m.log,
      committed ∙ ap (λ (n : ℕ). n % 2 ^ 64) (contents_of-accepted default_store m.log),
    )
