-- ===== src/Consensus/Cluster/Replicas.antt =====
-- The replicas of a cluster: which submits keep them the same, and which do not.
use zoocooker.Protocol.Types.{incr64, Bytes, SessionId, Command, create, ZkError, Applied}
use zoocooker.Base.{
  ◌≡◌, ◌≢◌, refl, ap, ◌∙◌, Bool, true, false, Text, Option, none, some, [], ◌∷◌, ◌++◌, All, arith,
  if◌then◌else◌, text_eq, ◌==◌, subst,
}
use zoocooker.Base.Dict.{Dict}
use zoocooker.Base.Dict
use zoocooker.Base.Exec.{ok, err, is_ok}
use zoocooker.Protocol.Paths.{root, normalize}
use zoocooker.Storage.Store.{TreeStore, apply}
use zoocooker.Storage.Store.Apply.{is_sequential, apply_fails, sequential_fails}
use zoocooker.Storage.Store.Writes.{counted}
use zoocooker.Storage.Store.Same.{
  SameStore, SameStore-sym, SameStore-trans, apply-SameRun, counted-not-SameStore,
}
use zoocooker.Consensus.Cluster.{ClusterState, apply_all, submit}

-- Every replica holds the entries of `s`.
abbrev pub AllSame : TreeStore → Dict Text TreeStore → Type 0
AllSame s = All (λ e. SameStore e.1 s)

-- A command that succeeds on `s` succeeds on every replica.
apply_all-AllSame :
    (leader : Text) (c : Command) (s : TreeStore) (a : Applied) (found : Option Applied)
    (stores : Dict Text TreeStore)
    → (apply c s).0 ≡ ok a
    → AllSame s stores
    → (is_ok (apply_all leader c found stores).0 ≡ true)
      × AllSame (apply c s).1 (apply_all leader c found stores).1
unfolding apply_all
apply_all-AllSame leader c s a found [] h same = (refl, tt)
apply_all-AllSame leader c s a found ((id, t) ∷ stores) h (same, rest) =
    let run = apply-SameRun t s c same in
    let e : (apply c t).0 ≡ ok a = run.reply ∙ h in
    let (good, all) =
      apply_all-AllSame leader c s a (if id == leader then some a else found) stores h rest in
    rw (e, apply_all) (good, (run.after, all))

-- the leader's reply is among those of the replicas
apply_all-reply :
    (leader : Text) (c : Command) (s : TreeStore) (a : Applied) (found : Option Applied)
    (stores : Dict Text TreeStore)
    → (apply c s).0 ≡ ok a
    → AllSame s stores
    → (apply_all leader c found stores).0
      ≡ ok (if Dict.contains_key leader stores then some a else found)
unfolding apply_all Dict.contains_key Dict.get
apply_all-reply leader c s a found [] h same = refl
apply_all-reply leader c s a found ((id, t) ∷ stores) h (same, rest) =
    let run = apply-SameRun t s c same in
    let e : (apply c t).0 ≡ ok a = run.reply ∙ h in
    ground
      (arith, apply_all-reply leader c s a (if id == leader then some a else found) stores h rest)

-- Where the leader has a store and every replica holds the same entries as some store: the
-- leader's submit of a command that succeeds on that store replies as it would, leaves every
-- replica with the entries that it would have, and adds the command to the log and one to the
-- count of commits, around 2^64.
pub submit_commits :
    (state : ClusterState) (s : TreeStore) (c : Command) (a : Applied)
    → Dict.contains_key state.leader_id state.stores ≡ true
    → AllSame s state.stores
    → (apply c s).0 ≡ ok a
    → (let (reply, after) = submit state.leader_id c state in
        (reply ≡ ok a)
        × AllSame (apply c s).1 after.stores
        × (after.log ≡ state.log ++ c ∷ [])
        × (after.committed ≡ incr64 state.committed))
unfolding submit
submit_commits state s c a present same h =
    let e = apply_all-reply state.leader_id c s a none state.stores h same in
    let all = (apply_all-AllSame state.leader_id c s a none state.stores h same).1 in
    (
      ground (arith, e, present),
      ground (arith, e, present, all),
      ground (arith, e, present),
      ground (arith, e, present),
    )

apply_all-refused :
    (leader : Text) (c : Command) (s : TreeStore) (stores : Dict Text TreeStore)
    → is_ok (apply c s).0 ≡ false
    → is_sequential c ≡ false
    → AllSame s stores
    → (apply_all leader c none stores).1 ≡ stores
unfolding apply_all
apply_all-refused leader c s [] h k same = refl
apply_all-refused leader c s ((id, t) ∷ stores) h k (same, rest) =
    let run = apply-SameRun t s c same in
    let bad : is_ok (apply c t).0 ≡ false = ap is_ok run.reply ∙ h in
    ground (arith, bad, (apply_fails t c bad).2 k)

-- Where every replica holds the same entries as some store, a submit of a command that fails on
-- that store, and is not a sequential create, leaves the stores as they were.
pub submit_refuses :
    (state : ClusterState) (node_id : Text) (s : TreeStore) (c : Command)
    → AllSame s state.stores
    → is_ok (apply c s).0 ≡ false
    → is_sequential c ≡ false
    → (submit node_id c state).1.stores ≡ state.stores
unfolding submit
submit_refuses state node_id s c same h k =
    ground (arith, apply_all-refused state.leader_id c s state.stores h k same)

-- A node that is not the leader refuses every command with the leader's name, and changes nothing.
pub submit_follower :
    (state : ClusterState) (node_id : Text) (c : Command)
    → state.leader_id ≢ node_id
    → submit node_id c state ≡ (err (ZkError.not_leader (some state.leader_id)), state)
unfolding submit
submit_follower state node_id c ne = ground arith

first_fails :
    (leader : Text) (c : Command) (found : Option Applied) (id : Text) (t : TreeStore)
    (stores : Dict Text TreeStore)
    → is_ok (apply c t).0 ≡ false
    → (apply_all leader c found ((id, t) ∷ stores)).1 ≡ (id, (apply c t).1) ∷ stores
unfolding apply_all
first_fails leader c found id t stores h = ground arith

stores-submit :
    (state : ClusterState) (c : Command)
    → (submit state.leader_id c state).1.stores ≡ (apply_all state.leader_id c none state.stores).1
unfolding submit
stores-submit state c = ground arith

-- Where two or more replicas hold the same entries as some store, a sequential create that fails
-- on it once its path has been accepted moves the counter of the first replica only: afterwards no
-- store holds the same entries as all of them.
pub refused_sequential_splits :
    (state : ClusterState) (s ref : TreeStore) (path requested : Text) (bytes : Bytes)
    (ephemeral : Bool) (session_id : Option SessionId) (id id' : Text) (t t' : TreeStore)
    (stores : Dict Text TreeStore)
    → state.stores ≡ (id, t) ∷ (id', t') ∷ stores
    → AllSame s state.stores
    → normalize path ≡ ok requested
    → requested ≢ root
    → is_ok (apply (create path bytes ephemeral true session_id) s).0 ≡ false
    → ¬ AllSame ref
        (submit state.leader_id (create path bytes ephemeral true session_id) state).1.stores
refused_sequential_splits state s ref path requested bytes ephemeral session_id id id' t t' stores e
      same n ne h bad =
    let c = create path bytes ephemeral true session_id in
    let two : AllSame s ((id, t) ∷ (id', t') ∷ stores) = subst (AllSame s) e same in
    let fails : is_ok (apply c t).0 ≡ false = ap is_ok (apply-SameRun t s c two.0).reply ∙ h in
    let after : (submit state.leader_id c state).1.stores
        ≡ (id, counted true requested t) ∷ (id', t') ∷ stores =
      stores-submit state c
      ∙ ap (λ x. (apply_all state.leader_id c none x).1) e
      ∙ first_fails state.leader_id c none id t ((id', t') ∷ stores) fails
      ∙ ap (λ x. (id, x) ∷ (id', t') ∷ stores)
          (sequential_fails t path requested bytes ephemeral session_id n ne fails) in
    let split = subst (AllSame ref) after bad in
    counted-not-SameStore requested t t' (SameStore-trans two.1.0 (SameStore-sym two.0))
      (SameStore-trans split.1.0 (SameStore-sym split.0))
