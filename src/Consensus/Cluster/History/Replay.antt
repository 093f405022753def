-- ===== src/Consensus/Cluster/History/Replay.antt =====
-- A submit on a cluster whose replicas are the replay of the log leaves it so.
use zoocooker.Base.{
  ◌%◌, ◌^◌, ◌+◌, ◌≡◌, refl, sym, ap, ◌∙◌, subst, true, false, Text, Option, some, none, List, [],
  ◌∷◌, ◌++◌, arith, inl, inr, if◌then◌else◌, text_eq, ◌==◌,
}
use zoocooker.Base.Dict.{Dict, get-insert}
use zoocooker.Base.Dict
use zoocooker.Base.Exec.{ok, is_ok, Result-cases, Result-split}
use zoocooker.Protocol.Types.{Command, Applied}
use zoocooker.Storage.Store.{TreeStore, default_store, apply}
use zoocooker.Storage.Store.Apply.{is_sequential, failure_keeps_store, run}
use zoocooker.Storage.Store.Same.{apply-SameRun}
use zoocooker.Storage.Store.Contents.{accepted}
use zoocooker.Consensus.Cluster.{ClusterState, apply_all, submit}
use zoocooker.Consensus.Cluster.Replicas.{AllSame, submit_commits, submit_refuses, submit_follower}

pub record IsReplay (m : ClusterState) : Type 0 where
  pub replicas : AllSame (run default_store m.log) m.stores
  pub present : Dict.contains_key m.leader_id m.stores ≡ true
  pub counted : m.committed ≡ accepted default_store m.log % 2 ^ 64

run-append :
    (s : TreeStore) (cs : List Command) (c : Command)
    → run s (cs ++ c ∷ []) ≡ (apply c (run s cs)).1
run-append s [] c = refl
run-append s (d ∷ cs) c = run-append (apply d s).1 cs c

accepted-append :
    (s : TreeStore) (cs : List Command) (c : Command)
    → accepted s (cs ++ c ∷ []) ≡ accepted s cs + (if is_ok (apply c (run s cs)).0 then 1 else 0)
accepted-append s [] c = omega arith
accepted-append s (d ∷ cs) c = omega (arith, accepted-append (apply d s).1 cs c)

contains_key-apply_all :
    (leader id : Text) (c : Command) (found : Option Applied) (stores : Dict Text TreeStore)
    → Dict.contains_key id (apply_all leader c found stores).1 ≡ Dict.contains_key id stores
unfolding apply_all Dict.contains_key Dict.get
contains_key-apply_all leader id c found [] = refl
contains_key-apply_all leader id c found ((j, t) ∷ stores) = elim (Result-split (apply c t).0) [
  | inl (a, e) ↦
      ground (
        arith,
        e,
        contains_key-apply_all leader id c (if j == leader then some a else found) stores,
      )
  | inr (inl (x, e)) ↦ ground (arith, e)
  | inr (inr e) ↦ ground (arith, e)
]

-- A command that fails on the replicas is refused by the first of them.
apply_all-fails :
    (leader id : Text) (c : Command) (s : TreeStore) (stores : Dict Text TreeStore)
    → is_ok (apply c s).0 ≡ false
    → AllSame s stores
    → Dict.contains_key id stores ≡ true
    → is_ok (apply_all leader c none stores).0 ≡ false
unfolding apply_all Dict.contains_key Dict.get
apply_all-fails leader id c s [] h same k = cc
apply_all-fails leader id c s ((j, t) ∷ stores) h (same, rest) k =
    let bad : is_ok (apply c t).0 ≡ false = ap is_ok (apply-SameRun t s c same).reply ∙ h in
    ground (arith, bad)

stores-submit :
    (m : ClusterState) (id : Text) (c : Command)
    → Dict.contains_key id (submit m.leader_id c m).1.stores ≡ Dict.contains_key id m.stores
unfolding submit
stores-submit m id c = ground (arith, contains_key-apply_all m.leader_id id c none m.stores)

leader-submit :
    (m : ClusterState) (c : Command) → (submit m.leader_id c m).1.leader_id ≡ m.leader_id
unfolding submit
leader-submit m c = ground arith

-- a refused command stays in the log, and is not counted
refused :
    (m : ClusterState) (c : Command)
    → is_ok (apply_all m.leader_id c none m.stores).0 ≡ false
    → (is_ok (submit m.leader_id c m).0 ≡ false)
      × ((submit m.leader_id c m).1.log ≡ m.log ++ c ∷ [])
      × ((submit m.leader_id c m).1.committed ≡ m.committed)
unfolding submit
refused m c h = (ground (arith, h), ground (arith, h), ground (arith, h))

accepted-IsReplay :
    (m : ClusterState) (c : Command) (a : Applied)
    → (apply c (run default_store m.log)).0 ≡ ok a
    → IsReplay m
    → IsReplay (submit m.leader_id c m).1
accepted-IsReplay m c a h v =
    let s = run default_store m.log in
    let (reply, same, log, committed) = submit_commits m s c a v.present v.replicas h in
    let e : accepted default_store (m.log ++ c ∷ []) ≡ accepted default_store m.log + 1 =
      accepted-append default_store m.log c
      ∙ ap (λ r. accepted default_store m.log + (if is_ok r then 1 else 0)) h in
    record {
      replicas =
          subst (λ t. AllSame t (submit m.leader_id c m).1.stores)
            (sym (ap (run default_store) log ∙ run-append default_store m.log c)) same;
      present =
          ap (λ id. Dict.contains_key id (submit m.leader_id c m).1.stores) (leader-submit m c)
          ∙ stores-submit m m.leader_id c
          ∙ v.present;
      counted = omega (arith, committed, v.counted, e, ap (accepted default_store) log);
    }

refused-IsReplay :
    (m : ClusterState) (c : Command)
    → is_ok (apply c (run default_store m.log)).0 ≡ false
    → is_sequential c ≡ false
    → IsReplay m
    → IsReplay (submit m.leader_id c m).1
refused-IsReplay m c h k v =
    let s = run default_store m.log in
    let stores = submit_refuses m m.leader_id s c v.replicas h k in
    let fails = apply_all-fails m.leader_id m.leader_id c s m.stores h v.replicas v.present in
    let (reply, log, committed) = refused m c fails in
    let kept : run default_store (submit m.leader_id c m).1.log ≡ s =
      ap (run default_store) log ∙ run-append default_store m.log c ∙ failure_keeps_store s c h k in
    let e : accepted default_store (m.log ++ c ∷ []) ≡ accepted default_store m.log + 0 =
      accepted-append default_store m.log c
      ∙ ap (λ b. accepted default_store m.log + (if b then 1 else 0)) h in
    record {
      replicas =
          subst (λ d. AllSame (run default_store (submit m.leader_id c m).1.log) d) (sym stores)
            (subst (λ t. AllSame t m.stores) (sym kept) v.replicas);
      present =
          ap (λ id. Dict.contains_key id (submit m.leader_id c m).1.stores) (leader-submit m c)
          ∙ stores-submit m m.leader_id c
          ∙ v.present;
      counted = omega (arith, committed, v.counted, e, ap (accepted default_store) log);
    }

pub submit-IsReplay :
    (m : ClusterState) (node_id : Text) (c : Command)
    → (is_ok (submit node_id c m).0 ≡ false → is_sequential c ≡ false)
    → IsReplay m
    → IsReplay (submit node_id c m).1
submit-IsReplay m node_id c settled v = elim (text_eq.dec m.leader_id node_id) [
  | no ne ↦ subst IsReplay (sym (ap (λ r. r.1) (submit_follower m node_id c ne))) v
  | yes e ↦
      subst (λ id. IsReplay (submit id c m).1) e
        (elim (Result-cases (apply c (run default_store m.log)).0) [
          | inl (a, h) ↦ accepted-IsReplay m c a h v
          | inr h ↦
              let fails =
                apply_all-fails m.leader_id m.leader_id c (run default_store m.log) m.stores h
                  v.replicas v.present in
              let reply : is_ok (submit node_id c m).0 ≡ false =
                ap (λ id. is_ok (submit id c m).0) (sym e) ∙ (refused m c fails).0 in
              refused-IsReplay m c h (settled reply) v
        ])
]
