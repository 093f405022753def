-- ===== src/Server/Requests/Races.antt =====
-- What the service does where two of its tasks meet: each handler and the cleanup hold a lock for a
-- part at a time, so another task may run between two parts.
use zoocooker.Base.{
  ◌+◌, ◌≤◌, Option, List, [], ◌∷◌, ◌≡◌, ◌≢◌, ap, ◌∙◌, Bool, true, false, Text, some, contains,
  nat_eq, text_eq, arith, Option-cases, inl, inr,
}
use zoocooker.Storage.Store.View.{Entry, view, view-created}
use zoocooker.Server.Session.Expiry.{heartbeat_keeps, overdue, contains-collect_expired_at}
use zoocooker.Server.Service.Cleanup.{sessions-cleanup, sessions-clean_sessions}
use zoocooker.Server.Service.Progress.Contents.{
  reaped, owned_by, cleanup_contents, view-clean_sessions,
}
use zoocooker.Server.Requests.Sound.State.{write-IsSound, IsSound}
use zoocooker.Server.Start.{run_ticks}
use zoocooker.Base.Dict.{get-insert}
use zoocooker.Base.Dict
use zoocooker.Base.Exec.{ok}
use zoocooker.Protocol.Types.{Bytes, SessionId, Applied, Command, create, created}
use zoocooker.Storage.Store.{TreeStore, apply}
use zoocooker.Storage.Store.Writes.{chosen_path, create_path-CreatesAt}
use zoocooker.Consensus.Single.{single_node}
use zoocooker.Server.Session.{
  Instant, SessionManager, heartbeat_at, has_session, collect_expired_at,
}
use zoocooker.Server.Service.{
  Service, Texts, notify, check_session, finish_create, created_path, clean_sessions,
  cleanup_expired_sessions,
}
use zoocooker.Server.Service.Writes.{write-inv, created_path-inv}
use zoocooker.Server.Service.Deletions.{owner_of, owner_at}
use zoocooker.Server.Service.Owners.{clean_sessions-disowns}
use zoocooker.Server.Service.Progress.{cleanup_reclaims}
use zoocooker.Consensus.Kept.{OnTree, single_node-Keeps}
use zoocooker.Server.Requests.Sound.Cleanup.{tick-IsSound}

-- the owner of a node that an ephemeral create has made
created-owner :
    (s : TreeStore) (path : Text) (bytes : Bytes) (sequential : Bool) (id : SessionId) (a : Applied)
    (q : Text)
    → (apply (create path bytes true sequential (some id)) s).0 ≡ ok a
    → a.result ≡ created q
    → owner_at (apply (create path bytes true sequential (some id)) s).1 q ≡ some id
unfolding apply
created-owner s path bytes sequential id a q h r =
    let k = create_path-CreatesAt s path bytes true sequential (some id) a h in
    let c = k.creates in
    let at : chosen_path sequential k.requested s ≡ q = ground (arith, c.result, r) in
    ap owner_of (view-created c q) ∙ ground (arith, at, c.owned)

unknown-fresh :
    (m : SessionManager) (later : Instant) (id : SessionId)
    → has_session m id ≡ false
    → overdue m.ttl later (Dict.get id m.sessions) ≡ false
unfolding has_session Dict.contains_key
unknown-fresh m later id gone = elim (Option-cases (Dict.get id m.sessions)) [
  | inl e ↦ ground (arith, e)
  | inr (t, e) ↦ absurd (ground (arith, e, gone))
]

-- a node whose owner is none of the sessions stays
reaped-owner :
    (ids : List SessionId) (id : SessionId) (e : Option Entry)
    → contains ids id ≡ false
    → owner_of e ≡ some id
    → owner_of (reaped ids e) ≡ some id
reaped-owner ids id e spared owner =
    let kept : owned_by ids (owner_of e) ≡ false = ap (owned_by ids) owner ∙ spared in
    ground (arith, kept, owner)

module _ (texts : Texts) where
  -- the create, from its submit on
  finish_create-inv :
      (path : Text) (bytes : Bytes) (sequential : Bool) (id : SessionId) (s : Service TreeStore)
      (p : Text)
      → (finish_create single_node texts path bytes true sequential (some id) s).0 ≡ ok p
      → (owner_at
            (finish_create single_node texts path bytes true sequential (some id) s).1.consensus
            p
          ≡ some id)
        × ((finish_create single_node texts path bytes true sequential (some id) s).1.sessions
            ≡ s.sessions)
  unfolding finish_create notify
  finish_create-inv path bytes sequential id s p h =
      let c : Command = create path bytes true sequential (some id) in
      let (a, applied, picked, done) =
        write-inv single_node texts c (created_path single_node texts) s p h in
      let made = created_path-inv single_node texts a.result p picked in
      (
        ap (λ r. owner_at r.1.consensus p) done
            ∙ created-owner s.consensus path bytes sequential id a p applied made,
        ap (λ r. r.1.sessions) done,
      )

  -- A node at the path is owned by a session that is not known.
  abbrev pub Orphan : SessionId → Text → Service TreeStore → Type 0
  Orphan id p s = (owner_at s.consensus p ≡ some id) × (has_session s.sessions id ≡ false)

  Orphan-cleanup :
      (now : Instant) (s : Service TreeStore) (id : SessionId) (p : Text)
      → IsSound OnTree s
      → Orphan id p s
      → Orphan id p (cleanup_expired_sessions single_node texts now s).1
  Orphan-cleanup now s id p v (owner, unknown) =
      let (_, left) = cleanup_contents texts now s v.kept in
      let expired = collect_expired_at now s.sessions in
      let spared : contains expired id ≡ false =
        contains-collect_expired_at now s.sessions id v.distinct
        ∙ unknown-fresh s.sessions now id unknown in
      (
        ap owner_of (left p) ∙ reaped-owner expired id (view s.consensus p) spared owner,
        ground (arith, sessions-cleanup single_node texts now s id, unknown),
      )

  Orphan-run_ticks :
      (ticks : List Instant) (s : Service TreeStore) (id : SessionId) (p : Text)
      → IsSound OnTree s
      → Orphan id p s
      → Orphan id p (run_ticks single_node texts ticks s)
  Orphan-run_ticks [] s id p v orphan = orphan
  Orphan-run_ticks (now ∷ ticks) s id p v orphan =
      Orphan-run_ticks ticks (cleanup_expired_sessions single_node texts now s).1 id p
        (tick-IsSound single_node-Keeps texts now s v) (Orphan-cleanup now s id p v orphan)

  -- A create has found its session known, and then a cleanup runs at an instant at which the session
  -- is overdue, before the create goes on to its submit. If the submit succeeds, the new node is owned
  -- by a session that is not known, and so it stays through all the cleanups that run next, at
  -- whatever instants, with no request in between.
  pub create_outlives_session :
      (s : Service TreeStore) (id : SessionId) (now : Instant) (ticks : List Instant) (path : Text)
      (bytes : Bytes) (sequential : Bool) (p : Text)
      → IsSound OnTree s
      → check_session single_node texts true (some id) s ≡ (ok tt, s)
      → overdue s.sessions.ttl now (Dict.get id s.sessions.sessions) ≡ true
      → (finish_create single_node texts path bytes true sequential
          (some id)
          (cleanup_expired_sessions single_node texts now s).1).0
        ≡ ok p
      → Orphan id p (
          run_ticks single_node texts ticks
            (finish_create single_node texts path bytes true sequential
              (some id)
              (cleanup_expired_sessions single_node texts now s).1).1)
  create_outlives_session s id now ticks path bytes sequential p v known late h =
      let cleaned : Service TreeStore = (cleanup_expired_sessions single_node texts now s).1 in
      let sound = tick-IsSound single_node-Keeps texts now s v in
      let (owner, same) = finish_create-inv path bytes sequential id cleaned p h in
      let gone = (cleanup_reclaims texts now s id p v.kept v.distinct late).0 in
      Orphan-run_ticks ticks _ id p
        (unfold finish_create in
          write-IsSound single_node-Keeps texts (create path bytes true sequential (some id))
            (created_path single_node texts) cleaned sound)
        (owner, ap (λ m. has_session m id) same ∙ gone)

  -- A cleanup has collected the overdue sessions, and then one of them sends a heartbeat, before the
  -- cleanup goes on. After the heartbeat the session is known and would not be collected up to a TTL
  -- later, but when the cleanup is through the session is not known any more, and owns no node.
  pub heartbeat_lost :
      (s : Service TreeStore) (id fresh : SessionId) (now beat later : Instant) (q : Text)
      → IsSound OnTree s
      → overdue s.sessions.ttl now (Dict.get id s.sessions.sessions) ≡ true
      → later ≤ beat + s.sessions.ttl
      → (let beaten = record s { sessions = (heartbeat_at fresh (some id) beat s.sessions).1 } in
          let after =
            (clean_sessions single_node texts (collect_expired_at now s.sessions) beaten).1 in
          (has_session beaten.sessions id ≡ true)
          × (contains (collect_expired_at later beaten.sessions) id ≡ false)
          × (has_session after.sessions id ≡ false)
          × (owner_at after.consensus q ≢ some id))
  heartbeat_lost s id fresh now beat later q v late soon =
      let beaten : Service TreeStore = record s {
        sessions = (heartbeat_at fresh (some id) beat s.sessions).1;
      } in
      let (known, spared, _) =
        heartbeat_keeps fresh (some id) beat later s.sessions (id + 1) v.distinct soon
          (unfold heartbeat_at in λ e. omega (arith, e)) in
      let ids = collect_expired_at now s.sessions in
      let returned : contains (clean_sessions single_node texts ids beaten).0 id ≡ true =
        ap (λ xs. contains xs id) (view-clean_sessions texts ids beaten v.kept).0
        ∙ contains-collect_expired_at now s.sessions id v.distinct
        ∙ late in
      (
        unfold heartbeat_at in known,
        unfold heartbeat_at in spared,
        ground (arith, sessions-clean_sessions single_node texts ids beaten id, returned),
        clean_sessions-disowns texts ids beaten id q v.kept returned,
      )
