-- ===== src/Server/Session/Expiry.antt =====
-- Which sessions expire, and what a heartbeat does about it.
use zoocooker.Base.{
  ◌+◌, ◌≤◌, ◌≡◌, ◌≢◌, refl, sym, ◌∙◌, Bool, true, false, Option, none, some, [], ◌∷◌, ltb, contains,
  nat_eq, arith,
}
use zoocooker.Base.Dict.{Dict, get-insert, get-remove}
use zoocooker.Base.Dict
use zoocooker.Protocol.Types.{SessionId}
use zoocooker.Server.Session.{
  Instant, Duration, SessionManager, or_new, heartbeat_at, expired_ids, collect_expired_at,
  remove_session, has_session,
}

-- a session that the clock has left behind
abbrev pub overdue : Duration → Instant → Option Instant → Bool
overdue ttl now none = false
overdue ttl now (some last_heartbeat) = ltb (last_heartbeat + ttl) now

expired_absent :
    (ttl : Duration) (now : Instant) (sessions : Dict SessionId Instant) (id : SessionId)
    → Dict.get id sessions ≡ none
    → contains (expired_ids ttl now sessions) id ≡ false
unfolding expired_ids Dict.get
expired_absent ttl now [] id h = refl
expired_absent ttl now ((j, t) ∷ sessions) id h = ground (arith, expired_absent ttl now sessions id)

contains-expired_ids :
    (ttl : Duration) (now : Instant) (sessions : Dict SessionId Instant) (id : SessionId)
    → Dict.NodupKeys sessions
    → contains (expired_ids ttl now sessions) id ≡ overdue ttl now (Dict.get id sessions)
unfolding expired_ids Dict.get
contains-expired_ids ttl now [] id u = refl
contains-expired_ids ttl now ((j, t) ∷ sessions) id u =
    ground
      (arith, contains-expired_ids ttl now sessions id u.1, expired_absent ttl now sessions j u.0)

-- Where no session is listed twice, a session is collected exactly when it is known and its last
-- heartbeat is more than the TTL ago.
pub contains-collect_expired_at :
    (now : Instant) (m : SessionManager) (id : SessionId)
    → Dict.NodupKeys m.sessions
    → contains (collect_expired_at now m) id ≡ overdue m.ttl now (Dict.get id m.sessions)
unfolding collect_expired_at
contains-collect_expired_at now m id u = contains-expired_ids m.ttl now m.sessions id u

-- Where no session is listed twice: after a heartbeat at `now` the session is known, and it is not
-- collected at any instant up to `now` and a TTL; whether another session is collected has not
-- changed.
pub heartbeat_keeps :
    (fresh : SessionId) (session_id : Option SessionId) (now later : Instant) (m : SessionManager)
    (other : SessionId)
    → Dict.NodupKeys m.sessions
    → later ≤ now + m.ttl
    → other ≢ (heartbeat_at fresh session_id now m).0
    → (let (id, after) = heartbeat_at fresh session_id now m in
        (has_session after id ≡ true)
        × (contains (collect_expired_at later after) id ≡ false)
        × (contains (collect_expired_at later after) other
            ≡ contains (collect_expired_at later m) other))
unfolding heartbeat_at has_session Dict.contains_key
heartbeat_keeps fresh session_id now later m other u h ne =
    let id = or_new fresh session_id in
    let after : SessionManager = record m { sessions = Dict.insert id now m.sessions } in
    let u' = Dict.insert-NodupKeys id now m.sessions u in
    (
      ground (arith, get-insert id id now m.sessions),
      contains-collect_expired_at later after id u'
          ∙ ground (arith, get-insert id id now m.sessions),
      contains-collect_expired_at later after other u'
          ∙ ground (arith, get-insert other id now m.sessions)
          ∙ sym (contains-collect_expired_at later m other u),
    )

-- Where no session is listed twice: a session that is removed is not known any more and not
-- collected, and whether another session is collected has not changed.
pub remove_session_lem :
    (id other : SessionId) (now : Instant) (m : SessionManager)
    → Dict.NodupKeys m.sessions
    → other ≢ id
    → (has_session (remove_session id m) id ≡ false)
      × (contains (collect_expired_at now (remove_session id m)) id ≡ false)
      × (contains (collect_expired_at now (remove_session id m)) other
          ≡ contains (collect_expired_at now m) other)
unfolding remove_session has_session Dict.contains_key
remove_session_lem id other now m u ne =
    let after : SessionManager = record m { sessions = Dict.remove id m.sessions } in
    let u' = Dict.remove-NodupKeys id m.sessions u in
    (
      ground (arith, get-remove id id m.sessions),
      contains-collect_expired_at now after id u' ∙ ground (arith, get-remove id id m.sessions),
      contains-collect_expired_at now after other u'
          ∙ ground (arith, get-remove other id m.sessions)
          ∙ sym (contains-collect_expired_at now m other u),
    )
