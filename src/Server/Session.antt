-- ===== src/Server/Session.antt =====
-- crates/server/src/session.rs. Instants and durations are numbers of one unit; the clock and the
-- new UUIDs are arguments.
mod Conformance
pub mod Expiry
pub mod Tests
use zoocooker.Base.{ℕ, ◌-◌, Bool, Option, none, some, List, [], ◌∷◌, ltb, nat_eq, if◌then◌else◌}
use zoocooker.Base.Dict.{Dict}
use zoocooker.Base.Dict
use zoocooker.Protocol.Types.{SessionId}

abbrev pub Instant : Type 0
Instant = ℕ

abbrev pub Duration : Type 0
Duration = ℕ

-- A session's state is its last heartbeat.
pub record SessionManager : Type 0 where
  pub ttl : Duration
  pub sessions : Dict SessionId Instant

abbrev pub new_manager : Duration → SessionManager
new_manager ttl = record { ttl = ttl; sessions = [] }

-- `session_id.unwrap_or_else(SessionId::new)`
abbrev pub or_new : SessionId → Option SessionId → SessionId
or_new fresh none = fresh
or_new fresh (some id) = id

unfoldable pub heartbeat_at :
    SessionId → Option SessionId → Instant → SessionManager → SessionId × SessionManager
heartbeat_at fresh session_id now m =
    let id = or_new fresh session_id in (id, record m { sessions = Dict.insert id now m.sessions })

-- `duration_since` is 0 for an earlier instant.
abbrev pub is_expired : Duration → Instant → Instant → Bool
is_expired ttl now last_heartbeat = ltb ttl (now - last_heartbeat)

unfoldable pub expired_ids : Duration → Instant → Dict SessionId Instant → List SessionId
expired_ids ttl now [] = []
expired_ids ttl now ((id, last_heartbeat) ∷ sessions) =
    let rest = expired_ids ttl now sessions in
    if is_expired ttl now last_heartbeat then id ∷ rest else rest

unfoldable pub collect_expired_at : Instant → SessionManager → List SessionId
unfolding expired_ids
collect_expired_at now m = expired_ids m.ttl now m.sessions

unfoldable pub remove_session : SessionId → SessionManager → SessionManager
remove_session id m = record m { sessions = Dict.remove id m.sessions }

unfoldable pub has_session : SessionManager → SessionId → Bool
has_session m id = Dict.contains_key id m.sessions

-- `seed_restored_sessions` of service.rs
unfoldable pub seed_sessions : List SessionId → Instant → SessionManager → SessionManager
unfolding heartbeat_at
seed_sessions [] now m = m
seed_sessions (id ∷ ids) now m = seed_sessions ids now (heartbeat_at id (some id) now m).1
