-- ===== src/Server/Session/Conformance.antt =====
-- The unit tests of crates/server/src/session.rs, on the model. The unit of time is a second.
use zoocooker.Base.{◌+◌, refl, [], ◌∷◌, ◌==◌, none, some, Option, nat_eq, text_eq}
use zoocooker.Base.Dict
use zoocooker.Base.Assert.{assert, Passes}
use zoocooker.Base.Exec.{Exec, ok, gets, ◌>>=◌, ◌>>◌}
use zoocooker.Protocol.Types.{SessionId}
use zoocooker.Server.Session.{
  SessionManager, Instant, new_manager, heartbeat_at, collect_expired_at, expired_ids, has_session,
}

abbrev TestM : Type 0 → Type 0
TestM A = Exec SessionManager Unit A

-- `fresh` is the UUID that the heartbeat would make.
abbrev heartbeat : SessionId → Option SessionId → Instant → TestM SessionId
heartbeat fresh id now m = let (r, m') = heartbeat_at fresh id now m in (ok r, m')

-- `start` is the clock at the beginning, and `fresh` the new UUID.
abbrev heartbeat_creates_and_refreshes_session : Instant → SessionId → TestM Unit
heartbeat_creates_and_refreshes_session start fresh = do
  id ← heartbeat fresh none start
  known ← gets (λ m. has_session m id)
  assert known
  heartbeat fresh (some id) (start + 4)
  early ← gets (collect_expired_at (start + 8))
  assert (early == [])
  late ← gets (collect_expired_at (start + 10))
  assert (late == id ∷ [])

abbrev collect_expired_retains_non_expired_sessions : Instant → SessionId → TestM Unit
collect_expired_retains_non_expired_sessions start fresh = do
  id ← heartbeat fresh none start
  expired ← gets (collect_expired_at (start + 5))
  assert (expired == [])
  known ← gets (λ m. has_session m id)
  assert known

session_tests_pass :
    Passes (heartbeat_creates_and_refreshes_session 100 7) (new_manager 5)
    × Passes (collect_expired_retains_non_expired_sessions 100 7) (new_manager 5)
unfolding heartbeat_at collect_expired_at expired_ids has_session Dict.get Dict.insert
    Dict.contains_key nat_eq text_eq
session_tests_pass = (refl, refl)
