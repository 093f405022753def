-- ===== src/Server/Service/Cleanup.antt =====
-- The cleanup of expired sessions: which sessions it drops, over any implementation of `Consensus`.
use zoocooker.Base.{
  ◌≡◌, refl, true, false, Bool-cases, inl, inr, Text, none, List, [], ◌∷◌, contains, ◌==◌, nat_eq,
  arith, if◌then◌else◌,
}
use zoocooker.Base.Dict.{get-remove}
use zoocooker.Base.Dict
use zoocooker.Base.Exec.{Result-split}
use zoocooker.Protocol.Types.{SessionId, delete}
use zoocooker.Consensus.Interface.{Consensus}
use zoocooker.Server.Session.{
  SessionManager, Instant, collect_expired_at, remove_session, has_session,
}
use zoocooker.Server.Service.{
  Service, Texts, submit, notify, delete_paths, clean_sessions, cleanup_expired_sessions,
}

has_session-remove :
    (id other : SessionId) (m : SessionManager)
    → has_session (remove_session id m) other ≡ (if other == id then false else has_session m other)
unfolding has_session remove_session Dict.contains_key
has_session-remove id other m = ground (arith, get-remove other id m.sessions)

module _ {S : Type 0} (impl : Consensus S) (texts : Texts) where
  sessions-delete_paths :
      (paths : List Text) (s : Service S)
      → (delete_paths impl texts paths s).1.sessions ≡ s.sessions
  unfolding delete_paths notify
  sessions-delete_paths [] s = refl
  sessions-delete_paths (path ∷ paths) s =
      let (r, s') = submit impl texts (delete path none) s in
      elim (Result-split (impl.submit (delete path none) s.consensus).0) [
        | inl (a, h) ↦
            ground (arith, h, sessions-delete_paths paths (notify impl texts a.watch_events s'))
        | inr (inl (e, h)) ↦ ground (arith, h, sessions-delete_paths paths s')
        | inr (inr h) ↦ ground (arith, h)
      ]

  -- one round: the session is dropped exactly when all its paths are gone
  pub sessions-clean_sessions :
      (ids : List SessionId) (s : Service S) (id : SessionId)
      → has_session (clean_sessions impl texts ids s).1.sessions id ≡ (
          if contains (clean_sessions impl texts ids s).0 id
          then false
          else has_session s.sessions id)
  unfolding clean_sessions
  sessions-clean_sessions [] s id = refl
  sessions-clean_sessions (x ∷ ids) s id =
      let paths = impl.ephemeral_paths_for_session s.consensus x in
      let (gone, s') = delete_paths impl texts paths s in
      let same = sessions-delete_paths paths s in
      elim (Bool-cases (delete_paths impl texts paths s).0) [
        | inl h ↦ ground (
          arith,
          h,
          same,
          sessions-clean_sessions ids (record s' { sessions = remove_session x s'.sessions }) id,
          has_session-remove x id s'.sessions,
        )
        | inr h ↦ ground (arith, h, same, sessions-clean_sessions ids s' id)
      ]

  contains-clean_sessions :
      (ids : List SessionId) (s : Service S) (id : SessionId)
      → contains (clean_sessions impl texts ids s).0 id ≡ true
      → contains ids id ≡ true
  unfolding clean_sessions
  contains-clean_sessions [] s id h = h
  contains-clean_sessions (x ∷ ids) s id h =
      let paths = impl.ephemeral_paths_for_session s.consensus x in
      let (gone, s') = delete_paths impl texts paths s in
      elim (Bool-cases (delete_paths impl texts paths s).0) [
        | inl e ↦ ground (
          arith,
          e,
          contains-clean_sessions ids (record s' { sessions = remove_session x s'.sessions }) id,
        )
        | inr e ↦ ground (arith, e, contains-clean_sessions ids s' id)
      ]

  -- A cleanup drops exactly the sessions that it returns: every other session stays known, also one
  -- that is expired but could not be cleaned up.
  pub sessions-cleanup :
      (now : Instant) (s : Service S) (id : SessionId)
      → (let (cleaned, after) = cleanup_expired_sessions impl texts now s in
          has_session after.sessions id
          ≡ (if contains cleaned id then false else has_session s.sessions id))
  unfolding cleanup_expired_sessions
  sessions-cleanup now s id = sessions-clean_sessions (collect_expired_at now s.sessions) s id

  -- A session that a cleanup returns had expired.
  pub cleanup_expired :
      (now : Instant) (s : Service S) (id : SessionId)
      → contains (cleanup_expired_sessions impl texts now s).0 id ≡ true
      → contains (collect_expired_at now s.sessions) id ≡ true
  unfolding cleanup_expired_sessions
  cleanup_expired now s id h = contains-clean_sessions (collect_expired_at now s.sessions) s id h
