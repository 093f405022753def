-- ===== src/Server/Requests/Sound/Cleanup.antt =====
-- The cleanup of a server, and the invariant.
use zoocooker.Base.{Bool-cases, inl, inr, Text, none, List, [], ◌∷◌, nat_eq}
use zoocooker.Base.Dict
use zoocooker.Base.Exec.{Result-split}
use zoocooker.Protocol.Types.{SessionId, delete}
use zoocooker.Consensus.Interface.{Consensus, Keeps}
use zoocooker.Server.Service.Rounds.{
  tried, delete_paths-sends, delete_paths-fails, session_round, dropped, clean_sessions-drops,
  clean_sessions-leaves,
}
use zoocooker.Server.Session.{Instant, collect_expired_at, remove_session}
use zoocooker.Server.Service.{
  Service, Texts, notify, delete_paths, clean_sessions, cleanup_expired_sessions, is_no_node,
}
use zoocooker.Server.Requests.Sound.State.{
  IsSound, notify-IsSound, submitted-IsSound, metrics-IsSound,
}

module _ {S : Type 0} {impl : Consensus S} {P : S → Type 0} (keeps : Keeps impl P)
    (texts : Texts) where
  pub forget-IsSound :
      (id : SessionId) (s : Service S)
      → IsSound P s
      → IsSound P (record s { sessions = remove_session id s.sessions })
  unfolding remove_session
  forget-IsSound id s v = record {
    kept = v.kept;
    counted = v.counted;
    distinct = Dict.remove-NodupKeys id s.sessions.sessions v.distinct;
    ttl = v.ttl;
    limit = v.limit;
  }

  delete_paths-IsSound :
      (ps : List Text) (s : Service S) → IsSound P s → IsSound P (delete_paths impl texts ps s).1
  delete_paths-IsSound [] s v = unfold delete_paths in v
  delete_paths-IsSound (p ∷ ps) s v =
      let deleted = submitted-IsSound keeps texts (delete p none) s v in
      elim (Result-split (impl.submit (delete p none) s.consensus).0) [
        | inl (a, h) ↦ rw (delete_paths-sends impl texts p ps s a h) (
            delete_paths-IsSound ps (notify impl texts a.watch_events (tried impl texts p s))
              (notify-IsSound keeps texts a.watch_events (tried impl texts p s) deleted))
        | inr (inl (e, h)) ↦ elim (Bool-cases (is_no_node e)) [
          | inl k ↦
              rw (delete_paths-fails impl texts p ps s e h, k)
                (delete_paths-IsSound ps (tried impl texts p s) deleted)
          | inr k ↦ rw (delete_paths-fails impl texts p ps s e h, k) deleted
        ]
        | inr (inr h) ↦ absurd (keeps.returns (delete p none) s.consensus v.kept h)
      ]

  clean_sessions-IsSound :
      (ids : List SessionId) (s : Service S)
      → IsSound P s
      → IsSound P (clean_sessions impl texts ids s).1
  clean_sessions-IsSound [] s v = unfold clean_sessions in v
  clean_sessions-IsSound (id ∷ ids) s v =
      let after = delete_paths-IsSound (impl.ephemeral_paths_for_session s.consensus id) s v in
      elim (Bool-cases (session_round impl texts id s).0) [
        | inl h ↦ rw (clean_sessions-drops impl texts id ids s h) (
            clean_sessions-IsSound ids (dropped impl texts id (session_round impl texts id s).1)
              (forget-IsSound id (session_round impl texts id s).1 after))
        | inr h ↦
            rw (clean_sessions-leaves impl texts id ids s h)
              (clean_sessions-IsSound ids (session_round impl texts id s).1 after)
      ]

  pub tick-IsSound :
      (now : Instant) (s : Service S)
      → IsSound P s
      → IsSound P (cleanup_expired_sessions impl texts now s).1
  unfolding cleanup_expired_sessions
  tick-IsSound now s v =
      metrics-IsSound keeps texts
        (clean_sessions impl texts (collect_expired_at now s.sessions) s).1 _
        (clean_sessions-IsSound (collect_expired_at now s.sessions) s v)
