-- ===== src/Server/Service/Rounds.antt =====
-- The two loops of the cleanup of expired sessions, a round at a time, over any consensus.
use zoocooker.Base.{◌≡◌, Bool, true, false, Text, none, List, ◌∷◌, arith, if◌then◌else◌}
use zoocooker.Base.Exec.{ok, err}
use zoocooker.Protocol.Types.{SessionId, delete, Applied, ZkError}
use zoocooker.Consensus.Interface.{Consensus}
use zoocooker.Server.Session.{remove_session}
use zoocooker.Server.Service.{Service, Texts, notify, delete_paths, clean_sessions, is_no_node}
use zoocooker.Server.Service.Writes.{submitted}

module _ {S : Type 0} (impl : Consensus S) (texts : Texts) where
  -- the service after the delete of a path
  abbrev pub tried : Text → Service S → Service S
  tried p s = submitted impl texts (delete p none) s

  pub delete_paths-sends :
      (p : Text) (ps : List Text) (s : Service S) (a : Applied)
      → (impl.submit (delete p none) s.consensus).0 ≡ ok a
      → delete_paths impl texts (p ∷ ps) s
        ≡ delete_paths impl texts ps (notify impl texts a.watch_events (tried p s))
  unfolding delete_paths
  delete_paths-sends p ps s a h = ground (arith, h)

  pub delete_paths-fails :
      (p : Text) (ps : List Text) (s : Service S) (e : ZkError)
      → (impl.submit (delete p none) s.consensus).0 ≡ err e
      → delete_paths impl texts (p ∷ ps) s
        ≡ (if is_no_node e then delete_paths impl texts ps (tried p s) else (false, tried p s))
  unfolding delete_paths
  delete_paths-fails p ps s e h = ground (arith, h)

  -- the loop over the paths of one session
  abbrev pub session_round : SessionId → Service S → Bool × Service S
  session_round id s = delete_paths impl texts (impl.ephemeral_paths_for_session s.consensus id) s

  abbrev pub dropped : SessionId → Service S → Service S
  dropped id s = record s { sessions = remove_session id s.sessions }

  pub clean_sessions-drops :
      (id : SessionId) (ids : List SessionId) (s : Service S)
      → (session_round id s).0 ≡ true
      → clean_sessions impl texts (id ∷ ids) s ≡ (
        id ∷ (clean_sessions impl texts ids (dropped id (session_round id s).1)).0,
        (clean_sessions impl texts ids (dropped id (session_round id s).1)).1,
      )
  unfolding clean_sessions
  clean_sessions-drops id ids s h = ground (arith, h)

  pub clean_sessions-leaves :
      (id : SessionId) (ids : List SessionId) (s : Service S)
      → (session_round id s).0 ≡ false
      → clean_sessions impl texts (id ∷ ids) s
        ≡ clean_sessions impl texts ids (session_round id s).1
  unfolding clean_sessions
  clean_sessions-leaves id ids s h = ground (arith, h)
