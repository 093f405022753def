-- ===== src/Server/Service/Progress.antt =====
-- The cleanup of expired sessions on a single node goes through: every expired session is reclaimed.
mod Owned
pub mod Contents
use zoocooker.Server.Service.Progress.Contents.{cleanup_contents}
use zoocooker.Base.{
  ◌≡◌, ◌≢◌, ap, ◌∙◌, true, false, Text, some, contains, nat_eq, text_eq, option_eq, arith,
}
use zoocooker.Base.Dict.{Dict}
use zoocooker.Base.Dict
use zoocooker.Protocol.Types.{SessionId}
use zoocooker.Storage.Store.{TreeStore}
use zoocooker.Storage.Store.Shape.{IsTree}
use zoocooker.Consensus.Single.{single_node}
use zoocooker.Server.Session.{Instant, has_session}
use zoocooker.Server.Session.Expiry.{overdue, contains-collect_expired_at}
use zoocooker.Server.Service.{Service, Texts, cleanup_expired_sessions}
use zoocooker.Server.Service.Cleanup.{sessions-cleanup}
use zoocooker.Server.Service.Deletions.{owner_at}
use zoocooker.Server.Service.Owners.{cleanup_disowns}

module _ (texts : Texts) where
  -- On a single node whose nodes form a tree, and where no session is listed twice, a session whose
  -- last heartbeat is more than the TTL ago is reclaimed by the next cleanup: it is not known
  -- afterwards, and it owns no node.
  pub cleanup_reclaims :
      (now : Instant) (s : Service TreeStore) (id : SessionId) (q : Text)
      → IsTree s.consensus.nodes
      → Dict.NodupKeys s.sessions.sessions
      → overdue s.sessions.ttl now (Dict.get id s.sessions.sessions) ≡ true
      → (let (cleaned, after) = cleanup_expired_sessions single_node texts now s in
          (has_session after.sessions id ≡ false) × (owner_at after.consensus q ≢ some id))
  cleanup_reclaims now s id q v u late =
      let returned : contains (cleanup_expired_sessions single_node texts now s).0 id ≡ true =
        ap (λ ids. contains ids id) (cleanup_contents texts now s v).0
        ∙ contains-collect_expired_at now s.sessions id u
        ∙ late in
      (
        ground (arith, sessions-cleanup single_node texts now s id, returned),
        cleanup_disowns texts now s id q v returned,
      )
