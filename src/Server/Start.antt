-- ===== src/Server/Start.antt =====
-- crates/server/src/lib.rs, up to the listening: what a server starts with, and its cleanup task.
pub mod Restored
pub mod Tests
use zoocooker.Base.{Text, Option, none, some, List, [], ◌∷◌}
use zoocooker.Base.Exec.{ok, err, panic}
use zoocooker.Protocol.Types.{Bytes, ZkResult}
use zoocooker.Storage.Store.{TreeStore, default_store, ephemeral_session_ids}
use zoocooker.Storage.Persistence.{PersistenceError, Codec}
use zoocooker.Consensus.Interface.{Consensus}
use zoocooker.Consensus.Persistent.{PersistentNode, restart, new_with_snapshot}
use zoocooker.Server.Session.{Instant}
use zoocooker.Server.Metrics.{ServerConfig, default_config}
use zoocooker.Server.Service.{
  Service, Texts, with_config, cleanup_expired_sessions, seed_restored_sessions,
}

-- `serve_single_node_with_config` and `serve_single_node`
abbrev pub single_node_with_config : ServerConfig → Service TreeStore
single_node_with_config config = with_config default_store config

abbrev pub single_node_service : Service TreeStore
single_node_service = single_node_with_config default_config

module _ (codec : Codec) (describe : PersistenceError → Text) where
  -- `snapshot` is `none` where no path for one is given, and `some none` where it has no file yet.
  unfoldable pub open_persistent : Option Bytes → Option (Option Bytes) → ZkResult PersistentNode
  open_persistent wal (some snapshot) = new_with_snapshot codec describe wal snapshot
  open_persistent wal none = restart codec describe wal

  abbrev seeded :
      ServerConfig → Instant → ZkResult PersistentNode → ZkResult (Service PersistentNode)
  seeded config now (ok node) =
      ok (seed_restored_sessions (ephemeral_session_ids node.store) now (with_config node config))
  seeded config now (err e) = err e
  seeded config now panic = panic

  -- `serve_persistent_single_node`; `now` is the clock at the seeding of the sessions.
  unfoldable pub persistent_service :
      Option Bytes
      → Option (Option Bytes)
      → ServerConfig
      → Instant
      → ZkResult (Service PersistentNode)
  persistent_service wal snapshot config now = seeded config now (open_persistent wal snapshot)

-- `spawn_session_expiration_task`: a cleanup at each tick
abbrev pub run_ticks : {S : Type 0} → Consensus S → Texts → List Instant → Service S → Service S
run_ticks impl texts [] s = s
run_ticks impl texts (now ∷ ticks) s =
    run_ticks impl texts ticks (cleanup_expired_sessions impl texts now s).1
