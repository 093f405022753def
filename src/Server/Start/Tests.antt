-- ===== src/Server/Start/Tests.antt =====
-- A start from a snapshot that holds the node "/e" of session 7.
use zoocooker.Base.{
  ◌≡◌, refl, true, false, none, some, [], ◌∷◌, Text, contains, codes, nat_eq, text_eq, option_eq,
}
use zoocooker.Base.Dict
use zoocooker.Base.Exec.{ok}
use zoocooker.Protocol.Types.{create}
use zoocooker.Protocol.Paths.{normalize, parent_of, leaf_name}
use zoocooker.Storage.Order.{set_insert, text_compare}
use zoocooker.Storage.Store.{
  TreeStore, default_store, apply, create_path, choose_path, create_node, ephemeral_session_ids,
}
use zoocooker.Storage.Persistence.{
  PersistenceError, Codec, read_exact, replay_loop, replay, load_snapshot, replay_into,
}
use zoocooker.Consensus.Persistent.{PersistentNode, from_store_and_wal, new_with_snapshot}
use zoocooker.Server.Session.{has_session, collect_expired_at}
use zoocooker.Server.Session.Expiry.{overdue}
use zoocooker.Server.Metrics.{default_config}
use zoocooker.Server.Service.{Service, seed_restored_sessions, with_config}
use zoocooker.Server.Service.Deletions.{owner_at}
use zoocooker.Server.Start.{open_persistent, persistent_service}
use zoocooker.Server.Start.Restored.{restored_sessions_expire}

abbrev one_owner : TreeStore
one_owner = (apply (create (codes "/e") [] true false (some 7)) default_store).1

-- a codec whose every snapshot holds the one node
abbrev one_snapshot : Codec
one_snapshot = record {
  to_vec = λ r. [];
  from_slice = λ bytes. none;
  snapshot_to_vec = λ v s. [];
  snapshot_from_slice = λ bytes. some (1, one_owner);
}

abbrev describe : PersistenceError → Text
describe e = codes "error"

abbrev restored : Service PersistentNode
restored =
    seed_restored_sessions (7 ∷ []) 100
      (with_config (record { store = one_owner; wal = none }) default_config)

starts :
    persistent_service one_snapshot describe none (some (some [])) default_config 100 ≡ ok restored
unfolding persistent_service open_persistent new_with_snapshot load_snapshot from_store_and_wal
    replay_into replay replay_loop read_exact ephemeral_session_ids apply create_path choose_path
    create_node normalize parent_of leaf_name set_insert text_compare Dict.get Dict.insert
    Dict.contains_key nat_eq text_eq option_eq
starts = refl

owned : owner_at restored.consensus.store (codes "/e") ≡ some 7
unfolding seed_restored_sessions apply create_path choose_path create_node normalize parent_of
    leaf_name set_insert text_compare Dict.get Dict.insert Dict.contains_key nat_eq text_eq
    option_eq
owned = refl

restored_sessions_expire_example :
    (has_session restored.sessions 7 ≡ true)
    × (contains (collect_expired_at 20000 restored.sessions) 7
        ≡ overdue default_config.session_ttl 20000 (some 100))
restored_sessions_expire_example =
    restored_sessions_expire one_snapshot describe none (some (some [])) default_config 100 20000
      restored (codes "/e") 7 starts owned
