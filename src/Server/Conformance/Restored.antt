-- ===== src/Server/Conformance/Restored.antt =====
-- The unit test of crates/server/src/service.rs that restarts a server with a session, on the model.
use zoocooker.Base.{
  zero, suc, ℕ, ◌+◌, refl, true, false, not, Text, none, some, Option, List, [], ◌∷◌, ◌==◌, codes,
  nat_eq, text_eq, option_eq,
}
use zoocooker.Base.Dict
use zoocooker.Base.Assert.{unwrap, assert, Passes}
use zoocooker.Base.Exec.{Exec, Result, ok, err, panic, lift, ◌>>=◌, ◌>>◌}
use zoocooker.Protocol.Types.{Bytes, SessionId, Command, create, set_data, delete, Applied, ZkError}
use zoocooker.Protocol.Paths.{normalize, parent_of, leaf_name}
use zoocooker.Storage.Order.{
  set_insert, set_remove, sort_deepest_first, text_compare, deepest_first, depth,
}
use zoocooker.Storage.Store.{
  apply, create_path, choose_path, create_node, delete_node, check_version, exists,
  ephemeral_paths_for_session, owned_paths, ephemeral_session_ids, distinct_owners,
}
use zoocooker.Storage.Persistence.{
  WalRecord, Codec, PersistenceError, done, append, read_exact, replay_loop, replay, replay_into,
  frame, to_le_bytes, from_le_bytes,
}
use zoocooker.Consensus.Interface.{Consensus}
use zoocooker.Consensus.Persistent.{
  PersistentNode, submit, from_store_and_wal, restart, persistent_node,
}
use zoocooker.Server.Session.{
  Instant, heartbeat_at, seed_sessions, collect_expired_at, expired_ids, remove_session,
  has_session,
}
use zoocooker.Server.Watch.{take_matching, take_event}
use zoocooker.Server.Metrics.{default_config}
use zoocooker.Server.Service.{
  Service, Status, with_config, seed_restored_sessions, cleanup_expired_sessions, clean_sessions,
  delete_paths, notify,
}
use zoocooker.Server.Endpoint
use zoocooker.Server.Conformance.{texts}

-- a codec for creates of empty nodes that a session owns, and for deletes
abbrev written : WalRecord → Bytes
written r = elim r.command [
  | create path _ _ _ (some id) ↦ 1 ∷ r.zxid ∷ id ∷ path
  | create path _ _ _ none ↦ []
  | set_data path _ _ ↦ []
  | delete path _ ↦ 0 ∷ r.zxid ∷ 0 ∷ path
]

abbrev command_of : ℕ → SessionId → Text → Command
command_of zero id path = delete path none
command_of (suc _) id path = create path [] true false (some id)

abbrev read : Bytes → Option WalRecord
read (tag ∷ z ∷ id ∷ path) = some (record { zxid = z; command = command_of tag id path })
read _ = none

abbrev codec : Codec
codec = record {
  to_vec = written;
  from_slice = read;
  snapshot_to_vec = λ v s. [];
  snapshot_from_slice = λ bytes. none;
}

abbrev describe : PersistenceError → Text
describe e = []

abbrev node : Consensus PersistentNode
node = persistent_node codec describe done

abbrev lock : Text
lock = codes "/lock"

-- The state of the test is the file of the log.
abbrev TestM : Type 0 → Type 0
TestM A = Exec (Option Bytes) ZkError A

abbrev new : TestM PersistentNode
new wal = (restart codec describe wal, wal)

abbrev submits : Command → PersistentNode → TestM Applied
submits command first wal =
    let (r, after) = submit codec describe done command first in (r, after.wal)

-- a reply of the service, unwrapped
abbrev replied : {A : Type 0} → Result Status A → Result ZkError A
replied (ok a) = ok a
replied (err e) = panic
replied panic = panic

-- `now` is the clock at the restart, and `id` the session.
abbrev restored_ephemeral_node_is_cleaned_up_after_seeded_session_expires :
    Instant → SessionId → TestM (Unit {0})
restored_ephemeral_node_is_cleaned_up_after_seeded_session_expires now id = do
  first_consensus ← unwrap new
  unwrap (submits (create lock [] true false (some id)) first_consensus)
  restarted_consensus ← unwrap new
  let restored_sessions : List SessionId = ephemeral_session_ids restarted_consensus.store
  assert (restored_sessions == id ∷ [])
  let service : Service PersistentNode =
      seed_restored_sessions restored_sessions now
        (with_config restarted_consensus (record default_config { session_ttl = 1 }))
  let after : List SessionId × Service PersistentNode =
      cleanup_expired_sessions node texts (now + 5) service
  assert (after.0 == id ∷ [])
  found ← lift (replied (Endpoint.exists node texts (record { path = lock }) after.1).0)
  assert (not found.exists)

restored_tests_pass :
    Passes (restored_ephemeral_node_is_cleaned_up_after_seeded_session_expires 100 7) none
unfolding submit from_store_and_wal restart append frame read_exact replay_loop replay replay_into
    to_le_bytes from_le_bytes ephemeral_session_ids distinct_owners seed_restored_sessions
    seed_sessions Endpoint.exists notify take_matching take_event heartbeat_at collect_expired_at
    expired_ids remove_session has_session cleanup_expired_sessions clean_sessions delete_paths
    ephemeral_paths_for_session owned_paths sort_deepest_first deepest_first depth apply create_path
    choose_path create_node delete_node check_version exists normalize parent_of leaf_name
    set_insert set_remove text_compare Dict.get Dict.insert Dict.remove Dict.contains_key nat_eq
    text_eq option_eq
restored_tests_pass = refl
