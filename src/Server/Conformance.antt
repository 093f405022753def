-- ===== src/Server/Conformance.antt =====
-- The unit tests of crates/server/src/service.rs and metrics.rs, on the model: the service on a
-- single node, and on a follower of a cluster. No channel is closed; instants are milliseconds.
mod Restored
mod Watches
use zoocooker.Base.{
  ◌-◌, ◌≡◌, refl, Bool, true, false, ◌&&◌, ◌||◌, not, Text, none, some, Option, List, [], ◌∷◌, ◌==◌,
  codes, length, nat_eq, text_eq, option_eq,
}
use zoocooker.Base.Dict
use zoocooker.Base.Assert.{unwrap, unwrap_err, assert, Passes}
use zoocooker.Base.Exec.{Exec, ok, gets, lift, modify, expect, ◌>>=◌, ◌>>◌}
use zoocooker.Protocol.Types.{Bytes, SessionId}
use zoocooker.Protocol.Paths.{normalize, parent_of, leaf_name}
use zoocooker.Protocol.Proto.{CreateRequest}
use zoocooker.Storage.Order.{
  set_insert, set_remove, sort_deepest_first, text_compare, deepest_first, depth,
}
use zoocooker.Storage.Store.{
  TreeStore, default_store, apply, create_path, choose_path, create_node, set_node, delete_node,
  check_version, find_node, get_data, exists, ephemeral_paths_for_session, owned_paths,
}
use zoocooker.Consensus.Single.{single_node}
use zoocooker.Consensus.Cluster.{
  ClusterState, cluster, new_stores, cluster_node, submit, set_leader, ensure_leader,
}
use zoocooker.Server.Session.{
  Instant, heartbeat_at, collect_expired_at, expired_ids, remove_session, has_session,
}
use zoocooker.Server.Watch.{take_matching, take_event}
use zoocooker.Server.Metrics.{
  default_config, MetricsSnapshot, default_metrics, inc_reads, inc_writes, inc_watch_registrations,
  inc_watch_rejections, inc_session_cleanups,
}
use zoocooker.Server.Service.{
  Service, Status, Code, failed_precondition, Texts, with_config, cleanup_expired_sessions,
  clean_sessions, delete_paths, notify, status_from_error, check_session,
}
use zoocooker.Server.Endpoint.{Env}
use zoocooker.Server.Endpoint

-- printed errors are empty, and a session's text is its number
abbrev pub texts : Texts
texts = record {
  display = λ e. [];
  parse_uuid = uuid_of;
  print_uuid = λ id. id ∷ [];
  limit_text = λ n. [];
}
  where
    uuid_of : Text → Option SessionId
    uuid_of (id ∷ []) = some id
    uuid_of _ = none

abbrev pub service : Service TreeStore
service = with_config default_store default_config

abbrev pub app : Text
app = codes "/app"

abbrev pub ServiceTest : Type 0 → Type 0
ServiceTest S = Exec (Service S) Status (Unit {0})

abbrev pub create_request : Text → Bytes → CreateRequest
create_request path bytes = record {
  path = path;
  content = bytes;
  ephemeral = false;
  sequential = false;
  session_id = none;
}

abbrev handles_crud_flow : ServiceTest TreeStore
handles_crud_flow = do
  absent ← unwrap (Endpoint.exists single_node texts (record { path = app }))
  assert (not absent.exists)
  assert (absent.version == none)
  new ← unwrap (Endpoint.create single_node texts (create_request app (codes "one")))
  assert (new.path == app)
  got ← unwrap (Endpoint.get single_node texts (record { path = app }))
  assert (got.content == codes "one")
  assert (got.version == 0)
  changed ← unwrap (
      Endpoint.set single_node texts
        (record { path = app; content = codes "two"; expected_version = some 0 }))
  assert (changed.version == 1)
  unwrap (Endpoint.delete single_node texts (record { path = app; expected_version = some 1 }))
  gone ← unwrap (Endpoint.exists single_node texts (record { path = app }))
  assert (not gone.exists)

-- `now` is the clock during the test.
abbrev cleanup_expired_session_deletes_ephemeral_node : Env → ServiceTest TreeStore
cleanup_expired_session_deletes_ephemeral_node env = do
  session ← unwrap (Endpoint.heartbeat single_node texts env (record { session_id = none }))
  unwrap (
      Endpoint.create single_node texts (record (create_request (codes "/e") []) {
        ephemeral = true;
        session_id = some session.session_id;
      }))
  id ← lift (expect (texts.parse_uuid session.session_id))
  modify (λ s. record s { sessions = (heartbeat_at id (some id) (env.now - 11_000) s.sessions).1 })
  expired ← cleanup env.now
  assert (length expired == 1)
  gone ← unwrap (Endpoint.exists single_node texts (record { path = codes "/e" }))
  assert (not gone.exists)
  where
    cleanup : Instant → Exec (Service TreeStore) Status (List SessionId)
    cleanup now s = let (ids, s') = cleanup_expired_sessions single_node texts now s in (ok ids, s')

abbrev is_failed_precondition : Code → Bool
is_failed_precondition failed_precondition = true
is_failed_precondition _ = false

abbrev metrics_count_reads_and_writes : ServiceTest TreeStore
metrics_count_reads_and_writes = do
  unwrap (Endpoint.create single_node texts (create_request app []))
  unwrap (Endpoint.exists single_node texts (record { path = app }))
  metrics ← gets (λ s. s.metrics)
  assert (metrics.writes == 1)
  assert (metrics.reads == 1)

abbrev starts_with : Text → Text → Bool
starts_with [] text = true
starts_with (c ∷ part) [] = false
starts_with (c ∷ part) (d ∷ text) = c == d && starts_with part text

-- `message.contains(part)`
abbrev holds_text : Text → Text → Bool
holds_text part [] = starts_with part []
holds_text part (c ∷ text) = starts_with part (c ∷ text) || holds_text part text

abbrev follower_service_rejects_write_with_leader_hint : ServiceTest ClusterState
follower_service_rejects_write_with_leader_hint = do
  error ← unwrap_err (Endpoint.create (cluster_node (codes "n2")) texts (create_request app []))
  assert (is_failed_precondition error.code)
  assert (holds_text (codes "leader=n1") error.message)

abbrev three : ClusterState
three = record {
  leader_id = codes "n1";
  term = 1;
  stores = new_stores (codes "n1" ∷ codes "n2" ∷ codes "n3" ∷ []) [];
  log = [];
  committed = 0;
}

three_new : cluster (codes "n1" ∷ codes "n2" ∷ codes "n3" ∷ []) ≡ some three
unfolding cluster
three_new = refl

-- the channel 5, the session 7, at the instant 20_000
abbrev pub env : Env
env = record { closed = λ tx. false; tx = 5; fresh = 7; now = 20_000 }

service_tests_pass :
    Passes handles_crud_flow service
    × Passes (cleanup_expired_session_deletes_ephemeral_node env) service
    × Passes metrics_count_reads_and_writes service
    × Passes follower_service_rejects_write_with_leader_hint (with_config three default_config)
unfolding Endpoint.exists Endpoint.create Endpoint.get Endpoint.set Endpoint.delete
    Endpoint.heartbeat notify take_matching take_event submit set_leader ensure_leader new_stores
    status_from_error check_session heartbeat_at collect_expired_at expired_ids remove_session
    has_session cleanup_expired_sessions clean_sessions delete_paths ephemeral_paths_for_session
    owned_paths sort_deepest_first deepest_first depth apply create_path choose_path create_node
    set_node delete_node check_version find_node get_data exists normalize parent_of leaf_name
    set_insert set_remove text_compare Dict.get Dict.insert Dict.remove Dict.contains_key nat_eq
    text_eq option_eq
service_tests_pass = (refl, refl, refl, refl)

-- a new snapshot after one call of each counter
abbrev metrics_snapshot_reflects_counters : Exec MetricsSnapshot (Unit {0}) (Unit {0})
metrics_snapshot_reflects_counters = do
  modify inc_reads
  modify inc_writes
  modify inc_watch_registrations
  modify inc_watch_rejections
  modify (inc_session_cleanups 2)
  snapshot ← gets (λ m. m)
  assert (snapshot.reads == 1)
  assert (snapshot.writes == 1)
  assert (snapshot.watch_registrations == 1)
  assert (snapshot.watch_rejections == 1)
  assert (snapshot.session_cleanups == 2)

metrics_tests_pass : Passes metrics_snapshot_reflects_counters default_metrics
unfolding nat_eq
metrics_tests_pass = refl
