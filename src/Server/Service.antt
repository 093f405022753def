-- ===== src/Server/Service.antt =====
-- crates/server/src/service.rs, over any implementation of `Consensus`.
pub mod Cleanup
pub mod Deletions
pub mod Owners
pub mod Progress
pub mod Writes
pub mod Calls
pub mod Rounds
pub mod Tests
use zoocooker.Base.{
  ltb, ◌&&◌, ℕ, ◌%◌, ◌^◌, Bool, true, false, Text, Option, none, some, List, [], ◌∷◌, ◌++◌, length,
  ◌==◌, nat_eq, codes, if◌then◌else◌,
}
use zoocooker.Base.Exec.{Exec, Result, ok, err, panic, pure, lift, gets, modify, ◌>>=◌, ◌>>◌}
use zoocooker.Protocol.Types.{
  Bytes, SessionId, Int32, WatchKind, data_watch, children_watch, WatchEvent, Command, create,
  set_data, delete, ApplyResult, created, node_data, deleted, exists_result, Applied, ZkError,
  invalid_path, node_exists, no_node, no_parent, not_empty, bad_version, ephemeral_parent,
  invalid_session, persistence, not_leader, resource_exhausted, unimplemented,
}
use zoocooker.Consensus.Interface.{Consensus}
use zoocooker.Server.Session.{
  SessionManager, Instant, new_manager, heartbeat_at, collect_expired_at, remove_session,
  has_session, seed_sessions,
}
use zoocooker.Server.Watch.{WatchRegistry, Sender, new_registry, register, take_matching}
use zoocooker.Server.Metrics.{
  MetricsSnapshot, ServerConfig, default_metrics, inc_reads, inc_writes, inc_watch_registrations,
  inc_watch_rejections, inc_session_cleanups,
}

-- the codes of `tonic::Status` that the service uses
pub data Code : Type 0 where
  invalid_argument already_exists not_found failed_precondition : Code
  internal exhausted not_implemented : Code

pub record Status : Type 0 where
  pub code : Code
  pub message : Text

-- What the service uses and this repository does not hold: the printed errors, the UUIDs' text.
pub record Texts : Type 0 where
  pub display : ZkError → Text
  pub parse_uuid : Text → Option SessionId
  pub print_uuid : SessionId → Text
  pub limit_text : ℕ → Text

-- `sent` is what has been handed to the channels of watchers, oldest first.
pub record Service (S : Type 0) : Type 0 where
  pub consensus : S
  pub sessions : SessionManager
  pub watches : WatchRegistry
  pub config : ServerConfig
  pub metrics : MetricsSnapshot
  pub sent : List (Sender × WatchEvent)

abbrev pub with_config : {S : Type 0} → S → ServerConfig → Service S
with_config consensus config = record {
  consensus = consensus;
  sessions = new_manager config.session_ttl;
  watches = new_registry config.max_watches;
  config = config;
  metrics = default_metrics;
  sent = [];
}

module _ (texts : Texts) where
  abbrev pub status : Code → ZkError → Status
  status code e = record { code = code; message = texts.display e }

  leader_hint : Option Text → Text
  leader_hint none = codes "not leader"
  leader_hint (some leader) = codes "not leader; leader=" ++ leader

  unfoldable pub status_from_error : ZkError → Status
  unfolding leader_hint
  status_from_error (invalid_path p) = status invalid_argument (invalid_path p)
  status_from_error invalid_session = status invalid_argument invalid_session
  status_from_error (node_exists p) = status already_exists (node_exists p)
  status_from_error (no_node p) = status not_found (no_node p)
  status_from_error (no_parent p) = status not_found (no_parent p)
  status_from_error (bad_version e a) = status failed_precondition (bad_version e a)
  status_from_error (not_empty p) = status failed_precondition (not_empty p)
  status_from_error ephemeral_parent = status failed_precondition ephemeral_parent
  status_from_error (persistence m) = status internal (persistence m)
  status_from_error (not_leader id) = record {
    code = failed_precondition;
    message = leader_hint id;
  }
  status_from_error (resource_exhausted m) = status exhausted (resource_exhausted m)
  status_from_error (unimplemented m) = status not_implemented (unimplemented m)

abbrev pub invalid : Text → Status
invalid message = record { code = invalid_argument; message = message }

abbrev pub unexpected : Text → Status
unexpected message = record { code = internal; message = message }

abbrev pub bind_option : {A B : Type 0} → Option A → (A → Option B) → Option B
bind_option none f = none
bind_option (some a) f = f a

abbrev pub is_no_node : ZkError → Bool
is_no_node (no_node _) = true
is_no_node _ = false

module _ {S : Type 0} (impl : Consensus S) (texts : Texts) where
  abbrev pub ServiceM : Type 0 → Type 0
  ServiceM A = Exec (Service S) Status A

  -- `self.consensus.submit(command)`
  abbrev pub submit : Command → Exec (Service S) ZkError Applied
  submit command s =
      let (r, consensus) = impl.submit command s.consensus in
      (r, record s { consensus = consensus })

  abbrev pub map_status : {A : Type 0} → Result ZkError A → Result Status A
  map_status (ok a) = ok a
  map_status (err e) = err (status_from_error texts e)
  map_status panic = panic

  -- `submit(command).await.map_err(status_from_error)?`
  abbrev pub submit_status : Command → ServiceM Applied
  submit_status command s = let (r, s') = submit command s in (map_status r, s')

  -- `take_matching`, and the sends
  unfoldable pub notify : List WatchEvent → Service S → Service S
  notify events s =
      let (out, watches) = take_matching events s.watches in
      record s { watches = watches; sent = s.sent ++ out }

  abbrev pub count_write : Service S → Service S
  count_write s = record s { metrics = inc_writes s.metrics }

  abbrev pub count_read : Service S → Service S
  count_read s = record s { metrics = inc_reads s.metrics }

  -- the checks of `if req.ephemeral`
  unfoldable pub check_session : Bool → Option SessionId → ServiceM (Unit {0})
  check_session false id s = (ok tt, s)
  check_session true none s = (err (invalid (codes "ephemeral node requires session_id")), s)
  check_session true (some id) s =
      if has_session s.sessions id
      then (ok tt, s)
      else (err (invalid (codes "unknown session_id")), s)

  -- what the handlers of writes share: the submit, the reading of its result by `pick`, the events and
  -- the count
  unfoldable pub write : {A : Type 0} → Command → (ApplyResult → Result Status A) → ServiceM A
  unfolding notify
  write command pick = do
    applied ← submit_status command
    reply ← lift (pick applied.result)
    modify (notify applied.watch_events)
    modify count_write
    pure reply

  abbrev pub created_path : ApplyResult → Result Status Text
  created_path (created path) = ok path
  created_path (node_data _ _) = err (unexpected (codes "create returned unexpected result"))
  created_path deleted = err (unexpected (codes "create returned unexpected result"))
  created_path (exists_result _ _) = err (unexpected (codes "create returned unexpected result"))

  -- `create` from its submit on
  unfoldable pub finish_create : Text → Bytes → Bool → Bool → Option SessionId → ServiceM Text
  unfolding write
  finish_create path bytes ephemeral sequential session_id =
      write (create path bytes ephemeral sequential session_id) created_path

  unfoldable pub handle_create : Text → Bytes → Bool → Bool → Option Text → ServiceM Text
  unfolding check_session finish_create
  handle_create path bytes ephemeral sequential raw = do
    let session_id : Option SessionId = bind_option raw texts.parse_uuid
    check_session ephemeral session_id
    finish_create path bytes ephemeral sequential session_id

  abbrev pub set_version : ApplyResult → Result Status Int32
  set_version (created _) = err (unexpected (codes "set returned unexpected result"))
  set_version (node_data _ version) = ok version
  set_version deleted = err (unexpected (codes "set returned unexpected result"))
  set_version (exists_result _ _) = err (unexpected (codes "set returned unexpected result"))

  unfoldable pub handle_set : Text → Bytes → Option Int32 → ServiceM Int32
  unfolding write
  handle_set path bytes expected_version = write (set_data path bytes expected_version) set_version

  abbrev pub is_deleted : ApplyResult → Result Status (Unit {0})
  is_deleted (created _) = err (unexpected (codes "delete returned unexpected result"))
  is_deleted (node_data _ _) = err (unexpected (codes "delete returned unexpected result"))
  is_deleted deleted = ok tt
  is_deleted (exists_result _ _) = err (unexpected (codes "delete returned unexpected result"))

  unfoldable pub handle_delete : Text → Option Int32 → ServiceM (Unit {0})
  unfolding write
  handle_delete path expected_version = write (delete path expected_version) is_deleted

  unfoldable pub handle_get : Text → ServiceM (Bytes × Int32)
  handle_get path = do
    found ← gets (λ s. impl.get_data s.consensus path)
    reply ← lift (map_status found)
    modify count_read
    pure reply

  unfoldable pub handle_exists : Text → ServiceM (Option Int32)
  handle_exists path = do
    found ← gets (λ s. impl.exists s.consensus path)
    version ← lift (map_status found)
    modify count_read
    pure version

  abbrev pub watch_kind : ℕ → Option WatchKind
  watch_kind kind =
      if kind == 1 then some data_watch else if kind == 2 then some children_watch else none

  -- the `match` on the registration
  unfoldable pub register_watch : (Sender → Bool) → Sender → Text → WatchKind → ServiceM (Unit {0})
  register_watch closed tx path kind s =
      let (r, watches) = register texts.limit_text closed path kind tx s.watches in
      elim r [
        | ok _ ↦
            (ok tt, record s { watches = watches; metrics = inc_watch_registrations s.metrics })
        | err e ↦ (
          err (status_from_error texts e),
          record s { watches = watches; metrics = inc_watch_rejections s.metrics },
        )
        | panic ↦ (panic, record s { watches = watches })
      ]

  -- `mpsc::channel`, which panics for no capacity, and for more than `usize::MAX >> 3`
  abbrev pub channel_fits : ℕ → Bool
  channel_fits capacity = ltb 0 capacity && ltb capacity (2 ^ 61)

  -- `tx` is the sender of the new channel; the reply is the stream of its receiver.
  unfoldable pub handle_watch : (Sender → Bool) → Sender → Text → ℕ → ServiceM (Unit {0})
  unfolding register_watch
  handle_watch closed tx path kind s = elim (watch_kind kind) [
    | none ↦ (err (invalid (codes "invalid watch kind")), s)
    | some k ↦
        if channel_fits s.config.watch_channel_capacity
        then register_watch closed tx path k s
        else (panic, s)
  ]

  -- `fresh` is the UUID that a new session would get; the reply is the session's text and the TTL.
  unfoldable pub handle_heartbeat : SessionId → Instant → Option Text → ServiceM (Text × ℕ)
  handle_heartbeat fresh now raw s =
      let (id, sessions) = heartbeat_at fresh (bind_option raw texts.parse_uuid) now s.sessions in
      (ok (texts.print_uuid id, sessions.ttl % 2 ^ 64), record s { sessions = sessions })

  -- The loop over the paths of one session: whether all of them are gone. A submit that panics ends the
  -- session's round here, where the code would lose the task; `Keeps` rules it out.
  unfoldable pub delete_paths : List Text → Service S → Bool × Service S
  delete_paths [] s = (true, s)
  delete_paths (path ∷ paths) s =
      let (r, s') = submit (delete path none) s in
      elim r [
        | ok applied ↦ delete_paths paths (notify applied.watch_events s')
        | err e ↦ let rest = delete_paths paths s' in if is_no_node e then rest else (false, s')
        | panic ↦ (false, s')
      ]

  -- the loop over the expired sessions: those that were cleaned up
  unfoldable pub clean_sessions : List SessionId → Service S → List SessionId × Service S
  unfolding delete_paths
  clean_sessions [] s = ([], s)
  clean_sessions (id ∷ ids) s =
      let (done, s') = delete_paths (impl.ephemeral_paths_for_session s.consensus id) s in
      let (cleaned, s'') =
        clean_sessions ids (record s' { sessions = remove_session id s'.sessions }) in
      let kept = clean_sessions ids s' in if done then (id ∷ cleaned, s'') else kept

  unfoldable pub cleanup_expired_sessions : Instant → Service S → List SessionId × Service S
  unfolding clean_sessions
  cleanup_expired_sessions now s =
      let (cleaned, s') = clean_sessions (collect_expired_at now s.sessions) s in
      (cleaned, record s' { metrics = inc_session_cleanups (length cleaned) s'.metrics })

-- The clock is read once for each session there, and stands still meanwhile here.
unfoldable pub seed_restored_sessions :
    {S : Type 0} → List SessionId → Instant → Service S → Service S
seed_restored_sessions ids now s = record s { sessions = seed_sessions ids now s.sessions }
