-- ===== src/Server/Tasks.antt =====
-- The requests and the cleanup of crates/server/src/service.rs as tasks that run at the same time: a
-- task holds a lock for one step, and between two of its steps other tasks may run.
pub mod Interleaving
pub mod Tests
use zoocooker.Base.{
  ℕ, zero, suc, ◌+◌, Bool, true, false, Text, Option, none, some, List, [], ◌∷◌, ◌++◌,
  if◌then◌else◌,
}
use zoocooker.Base.Exec.{ok, err, panic, is_ok}
use zoocooker.Protocol.Types.{
  SessionId, WatchEvent, WatchKind, Command, create, set_data, delete, ApplyResult,
}
use zoocooker.Protocol.Proto.{
  CreateRequest, GetRequest, SetRequest, DeleteRequest, ExistsRequest, WatchRequest,
  HeartbeatRequest,
}
use zoocooker.Consensus.Interface.{Consensus}
use zoocooker.Server.Session.{Instant, collect_expired_at, remove_session, heartbeat_at}
use zoocooker.Server.Watch.{Sender}
use zoocooker.Server.Metrics.{inc_session_cleanups}
use zoocooker.Server.Service.{
  Service, Texts, submit, notify, count_write, count_read, check_session, created_path, set_version,
  is_deleted, watch_kind, register_watch, channel_fits, bind_option, is_no_node,
}
use zoocooker.Server.Endpoint.{Env}
use zoocooker.Server.Requests.{Request, Event, call, tick}

-- What a task has still to do. A cleanup carries the sessions to come and the number that it has
-- cleaned up, and within a session its paths to come.
pub data Task : Type 0 where
  finished : Task
  checks : Bool → Option SessionId → Command → Task
  submits : Command → Task
  sends : List WatchEvent → Task
  counts : Task
  gets : Text → Task
  looks : Text → Task
  counts_read : Task
  registers : (Sender → Bool) → Sender → Text → WatchKind → Task
  beats : SessionId → Option SessionId → Instant → Task
  collects : Instant → Task
  cleans : List SessionId → ℕ → Task
  deletes : List Text → SessionId → List SessionId → ℕ → Task
  deleted_sends : List WatchEvent → List Text → SessionId → List SessionId → ℕ → Task

module _ {S : Type 0} (impl : Consensus S) (texts : Texts) where
  -- whether the handler of the command takes the result for its own
  abbrev pub is_expected : Command → ApplyResult → Bool
  is_expected (create _ _ _ _ _) r = is_ok (created_path impl texts r)
  is_expected (set_data _ _ _) r = is_ok (set_version impl texts r)
  is_expected (delete _ _) r = is_ok (is_deleted impl texts r)

  -- one step of a task: what it has still to do, and the service after it
  unfoldable pub advance : Task → Service S → Task × Service S
  advance finished s = (finished, s)
  advance (checks ephemeral id command) s =
      (if is_ok (check_session impl texts ephemeral id s).0 then submits command else finished, s)
  advance (submits command) s =
      let (r, s') = submit impl texts command s in
      elim r [
        | ok applied ↦ (
          if is_expected command applied.result then sends applied.watch_events else finished,
          s',
        )
        | err _ ↦ (finished, s')
        | panic ↦ (finished, s')
      ]
  advance (sends events) s = (counts, notify impl texts events s)
  advance counts s = (finished, count_write impl texts s)
  advance (gets path) s =
      (if is_ok (impl.get_data s.consensus path) then counts_read else finished, s)
  advance (looks path) s =
      (if is_ok (impl.exists s.consensus path) then counts_read else finished, s)
  advance counts_read s = (finished, count_read impl texts s)
  advance (registers closed tx path kind) s =
      let after : Service S = (register_watch impl texts closed tx path kind s).1 in
      (finished, if channel_fits impl texts s.config.watch_channel_capacity then after else s)
  advance (beats fresh id now) s =
      (finished, record s { sessions = (heartbeat_at fresh id now s.sessions).1 })
  advance (collects now) s = (cleans (collect_expired_at now s.sessions) 0, s)
  advance (cleans [] n) s = (finished, record s { metrics = inc_session_cleanups n s.metrics })
  advance (cleans (id ∷ ids) n) s =
      (deletes (impl.ephemeral_paths_for_session s.consensus id) id ids n, s)
  advance (deletes [] id ids n) s =
      (cleans ids (n + 1), record s { sessions = remove_session id s.sessions })
  advance (deletes (path ∷ paths) id ids n) s =
      let (r, s') = submit impl texts (delete path none) s in
      elim r [
        | ok applied ↦ (deleted_sends applied.watch_events paths id ids n, s')
        | err e ↦ (if is_no_node e then deletes paths id ids n else cleans ids n, s')
        | panic ↦ (finished, s')
      ]
  advance (deleted_sends events paths id ids n) s =
      (deletes paths id ids n, notify impl texts events s)

  -- what a request, or a tick of the cleanup, starts
  unfoldable pub task_of : Event → Task
  task_of (call env (Request.create req)) =
      let id : Option SessionId = bind_option req.session_id texts.parse_uuid in
      checks req.ephemeral id (create req.path req.content req.ephemeral req.sequential id)
  task_of (call env (Request.get req)) = gets req.path
  task_of (call env (Request.set req)) =
      submits (set_data req.path req.content req.expected_version)
  task_of (call env (Request.delete req)) = submits (delete req.path req.expected_version)
  task_of (call env (Request.exists req)) = looks req.path
  task_of (call env (Request.watch req)) = elim (watch_kind impl texts req.kind) [
    | none ↦ finished
    | some kind ↦ registers env.closed env.tx req.path kind
  ]
  task_of (call env (Request.heartbeat req)) =
      beats env.fresh (bind_option req.session_id texts.parse_uuid) env.now
  task_of (tick now) = collects now

  -- a step of the task at the place `i`
  unfoldable pub advance_at : ℕ → List Task → Service S → List Task × Service S
  advance_at i [] s = ([], s)
  advance_at zero (t ∷ ts) s = let (t', s') = advance t s in (t' ∷ ts, s')
  advance_at (suc i) (t ∷ ts) s = let (ts', s') = advance_at i ts s in (t ∷ ts', s')

pub data Move : Type 0 where
  arrives : Event → Move
  runs : ℕ → Move

module _ {S : Type 0} (impl : Consensus S) (texts : Texts) where
  -- a schedule: tasks arrive, and run a step each in any order
  unfoldable pub run_moves : List Move → List Task → Service S → List Task × Service S
  run_moves [] ts s = (ts, s)
  run_moves (arrives e ∷ moves) ts s = run_moves moves (ts ++ task_of impl texts e ∷ []) s
  run_moves (runs i ∷ moves) ts s =
      let (ts', s') = advance_at impl texts i ts s in run_moves moves ts' s'
