-- ===== src/Server/Requests/Sound.antt =====
-- What holds of a server after any requests and cleanups.
pub mod State
pub mod Calls
pub mod Cleanup
use zoocooker.Base.{
  ℕ, ◌≡◌, ◌⊎◌, ◌≤◌, refl, sym, ap, ◌∙◌, Bool, true, false, Bool-cases, inl, inr, Text, Option, none,
  some, List, [], ◌∷◌, arith, if◌then◌else◌, nat_eq, ◌==◌, leb, subst, codes, Option-cases,
}
use zoocooker.Base.Dict
use zoocooker.Base.Exec.{
  Result, ok, err, panic, Result-split, is_ok, Result-cases, state-map, continue, modify, pure,
  Exec, ◌>>◌,
}
use zoocooker.Protocol.Types.{
  Bytes, SessionId, Int32, Command, create, set_data, delete, Applied, ApplyResult, WatchEvent,
  ZkError, WatchKind, data_watch, children_watch,
}
use zoocooker.Protocol.Proto.{
  CreateRequest, GetRequest, SetRequest, DeleteRequest, ExistsRequest, WatchRequest,
  HeartbeatRequest,
}
use zoocooker.Storage.Store.{TreeStore, default_store, apply, ephemeral_paths_for_session}
use zoocooker.Storage.Store.Shape.{IsTree, default_store-IsTree}
use zoocooker.Storage.Store.Apply.{apply-IsTree, apply-ne-panic}
use zoocooker.Consensus.Interface.{Consensus, Keeps}
use zoocooker.Server.Session.{
  Instant, SessionManager, collect_expired_at, has_session, heartbeat_at, remove_session, or_new,
}
use zoocooker.Server.Watch.{
  WatchRegistry, Sender, Watchers, register, sweep_closed, take_event, take_matching, served,
  without,
}
use zoocooker.Server.Watch.Capacity.{IsCounted, total, register-IsCounted, take_matching-IsCounted}
use zoocooker.Server.Metrics.{
  ServerConfig, MetricsSnapshot, inc_watch_registrations, inc_watch_rejections,
}
use zoocooker.Server.Service.{
  Service, Status, Texts, notify, write, submit, handle_create, handle_watch, handle_heartbeat,
  check_session, finish_create, register_watch, invalid, handle_get, handle_exists, count_read,
  Code, watch_kind, delete_paths, clean_sessions, cleanup_expired_sessions, is_no_node, with_config,
  bind_option, created_path, set_version, is_deleted,
}
use zoocooker.Server.Service.Writes.{submitted, completed, write-cases}
use zoocooker.Server.Service.Deletions.{
  delete_paths-IsTree, after_delete, delete_paths-ok, delete_paths-err,
}
use zoocooker.Server.Endpoint.{Env}
use zoocooker.Server.Endpoint
use zoocooker.Server.Start.{single_node_with_config}
use zoocooker.Server.Service.Owners.{round, forget, clean_sessions-done, clean_sessions-kept}
use zoocooker.Server.Requests.{Request, Event, call, tick, serve, step, run_events}
use zoocooker.Server.Requests.Sound.State.{
  IsSound, notify-IsSound, submitted-IsSound, metrics-IsSound, write-IsSound,
}
use zoocooker.Server.Requests.Sound.Calls.{
  create-IsSound, set-IsSound, delete-IsSound, get-IsSound, exists-IsSound, watch-IsSound,
  heartbeat-IsSound,
}
use zoocooker.Server.Requests.Sound.Cleanup.{tick-IsSound}

module _ {S : Type 0} {impl : Consensus S} {P : S → Type 0} (keeps : Keeps impl P)
    (texts : Texts) where
  serve-IsSound :
      (env : Env) (req : Request) (s : Service S)
      → IsSound P s
      → IsSound P (serve impl texts env req s)
  serve-IsSound env (Request.create req) s v = unfold serve in create-IsSound keeps texts req s v
  serve-IsSound env (Request.get req) s v = unfold serve in get-IsSound keeps texts req s v
  serve-IsSound env (Request.set req) s v = unfold serve in set-IsSound keeps texts req s v
  serve-IsSound env (Request.delete req) s v = unfold serve in delete-IsSound keeps texts req s v
  serve-IsSound env (Request.exists req) s v = unfold serve in exists-IsSound keeps texts req s v
  serve-IsSound env (Request.watch req) s v = unfold serve in watch-IsSound keeps texts env req s v
  serve-IsSound env (Request.heartbeat req) s v =
      unfold serve in heartbeat-IsSound keeps texts env req s v

  step-IsSound : (e : Event) (s : Service S) → IsSound P s → IsSound P (step impl texts e s)
  step-IsSound (call env req) s v = unfold step in serve-IsSound env req s v
  step-IsSound (tick now) s v = unfold step in tick-IsSound keeps texts now s v

  pub run_events_keeps-IsSound :
      (es : List Event) (s : Service S) → IsSound P s → IsSound P (run_events impl texts es s)
  run_events_keeps-IsSound [] s v = v
  run_events_keeps-IsSound (e ∷ es) s v =
      run_events_keeps-IsSound es (step impl texts e s) (step-IsSound e s v)

-- a server that has served nothing yet
pub start-IsSound :
    {S : Type 0} (P : S → Type 0) (consensus : S) (config : ServerConfig)
    → P consensus
    → IsSound P (with_config consensus config)
start-IsSound P consensus config h = record {
  kept = h;
  counted = record {
    counted = unfold total in refl;
    limited = omega arith;
    data_distinct = tt;
    child_distinct = tt;
  };
  distinct = tt;
  ttl = refl;
  limit = refl;
}

-- A server over a consensus all of whose submits reply and keep a property of its state, where the
-- property holds at the start, with any configuration, after any requests and cleanups: the property
-- holds, the count of watchers is exact and within the configured limit, no session is listed twice,
-- and the sessions have the configured TTL.
pub run_events-IsSound :
    {S : Type 0} (impl : Consensus S) (P : S → Type 0) (texts : Texts) (config : ServerConfig)
    (consensus : S) (es : List Event)
    → Keeps impl P
    → P consensus
    → IsSound P (run_events impl texts es (with_config consensus config))
run_events-IsSound impl P texts config consensus es keeps h =
    run_events_keeps-IsSound keeps texts es (with_config consensus config)
      (start-IsSound P consensus config h)
