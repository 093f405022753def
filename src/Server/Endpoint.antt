-- ===== src/Server/Endpoint.antt =====
-- The trait `Coordination` of crates/server/src/service.rs: the handlers over the messages.
use zoocooker.Base.{
  Bool, true, false, Option, none, some, List, [], ◌∷◌, nat_eq, ◌==◌, if◌then◌else◌,
}
use zoocooker.Base.Exec.{Exec, pure, ◌>>=◌, ◌>>◌}
use zoocooker.Protocol.Types.{
  SessionId, WatchEventKind, node_created, node_deleted, node_data_changed, node_children_changed,
  WatchEvent,
}
use zoocooker.Protocol.Proto.{
  CreateRequest, CreateResponse, GetRequest, GetResponse, SetRequest, SetResponse, DeleteRequest,
  DeleteResponse, ExistsRequest, ExistsResponse, WatchRequest, ProtoWatchEvent, HeartbeatRequest,
  HeartbeatResponse, ProtoWatchEventKind, event_node_created, event_node_deleted,
  event_node_data_changed, event_node_children_changed, event_kind_number,
}
use zoocooker.Consensus.Interface.{Consensus}
use zoocooker.Server.Session.{Instant}
use zoocooker.Server.Watch.{Sender}
use zoocooker.Server.Service.{
  Service, Status, Texts, handle_create, handle_get, handle_set, handle_delete, handle_exists,
  handle_watch, handle_heartbeat,
}

abbrev pub is_some {ℓ} : {A : Type ℓ} → Option A → Bool
is_some none = false
is_some (some _) = true

-- What a request meets: which channels are closed, the sender of a new channel, a fresh UUID, and
-- the clock.
pub record Env : Type 0 where
  pub closed : Sender → Bool
  pub tx : Sender
  pub fresh : SessionId
  pub now : Instant

module _ {S : Type 0} (impl : Consensus S) (texts : Texts) where
  abbrev EndpointM : Type 0 → Type 0
  EndpointM A = Exec (Service S) Status A

  unfoldable pub create : CreateRequest → EndpointM CreateResponse
  unfolding handle_create
  create req = do
    path ← handle_create impl texts req.path req.content req.ephemeral req.sequential req.session_id
    pure (record { path = path })

  unfoldable pub get : GetRequest → EndpointM GetResponse
  unfolding handle_get
  get req = do
    found ← handle_get impl texts req.path
    pure (record { content = found.0; version = found.1 })

  unfoldable pub set : SetRequest → EndpointM SetResponse
  unfolding handle_set
  set req = do
    version ← handle_set impl texts req.path req.content req.expected_version
    pure (record { version = version })

  unfoldable pub delete : DeleteRequest → EndpointM DeleteResponse
  unfolding handle_delete
  delete req = do handle_delete impl texts req.path req.expected_version; pure (record {})

  unfoldable pub exists : ExistsRequest → EndpointM ExistsResponse
  unfolding handle_exists
  exists req = do
    version ← handle_exists impl texts req.path
    pure (record { exists = is_some version; version = version })

  -- The reply is the stream of the channel `env.tx`.
  unfoldable pub watch : Env → WatchRequest → EndpointM Sender
  unfolding handle_watch
  watch env req = do handle_watch impl texts env.closed env.tx req.path req.kind; pure env.tx

  unfoldable pub heartbeat : Env → HeartbeatRequest → EndpointM HeartbeatResponse
  unfolding handle_heartbeat
  heartbeat env req = do
    found ← handle_heartbeat impl texts env.fresh env.now req.session_id
    pure (record { session_id = found.0; ttl_ms = found.1 })

abbrev pub proto_watch_event_kind : WatchEventKind → ProtoWatchEventKind
proto_watch_event_kind node_created = event_node_created
proto_watch_event_kind node_deleted = event_node_deleted
proto_watch_event_kind node_data_changed = event_node_data_changed
proto_watch_event_kind node_children_changed = event_node_children_changed

abbrev pub to_proto : WatchEvent → ProtoWatchEvent
to_proto event = record {
  path = event.path;
  kind = event_kind_number (proto_watch_event_kind event.kind);
}

-- what a stream yields, of what has been sent
unfoldable pub stream : Sender → List (Sender × WatchEvent) → List ProtoWatchEvent
stream tx [] = []
stream tx ((to, event) ∷ sent) =
    let rest = stream tx sent in if to == tx then to_proto event ∷ rest else rest
