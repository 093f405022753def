-- ===== src/Server/Requests.antt =====
-- A server over time: requests and ticks of the cleanup, one after another.
pub mod Sound
pub mod Races
pub mod Tests
use zoocooker.Base.{List, [], ◌∷◌}
use zoocooker.Protocol.Proto.{
  CreateRequest, GetRequest, SetRequest, DeleteRequest, ExistsRequest, WatchRequest,
  HeartbeatRequest,
}
use zoocooker.Consensus.Interface.{Consensus}
use zoocooker.Server.Session.{Instant}
use zoocooker.Server.Service.{Service, Texts, cleanup_expired_sessions}
use zoocooker.Server.Endpoint.{Env}
use zoocooker.Server.Endpoint

pub data Request : Type 0 where
  create : CreateRequest → Request
  get : GetRequest → Request
  set : SetRequest → Request
  delete : DeleteRequest → Request
  exists : ExistsRequest → Request
  watch : WatchRequest → Request
  heartbeat : HeartbeatRequest → Request

pub data Event : Type 0 where
  call : Env → Request → Event
  tick : Instant → Event

module _ {S : Type 0} (impl : Consensus S) (texts : Texts) where
  -- the service after a request, whatever its reply
  unfoldable pub serve : Env → Request → Service S → Service S
  serve env (create req) s = (Endpoint.create impl texts req s).1
  serve env (get req) s = (Endpoint.get impl texts req s).1
  serve env (set req) s = (Endpoint.set impl texts req s).1
  serve env (delete req) s = (Endpoint.delete impl texts req s).1
  serve env (exists req) s = (Endpoint.exists impl texts req s).1
  serve env (watch req) s = (Endpoint.watch impl texts env req s).1
  serve env (heartbeat req) s = (Endpoint.heartbeat impl texts env req s).1

  unfoldable pub step : Event → Service S → Service S
  unfolding serve
  step (call env req) s = serve env req s
  step (tick now) s = (cleanup_expired_sessions impl texts now s).1

  abbrev pub run_events : List Event → Service S → Service S
  run_events [] s = s
  run_events (e ∷ es) s = run_events es (step e s)
