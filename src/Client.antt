-- ===== src/Client.antt =====
-- crates/client/src/lib.rs. The generated client that it wraps, and the connection, are a parameter:
-- an action on the world `W` for each call, with the status of a failure.
pub mod Loopback
pub mod Watching
pub mod Tests
use zoocooker.Base.{Bool, false, Text, Option, none}
use zoocooker.Base.Exec.{Exec}
use zoocooker.Protocol.Types.{Bytes, Int32}
use zoocooker.Protocol.Proto.{
  CreateRequest, CreateResponse, GetRequest, GetResponse, SetRequest, SetResponse, DeleteRequest,
  DeleteResponse, ExistsRequest, ExistsResponse, WatchRequest, HeartbeatRequest, HeartbeatResponse,
  ProtoWatchKind, kind_number,
}

-- `CoordinationClient<Channel>`; `Streaming` is a stream of watch events.
pub record CoordinationClient (W E Streaming : Type 0) : Type 0 where
  pub create : CreateRequest → Exec W E CreateResponse
  pub get : GetRequest → Exec W E GetResponse
  pub set : SetRequest → Exec W E SetResponse
  pub delete : DeleteRequest → Exec W E DeleteResponse
  pub exists : ExistsRequest → Exec W E ExistsResponse
  pub watch : WatchRequest → Exec W E Streaming
  pub heartbeat : HeartbeatRequest → Exec W E HeartbeatResponse

module _ {W E Streaming : Type 0} (inner : CoordinationClient W E Streaming) where
  unfoldable pub create : Text → Bytes → Exec W E CreateResponse
  create path bytes = inner.create (record {
    path = path;
    content = bytes;
    ephemeral = false;
    sequential = false;
    session_id = none;
  })

  unfoldable pub create_with_options :
      Text → Bytes → Bool → Bool → Option Text → Exec W E CreateResponse
  create_with_options path bytes ephemeral sequential session_id = inner.create (record {
    path = path;
    content = bytes;
    ephemeral = ephemeral;
    sequential = sequential;
    session_id = session_id;
  })

  unfoldable pub get : Text → Exec W E GetResponse
  get path = inner.get (record { path = path })

  unfoldable pub set : Text → Bytes → Option Int32 → Exec W E SetResponse
  set path bytes expected_version =
      inner.set (record { path = path; content = bytes; expected_version = expected_version })

  unfoldable pub delete : Text → Option Int32 → Exec W E DeleteResponse
  delete path expected_version =
      inner.delete (record { path = path; expected_version = expected_version })

  unfoldable pub exists : Text → Exec W E ExistsResponse
  exists path = inner.exists (record { path = path })

  unfoldable pub watch : Text → ProtoWatchKind → Exec W E Streaming
  watch path kind = inner.watch (record { path = path; kind = kind_number kind })

  unfoldable pub heartbeat : Option Text → Exec W E HeartbeatResponse
  heartbeat session_id = inner.heartbeat (record { session_id = session_id })
