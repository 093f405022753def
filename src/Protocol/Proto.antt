-- ===== src/Protocol/Proto.antt =====
-- The messages of proto/coordination.proto, as the service and the client use them. A field
-- `optional` is an `Option`; an enum is its number on the wire.
use zoocooker.Base.{ℕ, Bool, Text, Option}
use zoocooker.Protocol.Types.{Bytes, Int32}

pub record CreateRequest : Type 0 where
  pub path : Text
  pub content : Bytes
  pub ephemeral : Bool
  pub sequential : Bool
  pub session_id : Option Text

pub record CreateResponse : Type 0 where
  pub path : Text

pub record GetRequest : Type 0 where
  pub path : Text

pub record GetResponse : Type 0 where
  pub content : Bytes
  pub version : Int32

pub record SetRequest : Type 0 where
  pub path : Text
  pub content : Bytes
  pub expected_version : Option Int32

pub record SetResponse : Type 0 where
  pub version : Int32

pub record DeleteRequest : Type 0 where
  pub path : Text
  pub expected_version : Option Int32

pub record DeleteResponse : Type 0 where

pub record ExistsRequest : Type 0 where
  pub path : Text

pub record ExistsResponse : Type 0 where
  pub exists : Bool
  pub version : Option Int32

pub record WatchRequest : Type 0 where
  pub path : Text
  pub kind : ℕ

pub record ProtoWatchEvent : Type 0 where
  pub path : Text
  pub kind : ℕ

pub record HeartbeatRequest : Type 0 where
  pub session_id : Option Text

pub record HeartbeatResponse : Type 0 where
  pub session_id : Text
  pub ttl_ms : ℕ

-- `WatchKind` and `WatchEventKind`, with the numbers they travel as
pub data ProtoWatchKind : Type 0 where
  kind_unspecified kind_data kind_children : ProtoWatchKind

abbrev pub kind_number : ProtoWatchKind → ℕ
kind_number kind_unspecified = 0
kind_number kind_data = 1
kind_number kind_children = 2

pub data ProtoWatchEventKind : Type 0 where
  event_unspecified event_node_created event_node_deleted : ProtoWatchEventKind
  event_node_data_changed event_node_children_changed : ProtoWatchEventKind

abbrev pub event_kind_number : ProtoWatchEventKind → ℕ
event_kind_number event_unspecified = 0
event_kind_number event_node_created = 1
event_kind_number event_node_deleted = 2
event_kind_number event_node_data_changed = 3
event_kind_number event_node_children_changed = 4
