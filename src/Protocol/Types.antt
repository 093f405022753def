-- ===== src/Protocol/Types.antt =====
-- crates/protocol/src: types.rs, command.rs and error.rs.
use zoocooker.Base.{ℕ, Bool, Text, Option, List, ◌^◌, ◌%◌, ◌+◌}
use zoocooker.Base.Exec.{Result}

-- `Vec<u8>`
abbrev pub Bytes : Type 0
Bytes = List ℕ

-- A session's UUID as its number; making a new one and the printed form are not in this repository.
abbrev pub SessionId : Type 0
SessionId = ℕ

-- The number of a `Zxid`, a `u64`.
abbrev pub Zxid : Type 0
Zxid = ℕ

-- An `i32` as its bit pattern, below 2^32. The program compares versions by `==` only.
abbrev pub Int32 : Type 0
Int32 = ℕ

-- `x += 1` on an `i32` and on a `u64`, which wrap in a release build.
abbrev pub incr32 : Int32 → Int32
incr32 v = (v + 1) % 2 ^ 32

abbrev pub incr64 : ℕ → ℕ
incr64 v = (v + 1) % 2 ^ 64

pub data WatchKind : Type 0 where
  data_watch children_watch : WatchKind

pub data WatchEventKind : Type 0 where
  node_created node_deleted node_data_changed node_children_changed : WatchEventKind

pub record WatchEvent : Type 0 where
  pub path : Text
  pub kind : WatchEventKind

pub data Command : Type 0 where
  create : Text → Bytes → Bool → Bool → Option SessionId → Command
  set_data : Text → Bytes → Option Int32 → Command
  delete : Text → Option Int32 → Command

pub data ApplyResult : Type 0 where
  created : Text → ApplyResult
  node_data : Bytes → Int32 → ApplyResult
  deleted : ApplyResult
  exists_result : Bool → Option Int32 → ApplyResult

pub record Applied : Type 0 where
  pub result : ApplyResult
  pub watch_events : List WatchEvent

pub data ZkError : Type 0 where
  invalid_path node_exists no_node no_parent not_empty : Text → ZkError
  bad_version : Int32 → Int32 → ZkError
  ephemeral_parent invalid_session : ZkError
  persistence : Text → ZkError
  not_leader : Option Text → ZkError
  resource_exhausted unimplemented : Text → ZkError

abbrev pub ZkResult {ℓ} : Type ℓ → Type ℓ
ZkResult A = Result ZkError A
