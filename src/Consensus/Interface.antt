-- ===== src/Consensus/Interface.antt =====
-- The trait `Consensus`, over the state that an implementation keeps behind its lock.
use zoocooker.Base.{◌≢◌, ℕ, Text, Option, List}
use zoocooker.Base.Exec.{Exec, panic}
use zoocooker.Protocol.Types.{Bytes, SessionId, Int32, Command, Applied, ZkError, ZkResult}

pub data Role : Type 0 where
  leader follower : Role

pub record Leadership : Type 0 where
  pub node_id : Text
  pub leader_id : Option Text
  pub term : ℕ
  pub role : Role

pub record Consensus (S : Type 0) : Type 0 where
  pub submit : Command → Exec S ZkError Applied
  pub get_data : S → Text → ZkResult (Bytes × Int32)
  pub exists : S → Text → ZkResult (Option Int32)
  pub leadership : S → Leadership
  pub ephemeral_paths_for_session : S → SessionId → List Text

-- What a server relies on: `P` holds of the state after every submit, whatever its reply, and a
-- submit replies.
pub record Keeps {S : Type 0} (impl : Consensus S) (P : S → Type 0) : Type 0 where
  pub submit : (c : Command) (s : S) → P s → P (impl.submit c s).1
  pub returns : (c : Command) (s : S) → P s → (impl.submit c s).0 ≢ panic
