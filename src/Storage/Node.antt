-- ===== src/Storage/Node.antt =====
-- crates/storage/src: stat.rs and tree.rs.
use zoocooker.Base.{Bool, true, false, Text, Option, none, some, List, []}
use zoocooker.Protocol.Types.{Bytes, SessionId, Zxid, Int32}

pub record Stat : Type 0 where
  pub version : Int32
  pub cversion : Int32
  pub created_zxid : Option Zxid
  pub modified_zxid : Option Zxid

pub record ZNode : Type 0 where
  pub content : Bytes
  pub children : List Text
  pub stat : Stat
  pub ephemeral_owner : Option SessionId

abbrev pub default_node : ZNode
default_node = record {
  content = [];
  children = [];
  stat = record { version = 0; cversion = 0; created_zxid = none; modified_zxid = none };
  ephemeral_owner = none;
}

abbrev pub new_node : Bytes → Stat → Option SessionId → ZNode
new_node bytes stat owner = record {
  content = bytes;
  children = [];
  stat = stat;
  ephemeral_owner = owner;
}

abbrev pub is_ephemeral : ZNode → Bool
is_ephemeral node = elim node.ephemeral_owner [ none ↦ false | some _ ↦ true ]
