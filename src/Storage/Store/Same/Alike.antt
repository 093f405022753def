-- ===== src/Storage/Store/Same/Alike.antt =====
-- Two stores that hold the same entries, and two runs that end alike.
use zoocooker.Base.{◌≡◌, Text, refl, sym, ◌∙◌, text_eq}
use zoocooker.Base.Dict.{get-insert, get-remove}
use zoocooker.Base.Dict
use zoocooker.Base.Exec.{Result}
use zoocooker.Protocol.Types.{Applied, ZkError}
use zoocooker.Storage.Store.{TreeStore}

pub record SameStore (s t : TreeStore) : Type 0 where
  pub nodes : (q : Text) → Dict.get q s.nodes ≡ Dict.get q t.nodes
  pub zxid : s.zxid ≡ t.zxid
  pub counters : (q : Text) → Dict.get q s.sequence_counters ≡ Dict.get q t.sequence_counters

pub SameStore-refl : (s : TreeStore) → SameStore s s
SameStore-refl s = record { nodes = λ q. refl; zxid = refl; counters = λ q. refl }

pub SameStore-sym : {s t : TreeStore} → SameStore s t → SameStore t s
SameStore-sym h = record {
  nodes = λ q. sym (h.nodes q);
  zxid = sym h.zxid;
  counters = λ q. sym (h.counters q);
}

pub SameStore-trans : {s t u : TreeStore} → SameStore s t → SameStore t u → SameStore s u
SameStore-trans h k = record {
  nodes = λ q. h.nodes q ∙ k.nodes q;
  zxid = h.zxid ∙ k.zxid;
  counters = λ q. h.counters q ∙ k.counters q;
}

-- the same reply, and the same entries afterwards
pub record SameRun (r r' : Result ZkError Applied × TreeStore) : Type 0 where
  pub reply : r.0 ≡ r'.0
  pub after : SameStore r.1 r'.1
