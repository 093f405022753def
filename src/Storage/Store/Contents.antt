-- ===== src/Storage/Store/Contents.antt =====
-- What a store holds, whatever the iteration order of its maps: the quotient of stores by the entries.
use mathlib.Core.Quot
use mathlib.Core.Quot.{Quot, Quot-set}
use native.Mathlib.Nat.{ℕ_set}
use zoocooker.Base.{ℕ, ◌+◌, if◌then◌else◌, ◌≡◌, ◌↔◌, refl, ap, Text, Option, List, [], ◌∷◌, text_eq}
use zoocooker.Base.Dict
use zoocooker.Base.Exec.{Result, is_ok}
use zoocooker.Protocol.Types.{Applied, ZkError, Command}
use zoocooker.Storage.Node.{ZNode}
use zoocooker.Storage.Store.{TreeStore, apply}
use zoocooker.Storage.Store.Apply.{run}
use zoocooker.Storage.Store.Same.{SameStore, apply-SameRun}

abbrev pub Contents : Type 0
Contents = Quot SameStore

abbrev pub contents_of : TreeStore → Contents
contents_of = Quot.mk

reply_set : IsSet (Result ZkError Applied)
reply_set = hlevel

node_set : IsSet (Option ZNode)
node_set = hlevel

-- what a command replies on these contents
pub reply : Command → Contents → Result ZkError Applied
reply c = Quot.lift reply_set (λ s. (apply c s).0) (λ s t h. (apply-SameRun s t c h).reply)

-- the contents after it
pub after : Command → Contents → Contents
after c =
    Quot.lift Quot-set (λ s. contents_of (apply c s).1)
      (λ s t h. Quot.sound (apply-SameRun s t c h).after)

-- the contents after commands, one after another
abbrev pub replay_on : Contents → List Command → Contents
replay_on q [] = q
replay_on q (c ∷ cs) = replay_on (after c q) cs

-- how many of the commands succeed, one after another
abbrev pub accepted : TreeStore → List Command → ℕ
accepted s [] = 0
accepted s (c ∷ cs) = (if is_ok (apply c s).0 then 1 else 0) + accepted (apply c s).1 cs

-- the same on contents
abbrev pub accepted_on : Contents → List Command → ℕ
accepted_on q [] = 0
accepted_on q (c ∷ cs) = (if is_ok (reply c q) then 1 else 0) + accepted_on (after c q) cs

-- the node at a path, and the two other parts
pub node_at : Text → Contents → Option ZNode
node_at path = Quot.lift node_set (λ s. Dict.get path s.nodes) (λ s t h. h.nodes path)

pub zxid_of : Contents → ℕ
zxid_of = Quot.lift ℕ_set (λ s. s.zxid) (λ s t h. h.zxid)

counter_set : IsSet (Option ℕ)
counter_set = hlevel ℕ_set

pub counter_at : Text → Contents → Option ℕ
counter_at path =
    Quot.lift counter_set (λ s. Dict.get path s.sequence_counters) (λ s t h. h.counters path)

-- two stores have equal contents exactly if they hold the same entries
pub contents_of-eq_iff : (s t : TreeStore) → (contents_of s ≡ contents_of t) ↔ SameStore s t
unfolding node_at zxid_of counter_at
contents_of-eq_iff s t = (
  λ e. record {
    nodes = λ q. ap (node_at q) e;
    zxid = ap zxid_of e;
    counters = λ q. ap (counter_at q) e;
  },
  λ h. Quot.sound h,
)

pub contents_of-run :
    (s : TreeStore) (cs : List Command) → contents_of (run s cs) ≡ replay_on (contents_of s) cs
unfolding after
contents_of-run s [] = refl
contents_of-run s (c ∷ cs) = contents_of-run (apply c s).1 cs

pub contents_of-accepted :
    (s : TreeStore) (cs : List Command) → accepted s cs ≡ accepted_on (contents_of s) cs
unfolding reply after
contents_of-accepted s [] = refl
contents_of-accepted s (c ∷ cs) =
    ap (λ (n : ℕ). (if is_ok (apply c s).0 then 1 else 0) + n)
      (contents_of-accepted (apply c s).1 cs)
