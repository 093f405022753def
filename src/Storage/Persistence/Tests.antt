-- ===== src/Storage/Persistence/Tests.antt =====
-- persistence.rs at concrete files, with a codec that keeps the creates of empty lasting nodes.
use zoocooker.Base.{
  ℕ, ◌≡◌, refl, false, Option, none, some, List, [], ◌∷◌, ◌++◌, take, codes, arith, ◌^◌, ◌≤◌,
}
use zoocooker.Base.Exec.{ok, panic}
use zoocooker.Protocol.Types.{Bytes, Zxid, Command, create, set_data, delete}
use zoocooker.Storage.Store.{TreeStore, default_store}
use zoocooker.Storage.Persistence.{
  WalRecord, Codec, done, frame, append, replay, compact_below, to_le_bytes, from_le_bytes,
}
use zoocooker.Storage.Persistence.Framing.{Reads, frames, replay-torn}
use zoocooker.Storage.Persistence.Lengths.{replay-oversized}
use zoocooker.Storage.Persistence.Log.{Holds, newer, append-Holds, compact_below-Holds}

abbrev written : WalRecord → Bytes
written r = elim r.command [
  | create path _ _ _ _ ↦ r.zxid ∷ path
  | set_data path _ _ ↦ []
  | delete path _ ↦ []
]

abbrev read : Bytes → Option WalRecord
read [] = none
read (z ∷ path) = some (record { zxid = z; command = create path [] false false none })

abbrev read_snapshot : Bytes → Option (ℕ × TreeStore)
read_snapshot [] = none
read_snapshot (v ∷ _) = some (v, default_store)

abbrev pub creates_only : Codec
creates_only = record {
  to_vec = written;
  from_slice = read;
  snapshot_to_vec = λ v s. v ∷ [];
  snapshot_from_slice = read_snapshot;
}

abbrev record_a : WalRecord
record_a = record { zxid = 1; command = create (codes "/a") [] false false none }

abbrev record_b : WalRecord
record_b = record { zxid = 2; command = create (codes "/b") [] false false none }

abbrev one_record : List (Zxid × Command)
one_record = (record_a.zxid, record_a.command) ∷ []

a-Reads : Reads creates_only record_a
a-Reads = record { from_to = refl; fits = omega arith }

b-Reads : Reads creates_only record_b
b-Reads = record { from_to = refl; fits = omega arith }

one_record-Holds : Holds creates_only (some (frames creates_only one_record)) one_record
one_record-Holds = record { bytes = refl; readable = (a-Reads, tt) }

abbrev all_ones : Bytes
all_ones = 255 ∷ 255 ∷ 255 ∷ 255 ∷ 255 ∷ 255 ∷ 255 ∷ 255 ∷ []

all_ones-oversized : 2 ^ 63 ≤ from_le_bytes all_ones
unfolding from_le_bytes
all_ones-oversized = omega arith

replay-oversized_example :
    replay creates_only (
      some (
        frames creates_only ((1, record_a.command) ∷ (2, record_b.command) ∷ [])
        ++ (all_ones ++ codes "rest")))
    ≡ panic
replay-oversized_example =
    replay-oversized creates_only ((1, record_a.command) ∷ (2, record_b.command) ∷ []) all_ones
      (codes "rest") (a-Reads, (b-Reads, tt)) refl all_ones-oversized

replay-torn_example :
    replay creates_only
      (some (frames creates_only one_record ++ take 9 (frame creates_only record_b)))
    ≡ ok one_record
replay-torn_example =
    replay-torn creates_only one_record record_b 9 (a-Reads, tt) b-Reads
      (unfold frame in unfold to_le_bytes in omega arith)

append-Holds_example :
    Holds creates_only
      (append creates_only done
        (some (frames creates_only one_record))
        record_b.zxid
        record_b.command).1
      (one_record ++ (record_b.zxid, record_b.command) ∷ [])
append-Holds_example =
    append-Holds creates_only (some (frames creates_only one_record)) one_record record_b.zxid
      record_b.command one_record-Holds b-Reads

compact_below-Holds_example :
    ((compact_below creates_only done (some (frames creates_only one_record)) 1).0 ≡ ok tt)
    × Holds creates_only
        (compact_below creates_only done (some (frames creates_only one_record)) 1).1
        (newer 1 one_record)
compact_below-Holds_example =
    compact_below-Holds creates_only (some (frames creates_only one_record)) one_record 1
      one_record-Holds
