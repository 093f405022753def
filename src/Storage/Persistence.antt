-- ===== src/Storage/Persistence.antt =====
-- crates/storage/src/persistence.rs. A file is its bytes, or `none` where it is not there. How far a
-- write gets is an argument of the operation that writes.
pub mod Conformance
pub mod Tests
pub mod Framing
pub mod Log
pub mod Lengths
use zoocooker.Base.{
  ℕ, zero, suc, ◌+◌, ◌*◌, ◌/◌, ◌%◌, ◌^◌, Bool, true, false, Text, Option, none, some, List, [], ◌∷◌,
  ◌++◌, length, take, drop, ltb, leb, ◌==◌, nat_eq, codes, if◌then◌else◌,
}
use zoocooker.Base.Exec.{Result, ok, err, panic}
use zoocooker.Protocol.Types.{Bytes, Command, Zxid, ZkError}
use zoocooker.Storage.Store.{TreeStore, apply}

pub data PersistenceError : Type 0 where
  io serde : PersistenceError
  unsupported_snapshot_version : ℕ → PersistenceError

pub record WalRecord : Type 0 where
  pub zxid : Zxid
  pub command : Command

-- serde_json, which is not in this repository: how a record and a snapshot become bytes, and back.
-- `none` is its error.
pub record Codec : Type 0 where
  pub to_vec : WalRecord → Bytes
  pub from_slice : Bytes → Option WalRecord
  pub snapshot_to_vec : ℕ → TreeStore → Bytes
  pub snapshot_from_slice : Bytes → Option (ℕ × TreeStore)

-- How a write to a file ends: whole, or with an error after the first `n` bytes.
pub data Outcome : Type 0 where
  done : Outcome
  failed : ℕ → Outcome

abbrev pub contents : Option Bytes → Bytes
contents none = []
contents (some bytes) = bytes

-- `to_le_bytes` and `from_le_bytes`, for a width in bytes
unfoldable pub to_le_bytes : ℕ → ℕ → Bytes
to_le_bytes zero n = []
to_le_bytes (suc width) n = n % 256 ∷ to_le_bytes width (n / 256)

unfoldable pub from_le_bytes : Bytes → ℕ
from_le_bytes [] = 0
from_le_bytes (b ∷ bytes) = b + 256 * from_le_bytes bytes

-- `read_exact`: `none` at an early end of the file
unfoldable pub read_exact : ℕ → Bytes → Option (Bytes × Bytes)
read_exact n bytes = if leb n (length bytes) then some (take n bytes, drop n bytes) else none

abbrev pub PersistenceResult {ℓ} : Type ℓ → Type ℓ
PersistenceResult A = Result PersistenceError A

-- `vec![0_u8; len]`, which panics with a capacity overflow above `isize::MAX`
abbrev pub allocates : ℕ → Bool
allocates len = ltb len (2 ^ 63)

abbrev snapshot_version : ℕ
snapshot_version = 1

module _ (codec : Codec) where
  -- what `write_record` writes
  unfoldable pub frame : WalRecord → Bytes
  frame r = let payload = codec.to_vec r in to_le_bytes 8 (length payload) ++ payload

  -- `Wal::append`
  unfoldable pub append :
      Outcome → Option Bytes → Zxid → Command → PersistenceResult (Unit {0}) × Option Bytes
  append done file zxid command =
      (ok tt, some (contents file ++ frame (record { zxid = zxid; command = command })))
  append (failed n) file zxid command =
      (err io, some (contents file ++ take n (frame (record { zxid = zxid; command = command }))))

  -- the loop of `Wal::replay`, with the records so far
  unfoldable pub replay_loop :
      ℕ → List (Zxid × Command) → Bytes → PersistenceResult (List (Zxid × Command))
  replay_loop zero records file = panic
  replay_loop (suc fuel) records file = elim (read_exact 8 file) [
    | none ↦ ok records
    | some (len_buf, rest) ↦ elim (allocates (from_le_bytes len_buf)) [
      | false ↦ panic
      | true ↦ elim (read_exact (from_le_bytes len_buf) rest) [
        | none ↦ ok records
        | some (payload, next) ↦ elim (codec.from_slice payload) [
          | none ↦ err serde
          | some r ↦ replay_loop fuel (records ++ (r.zxid, r.command) ∷ []) next
        ]
      ]
    ]
  ]

  -- Each round reads at least the 8 bytes of a length, so the fuel is enough.
  unfoldable pub replay : Option Bytes → PersistenceResult (List (Zxid × Command))
  unfolding replay_loop
  replay none = ok []
  replay (some file) = replay_loop (suc (length file)) [] file

  -- the loop that writes the kept records to the new file
  unfoldable pub write_newer : ℕ → List (Zxid × Command) → Bytes
  write_newer min_zxid [] = []
  write_newer min_zxid ((zxid, command) ∷ records) =
      let rest = write_newer min_zxid records in
      if ltb min_zxid zxid then frame (record { zxid = zxid; command = command }) ++ rest else rest

  -- `Wal::compact_below`: the new file takes the place of the old one in one step, or not at all.
  unfoldable pub compact_below :
      Outcome → Option Bytes → ℕ → PersistenceResult (Unit {0}) × Option Bytes
  compact_below outcome file min_zxid = elim (replay file) [
    | err e ↦ (err e, file)
    | panic ↦ (panic, file)
    | ok records ↦ elim outcome [
      | done ↦ (ok tt, some (write_newer min_zxid records))
      | failed _ ↦ (err io, file)
    ]
  ]

  -- The file is truncated first, so an error leaves only what was written.
  unfoldable pub save_snapshot : Outcome → TreeStore → PersistenceResult (Unit {0}) × Option Bytes
  save_snapshot done s = (ok tt, some (codec.snapshot_to_vec snapshot_version s ++ 10 ∷ []))
  save_snapshot (failed n) s =
      (err io, some (take n (codec.snapshot_to_vec snapshot_version s ++ 10 ∷ [])))

  unfoldable pub load_snapshot : Option Bytes → PersistenceResult (Option TreeStore)
  load_snapshot none = ok none
  load_snapshot (some file) = elim (codec.snapshot_from_slice file) [
    | none ↦ err serde
    | some (version, s) ↦
        if version == snapshot_version
        then ok (some s)
        else err (unsupported_snapshot_version version)
  ]

-- `replay_into`
unfoldable pub replay_into :
    TreeStore → List (Zxid × Command) → Result ZkError (Unit {0}) × TreeStore
replay_into s [] = (ok tt, s)
replay_into s ((zxid, command) ∷ records) =
    let skipped = replay_into s records in
    let (r, t) = apply command s in
    let applied = replay_into t records in
    if leb zxid s.zxid
    then skipped
    else (elim r [ ok _ ↦ applied | err e ↦ (err e, t) | panic ↦ (panic, t) ])
