-- ===== src/Consensus/Persistent/Durable.antt =====
-- The invariant of a persistent node: its files rebuild its store. Each operation keeps it.
use zoocooker.Base.{
  ℕ, ◌+◌, ◌≤◌, ◌<◌, ◌^◌, ◌≡◌, refl, ◌∙◌, false, Text, Option, none, some, List, [], ◌∷◌, ◌++◌, All,
  All-append, arith, nat_eq,
}
use zoocooker.Base.Exec.{ok, is_ok}
use zoocooker.Protocol.Types.{Bytes, Command, Applied}
use zoocooker.Storage.Store.{TreeStore, default_store, apply}
use zoocooker.Storage.Store.Apply.{is_sequential, apply_fails, zxid-apply}
use zoocooker.Storage.Store.Same.{SameStore, SameStore-refl, apply-SameRun}
use zoocooker.Storage.Persistence.{
  PersistenceError, Codec, Outcome, done, failed, append, compact_below, save_snapshot,
  load_snapshot, replay_into,
}
use zoocooker.Storage.Persistence.Framing.{Reads, frames}
use zoocooker.Storage.Persistence.Log.{
  Record, Holds, newer, replay-Holds, append-Holds, compact_below-Holds, replay_into-append,
}
use zoocooker.Consensus.Persistent.{
  PersistentNode, submit, from_store_and_wal, new_with_snapshot, snapshot_and_compact, or_default,
  map_err,
}

-- What recovery needs of serde_json for a snapshot: it reads back, with its newline, as a store with
-- the same entries (the maps may be read in another order).
pub record ReadsBack (codec : Codec) (s : TreeStore) : Type 0 where
  pub reloaded : TreeStore
  pub from_to :
      codec.snapshot_from_slice (codec.snapshot_to_vec 1 s ++ 10 ∷ []) ≡ some (1, reloaded)
  pub same : SameStore reloaded s

-- Every record is at most `z`.
abbrev pub UpTo : ℕ → List Record → Type 0
UpTo z = All (λ r. r.0 ≤ z)

-- The files rebuild the store of the node.
pub record IsDurable (codec : Codec) (snapshot : Option Bytes) (node : PersistentNode)
    : Type 0 where
  pub loaded : Option TreeStore
  pub records : List Record
  pub restored : TreeStore
  pub loads : load_snapshot codec snapshot ≡ ok loaded
  pub holds : Holds codec node.wal records
  pub replays : replay_into (or_default loaded) records ≡ (ok tt, restored)
  pub same : SameStore restored node.store
  pub bounded : UpTo node.store.zxid records

UpTo-mono : (m n : ℕ) (records : List Record) → m ≤ n → UpTo m records → UpTo n records
UpTo-mono m n [] h u = tt
UpTo-mono m n (r ∷ records) h u = (omega arith, UpTo-mono m n records h u.1)

newer-UpTo : (min n : ℕ) (records : List Record) → UpTo n records → UpTo n (newer min records)
newer-UpTo min n [] u = tt
newer-UpTo min n ((z, c) ∷ records) u = ground (arith, newer-UpTo min n records u.1)

-- records that the store reflects already are skipped
replay_into_old :
    (s : TreeStore) (records : List Record)
    → UpTo s.zxid records
    → replay_into s records ≡ (ok tt, s)
unfolding replay_into
replay_into_old s [] u = refl
replay_into_old s ((z, c) ∷ records) u = ground (arith, replay_into_old s records u.1)

module _ (codec : Codec) (describe : PersistenceError → Text) where
  -- A new node, with no files.
  pub fresh-IsDurable : IsDurable codec none (record { store = default_store; wal = none })
  fresh-IsDurable = record {
    loaded = none;
    records = [];
    restored = default_store;
    loads = unfold load_snapshot in refl;
    holds = record { bytes = unfold frames in refl; readable = tt };
    replays = unfold replay_into in refl;
    same = SameStore-refl default_store;
    bounded = tt;
  }

  submitted :
      (node : PersistentNode) (c : Command) (a : Applied)
      → (apply c node.store).0 ≡ ok a
      → submit codec describe done c node ≡ (
        ok a,
        record {
          store = (apply c node.store).1;
          wal = (append codec done node.wal (apply c node.store).1.zxid c).1;
        },
      )
  unfolding submit append
  submitted node c a h = ground arith

  -- A command that succeeds and is logged keeps the files good for the store.
  pub submit-IsDurable :
      (snapshot : Option Bytes) (node : PersistentNode) (c : Command) (a : Applied)
      → node.store.zxid + 1 < 2 ^ 64
      → (apply c node.store).0 ≡ ok a
      → Reads codec (record { zxid = (apply c node.store).1.zxid; command = c })
      → IsDurable codec snapshot node
      → IsDurable codec snapshot (submit codec describe done c node).1
  submit-IsDurable snapshot node c a room h reads d =
      let z = zxid-apply node.store c a h in
      let run = apply-SameRun d.restored node.store c d.same in
      rw (submitted node c a h) (record {
        loaded = d.loaded;
        records = d.records ++ ((apply c node.store).1.zxid, c) ∷ [];
        restored = (apply c d.restored).1;
        loads = d.loads;
        holds = append-Holds codec node.wal d.records _ c d.holds reads;
        replays =
            replay_into-append (or_default d.loaded) d.records _ c d.restored a d.replays
              (omega (arith, z, d.same.zxid)) (run.reply ∙ h);
        same = run.after;
        bounded =
            All-append (λ r. r.0 ≤ (apply c node.store).1.zxid) d.records _
              (UpTo-mono node.store.zxid _ d.records (omega (arith, z)) d.bounded)
              (omega arith, tt);
      })

  refused :
      (outcome : Outcome) (node : PersistentNode) (c : Command)
      → is_ok (apply c node.store).0 ≡ false
      → (apply c node.store).1 ≡ node.store
      → (submit codec describe outcome c node).1 ≡ node
  unfolding submit
  refused outcome node c h e = ground arith

  -- A command that fails, and is no sequential create, changes nothing.
  pub refused-IsDurable :
      (snapshot : Option Bytes) (outcome : Outcome) (node : PersistentNode) (c : Command)
      → is_ok (apply c node.store).0 ≡ false
      → is_sequential c ≡ false
      → IsDurable codec snapshot node
      → IsDurable codec snapshot (submit codec describe outcome c node).1
  refused-IsDurable snapshot outcome node c h k d =
      rw (refused outcome node c h ((apply_fails node.store c h).2 k)) d

module _ (codec : Codec) (describe : PersistenceError → Text) where
  load-saved :
      (s : TreeStore) (back : ReadsBack codec s)
      → load_snapshot codec (save_snapshot codec done s).1 ≡ ok (some back.reloaded)
  unfolding load_snapshot save_snapshot
  load-saved s back = ground (arith, back.from_to)

  compact_below-failed :
      (n : ℕ) (file : Option Bytes) (records : List Record) (min : ℕ)
      → Holds codec file records
      → (compact_below codec (failed n) file min).1 ≡ file
  unfolding compact_below
  compact_below-failed n file records min h = ground (arith, replay-Holds codec file records h)

  snapshotted :
      (compacting : Outcome) (node : PersistentNode)
      → snapshot_and_compact codec describe done compacting node ≡ (
        map_err codec describe (compact_below codec compacting node.wal node.store.zxid).0,
        (save_snapshot codec done node.store).1,
        record node { wal = (compact_below codec compacting node.wal node.store.zxid).1 },
      )
  unfolding snapshot_and_compact save_snapshot
  snapshotted compacting node = refl

  -- however a compaction ends, the log holds records that were there
  compacted :
      (outcome : Outcome) (file : Option Bytes) (records : List Record) (min : ℕ)
      → Holds codec file records
      → UpTo min records
      → (kept : List Record) × Holds codec (compact_below codec outcome file min).1 kept
        × UpTo min kept
  compacted done file records min h u = (
    newer min records,
    (compact_below-Holds codec file records min h).1,
    newer-UpTo min min records u,
  )
  compacted (failed n) file records min h u =
      (records, rw (compact_below-failed n file records min h) h, u)

  -- A snapshot that is written, with a compaction that succeeds or fails after it, keeps the files
  -- good for the store.
  pub snapshot-IsDurable :
      (snapshot : Option Bytes) (compacting : Outcome) (node : PersistentNode)
      → ReadsBack codec node.store
      → IsDurable codec snapshot node
      → IsDurable codec
          (snapshot_and_compact codec describe done compacting node).1
          (snapshot_and_compact codec describe done compacting node).2
  snapshot-IsDurable snapshot compacting node back d =
      let (kept, holds, bounded) =
        compacted compacting node.wal d.records node.store.zxid d.holds d.bounded in
      let same = back.same in
      rw (snapshotted compacting node) (record {
        loaded = some back.reloaded;
        records = kept;
        restored = back.reloaded;
        loads = load-saved node.store back;
        holds = holds;
        replays = replay_into_old back.reloaded kept (rw same.zxid bounded);
        same = same;
        bounded = bounded;
      })

  restarted :
      (snapshot : Option Bytes) (node : PersistentNode) (d : IsDurable codec snapshot node)
      → new_with_snapshot codec describe node.wal snapshot
        ≡ ok (record { store = d.restored; wal = node.wal })
  unfolding new_with_snapshot from_store_and_wal
  restarted snapshot node d =
      ground (arith, d.loads, replay-Holds codec node.wal d.records d.holds, d.replays)

  -- A restart on durable files succeeds, with a store that holds the same entries, and the files are
  -- still good for it.
  pub restart-IsDurable :
      (snapshot : Option Bytes) (node : PersistentNode)
      → IsDurable codec snapshot node
      → (after : PersistentNode) × (new_with_snapshot codec describe node.wal snapshot ≡ ok after)
        × SameStore after.store node.store
        × IsDurable codec snapshot after
  restart-IsDurable snapshot node d =
      let after : PersistentNode = record { store = d.restored; wal = node.wal } in
      (
        after,
        restarted snapshot node d,
        d.same,
        record {
          loaded = d.loaded;
          records = d.records;
          restored = d.restored;
          loads = d.loads;
          holds = d.holds;
          replays = d.replays;
          same = SameStore-refl d.restored;
          bounded = rw d.same.zxid d.bounded;
        },
      )
