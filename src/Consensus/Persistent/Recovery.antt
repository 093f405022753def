-- ===== src/Consensus/Persistent/Recovery.antt =====
-- What a restart finds: the snapshot and the log together hold the store.
use zoocooker.Consensus.Persistent.Durable.{
  IsDurable, ReadsBack, fresh-IsDurable, submit-IsDurable, refused-IsDurable, snapshot-IsDurable,
  restart-IsDurable,
}
use zoocooker.Base.{
  ◌+◌, ◌<◌, ◌^◌, ◌≡◌, ◌≢◌, sym, ap, ◌∙◌, Bool, true, false, Text, Option, none, arith, nat_eq,
  subst,
}
use zoocooker.Base.Exec.{ok, is_ok}
use zoocooker.Protocol.Types.{Bytes, SessionId, Command, create, Applied}
use zoocooker.Protocol.Paths.{root, normalize}
use zoocooker.Storage.Store.{default_store, apply}
use zoocooker.Storage.Store.Apply.{is_sequential, sequential_fails}
use zoocooker.Storage.Store.Writes.{counted}
use zoocooker.Storage.Store.Same.{SameStore, counted-not-SameStore}
use zoocooker.Storage.Persistence.{PersistenceError, Codec, Outcome, done}
use zoocooker.Storage.Persistence.Framing.{Reads}
use zoocooker.Consensus.Persistent.{PersistentNode, submit, new_with_snapshot, snapshot_and_compact}

-- The running process and its snapshot file.
pub record Machine : Type 0 where
  pub snapshot : Option Bytes
  pub node : PersistentNode

module _ (codec : Codec) (describe : PersistenceError → Text) where
  -- What may happen: a command is applied and logged, and its record reads back; one that is no
  -- sequential create is refused; a snapshot that reads back is written, and the log compacted or
  -- not; the process is started again from its files.
  pub data Step (m m' : Machine) : Type 0 where
    commits :
        (c : Command) (a : Applied)
        → m.node.store.zxid + 1 < 2 ^ 64
        → (apply c m.node.store).0 ≡ ok a
        → Reads codec (record { zxid = (apply c m.node.store).1.zxid; command = c })
        → m' ≡ record m { node = (submit codec describe done c m.node).1 }
        → Step m m'
    refuses :
        (outcome : Outcome) (c : Command)
        → is_ok (apply c m.node.store).0 ≡ false
        → is_sequential c ≡ false
        → m' ≡ record m { node = (submit codec describe outcome c m.node).1 }
        → Step m m'
    saves :
        (compacting : Outcome)
        → ReadsBack codec m.node.store
        → m' ≡ record {
          snapshot = (snapshot_and_compact codec describe done compacting m.node).1;
          node = (snapshot_and_compact codec describe done compacting m.node).2;
        }
        → Step m m'
    restarts :
        (after : PersistentNode)
        → new_with_snapshot codec describe m.node.wal m.snapshot ≡ ok after
        → m' ≡ record m { node = after }
        → Step m m'

  pub data Reach (m : Machine) : Machine → Type 0 where
    here : Reach m m
    next : {n o : Machine} → Reach m n → Step n o → Reach m o

abbrev pub first_start : Machine
first_start = record { snapshot = none; node = record { store = default_store; wal = none } }

module _ (codec : Codec) (describe : PersistenceError → Text) where
  abbrev Durable : Machine → Type 0
  Durable m = IsDurable codec m.snapshot m.node

  Step-IsDurable : {m m' : Machine} → Step codec describe m m' → Durable m → Durable m'
  Step-IsDurable {m} {m'} (commits c a room h reads e) d =
      subst Durable (sym e) (submit-IsDurable codec describe m.snapshot m.node c a room h reads d)
  Step-IsDurable {m} {m'} (refuses outcome c h k e) d =
      subst Durable (sym e) (refused-IsDurable codec describe m.snapshot outcome m.node c h k d)
  Step-IsDurable {m} {m'} (saves compacting back e) d =
      subst Durable (sym e) (snapshot-IsDurable codec describe m.snapshot compacting m.node back d)
  Step-IsDurable {m} {m'} (restarts after h e) d =
      let (found, f, same, good) = restart-IsDurable codec describe m.snapshot m.node d in
      let eq : found ≡ after = cc in
      subst Durable (sym e) (subst (IsDurable codec m.snapshot) eq good)

  Reach-IsDurable : {m m' : Machine} → Reach codec describe m m' → Durable m → Durable m'
  Reach-IsDurable here d = d
  Reach-IsDurable (next r st) d = Step-IsDurable st (Reach-IsDurable r d)

  -- From the first start, after any history of commands applied and logged, refused commands that are
  -- not sequential creates, snapshots, compactions that succeed or fail, and restarts, where every
  -- record and snapshot that is written can be read back and the zxid stays below 2^64: a restart from
  -- the files succeeds, and its store holds the entries that the store in memory held.
  pub recovery :
      (m : Machine)
      → Reach codec describe first_start m
      → (after : PersistentNode) × (new_with_snapshot codec describe m.node.wal m.snapshot
          ≡ ok after)
        × SameStore after.store m.node.store
  recovery m r =
      let d = Reach-IsDurable r (fresh-IsDurable codec describe) in
      let (after, e, same, good) = restart-IsDurable codec describe m.snapshot m.node d in
      (after, e, same)

  refused_store :
      (outcome : Outcome) (node : PersistentNode) (c : Command)
      → is_ok (apply c node.store).0 ≡ false
      → (submit codec describe outcome c node).1 ≡ record node { store = (apply c node.store).1 }
  unfolding submit
  refused_store outcome node c h = ground arith

  -- From the first start, after any history of commands applied and logged, refused commands that
  -- are not sequential creates, snapshots, compactions and restarts, where what is written can be
  -- read back and the zxid stays below 2^64: a sequential create that is refused once its path has
  -- been accepted moves a counter in memory that is in no file. A store that a restart then rebuilds
  -- from the files differs from the one in memory.
  pub refused_sequential_diverges :
      (m : Machine) (path requested : Text) (bytes : Bytes) (ephemeral : Bool)
      (session_id : Option SessionId) (outcome : Outcome) (node after : PersistentNode)
      → Reach codec describe first_start m
      → normalize path ≡ ok requested
      → requested ≢ root
      → is_ok (apply (create path bytes ephemeral true session_id) m.node.store).0 ≡ false
      → node
        ≡ (submit codec describe outcome (create path bytes ephemeral true session_id) m.node).1
      → new_with_snapshot codec describe node.wal m.snapshot ≡ ok after
      → ¬ SameStore after.store node.store
  refused_sequential_diverges m path requested bytes ephemeral session_id outcome node after r n ne
        h e f =
      let (found, g, same) = recovery m r in
      let moved = refused_store outcome m.node (create path bytes ephemeral true session_id) h in
      let wal : node.wal ≡ m.node.wal = ap (λ x. x.wal) (e ∙ moved) in
      let store : node.store ≡ counted true requested m.node.store =
        ap (λ x. x.store) (e ∙ moved)
        ∙ sequential_fails m.node.store path requested bytes ephemeral session_id n ne h in
      let eq : found ≡ after = cc in
      rw (store, ← eq) (counted-not-SameStore requested m.node.store found.store same)
