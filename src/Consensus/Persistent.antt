-- ===== src/Consensus/Persistent.antt =====
-- `PersistentSingleNodeConsensus`: the store, and the write-ahead log of what it has applied.
mod Conformance
pub mod Durable
pub mod Recovery
pub mod Survives
pub mod Tests
use zoocooker.Base.{Text, Option, none, some, List, codes}
use zoocooker.Base.Exec.{Exec, Result, ok, err, panic}
use zoocooker.Protocol.Types.{Bytes, Command, Applied, ZkError, ZkResult, persistence}
use zoocooker.Storage.Store
use zoocooker.Storage.Store.{TreeStore, default_store, apply, ephemeral_paths_for_session}
use zoocooker.Storage.Persistence.{
  PersistenceError, PersistenceResult, Codec, Outcome, append, replay, compact_below, save_snapshot,
  load_snapshot, replay_into,
}
use zoocooker.Consensus.Interface.{Consensus, Leadership, leader}

pub record PersistentNode : Type 0 where
  pub store : TreeStore
  pub wal : Option Bytes

abbrev pub leadership : Leadership
leadership = record {
  node_id = codes "persistent-single-node";
  leader_id = some (codes "persistent-single-node");
  term = 1;
  role = leader;
}

-- `unwrap_or_default`
abbrev pub or_default : Option TreeStore → TreeStore
or_default none = default_store
or_default (some s) = s

-- `describe` is the text of an error, `to_string`.
module _ (codec : Codec) (describe : PersistenceError → Text) where
  -- `.map_err(|err| ZkError::Persistence(err.to_string()))`
  abbrev pub map_err {ℓ} : {A : Type ℓ} → PersistenceResult A → ZkResult A
  map_err (ok a) = ok a
  map_err (err e) = err (persistence (describe e))
  map_err panic = panic

  -- the outcome is that of the write to the log
  unfoldable pub submit : Outcome → Command → Exec PersistentNode ZkError Applied
  submit outcome command node =
      let (r, store) = apply command node.store in
      elim r [
        | err e ↦ (err e, record node { store = store })
        | panic ↦ (panic, record node { store = store })
        | ok applied ↦
            let (logged, wal) = append codec outcome node.wal store.zxid command in
            elim logged [
              | ok _ ↦ (ok applied, record { store = store; wal = wal })
              | err e ↦ (err (persistence (describe e)), record { store = store; wal = wal })
              | panic ↦ (panic, record { store = store; wal = wal })
            ]
      ]

  unfoldable pub from_store_and_wal : TreeStore → Option Bytes → ZkResult PersistentNode
  from_store_and_wal store wal = elim (replay codec wal) [
    | err e ↦ err (persistence (describe e))
    | panic ↦ panic
    | ok records ↦
        let (r, restored) = replay_into store records in
        elim r [
          | ok _ ↦ ok (record { store = restored; wal = wal })
          | err e ↦ err e
          | panic ↦ panic
        ]
  ]

  -- `PersistentSingleNodeConsensus::new`
  unfoldable pub restart : Option Bytes → ZkResult PersistentNode
  unfolding from_store_and_wal
  restart wal = from_store_and_wal default_store wal

  unfoldable pub new_with_snapshot : Option Bytes → Option Bytes → ZkResult PersistentNode
  new_with_snapshot wal snapshot = elim (load_snapshot codec snapshot) [
    | err e ↦ err (persistence (describe e))
    | panic ↦ panic
    | ok found ↦ from_store_and_wal (or_default found) wal
  ]

  -- `save_snapshot`, with the outcomes of its two writes: the snapshot file and the node after it
  unfoldable pub snapshot_and_compact :
      Outcome → Outcome → PersistentNode → ZkResult (Unit {0}) × Option Bytes × PersistentNode
  snapshot_and_compact saving compacting node =
      let (saved, file) = save_snapshot codec saving node.store in
      elim saved [
        | err e ↦ (err (persistence (describe e)), file, node)
        | panic ↦ (panic, file, node)
        | ok _ ↦
            let (compacted, wal) = compact_below codec compacting node.wal node.store.zxid in
            (map_err compacted, file, record node { wal = wal })
      ]

  abbrev pub persistent_node : Outcome → Consensus PersistentNode
  persistent_node outcome = record {
    submit = submit outcome;
    get_data = λ node. Store.get_data node.store;
    exists = λ node. Store.exists node.store;
    leadership = λ _. leadership;
    ephemeral_paths_for_session = λ node. ephemeral_paths_for_session node.store;
  }
