-- ===== src/Consensus/Persistent/Survives.antt =====
-- An acknowledged write of a persistent node, read after a crash.
use zoocooker.Base.{◌+◌, ◌<◌, ◌^◌, ◌≡◌, refl, ap, ◌∙◌, Bool, Text, Option, inl, inr, arith, text_eq}
use zoocooker.Base.Exec.{Result-split, ok}
use zoocooker.Protocol.Types.{Bytes, SessionId, Command, create, Applied, created}
use zoocooker.Storage.Store.{apply, get_data}
use zoocooker.Storage.Store.ReadBack.{create-Reads, get_data-view}
use zoocooker.Storage.Store.View.{view, entry}
use zoocooker.Storage.Persistence.{PersistenceError, Codec, done}
use zoocooker.Storage.Persistence.Framing.{Reads}
use zoocooker.Consensus.Persistent.{PersistentNode, submit, new_with_snapshot}
use zoocooker.Consensus.Persistent.Recovery.{Machine, Reach, next, commits, first_start, recovery}

module _ (codec : Codec) (describe : PersistenceError → Text) where
  submit-inv :
      (c : Command) (node : PersistentNode) (a : Applied)
      → (submit codec describe done c node).0 ≡ ok a
      → ((apply c node.store).0 ≡ ok a)
        × ((submit codec describe done c node).1.store ≡ (apply c node.store).1)
  unfolding submit
  submit-inv c node a h = elim (Result-split (apply c node.store).0) [
    | inl (x, e) ↦ (ground (arith, e, h), ground (arith, e))
    | inr (inl (x, e)) ↦ absurd (ground (arith, e, h))
    | inr (inr e) ↦ absurd (ground (arith, e, h))
  ]

  -- From the first start, after any history of commands applied and logged, refused commands that are
  -- not sequential creates, snapshots, compactions that succeed or fail, and restarts, where every
  -- record and snapshot that is written can be read back, and the zxid has room for one more: the node
  -- that an acknowledged create has made is there when the process starts again from its files, with
  -- the data that were sent, at version 0.
  pub created_survives :
      (m : Machine) (path : Text) (bytes : Bytes) (ephemeral sequential : Bool)
      (session_id : Option SessionId) (a : Applied) (q : Text)
      → Reach codec describe first_start m
      → m.node.store.zxid + 1 < 2 ^ 64
      → Reads codec (record {
        zxid = (apply (create path bytes ephemeral sequential session_id) m.node.store).1.zxid;
        command = create path bytes ephemeral sequential session_id;
      })
      → (submit codec describe done (create path bytes ephemeral sequential session_id) m.node).0
        ≡ ok a
      → a.result ≡ created q
      → (after : PersistentNode) × (new_with_snapshot codec describe
            (submit codec describe done
              (create path bytes ephemeral sequential session_id)
              m.node).1.wal
            m.snapshot
          ≡ ok after)
        × (get_data after.store q ≡ ok (bytes, 0))
  created_survives m path bytes ephemeral sequential session_id a q r room reads h made =
      let c : Command = create path bytes ephemeral sequential session_id in
      let (applied, store) = submit-inv c m.node a h in
      let (after, e, same) =
        recovery codec describe (record m { node = (submit codec describe done c m.node).1 })
          (next r (commits c a room applied reads refl)) in
      let (normal, there) =
        create-Reads m.node.store path bytes ephemeral sequential session_id a q applied made in
      (
        after,
        e,
        get_data-view after.store q q _ normal
            (ap entry (same.nodes q) ∙ ap (λ s. view s q) store ∙ there.found),
      )
