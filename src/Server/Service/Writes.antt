-- ===== src/Server/Service/Writes.antt =====
-- What a write handler does, over any implementation of `Consensus`: nothing but the submit when it is
-- refused, and the events and the count when it is not.
use zoocooker.Base.{◌≡◌, ◌⊎◌, ap, ◌∙◌, false, inl, inr, Text, arith}
use zoocooker.Base.Exec.{Result, ok, err, panic, is_ok, Result-split, Result-cases}
use zoocooker.Protocol.Types.{
  Command, Applied, ApplyResult, created, node_data, deleted, exists_result, Bytes, Int32, ZkError,
}
use zoocooker.Consensus.Interface.{Consensus}
use zoocooker.Server.Service.{
  Service, Status, Texts, status_from_error, notify, write, count_write, created_path, set_version,
}

module _ {S : Type 0} (impl : Consensus S) (texts : Texts) where
  -- the service after the submit alone
  abbrev pub submitted : Command → Service S → Service S
  submitted c s = record s { consensus = (impl.submit c s.consensus).1 }

  -- the service after a write whose result has these events
  abbrev pub completed : Command → Applied → Service S → Service S
  completed c a s = count_write impl texts (notify impl texts a.watch_events (submitted c s))

  module _ {A : Type 0} (c : Command) (pick : ApplyResult → Result Status A) (s : Service S) where
    -- A write that the consensus refuses replies with the error's status, and changes nothing but
    -- what the submit changed.
    pub write_refused :
        (e : ZkError)
        → (impl.submit c s.consensus).0 ≡ err e
        → write impl texts c pick s ≡ (err (status_from_error texts e), submitted c s)
    unfolding write
    write_refused e h = ground (arith, h)

    pub write_panics :
        (impl.submit c s.consensus).0 ≡ panic → write impl texts c pick s ≡ (panic, submitted c s)
    unfolding write
    write_panics h = ground (arith, h)

    pub write_completes :
        (a : Applied) (reply : A)
        → (impl.submit c s.consensus).0 ≡ ok a
        → pick a.result ≡ ok reply
        → write impl texts c pick s ≡ (ok reply, completed c a s)
    unfolding write
    write_completes a reply h k = ground (arith, h, k)

    pub write_unexpected :
        (a : Applied)
        → (impl.submit c s.consensus).0 ≡ ok a
        → is_ok (pick a.result) ≡ false
        → (write impl texts c pick s).1 ≡ submitted c s
    unfolding write
    write_unexpected a h k = ground (arith, h, k)

    -- the states that a write can leave
    pub write-cases :
        ((write impl texts c pick s).1 ≡ submitted c s)
        ⊎ ((a : Applied) × ((write impl texts c pick s).1 ≡ completed c a s))
    write-cases = elim (Result-split (impl.submit c s.consensus).0) [
      | inl (a, h) ↦ elim (Result-cases (pick a.result)) [
        | inl (reply, k) ↦ inr (a, ap (λ r. r.1) (write_completes a reply h k))
        | inr k ↦ inl (write_unexpected a h k)
      ]
      | inr (inl (e, h)) ↦ inl (ap (λ r. r.1) (write_refused e h))
      | inr (inr h) ↦ inl (ap (λ r. r.1) (write_panics h))
    ]

    -- a reply comes of a command that the consensus applied
    pub write-inv :
        (reply : A)
        → (write impl texts c pick s).0 ≡ ok reply
        → (a : Applied) × ((impl.submit c s.consensus).0 ≡ ok a)
          × (pick a.result ≡ ok reply)
          × (write impl texts c pick s ≡ (ok reply, completed c a s))
    write-inv reply h = elim (Result-split (impl.submit c s.consensus).0) [
      | inl (a, e) ↦ elim (Result-split (pick a.result)) [
        | inl (x, k) ↦
            let done = write_completes a x e k in
            let same : x ≡ reply = cc (ap (λ r. r.0) done, h) in
            (a, e, k ∙ ap ok same, done ∙ ap (λ y. (ok y, completed c a s)) same)
        | inr (inl (x, k)) ↦ absurd (unfold write in ground (arith, e, k, h))
        | inr (inr k) ↦ absurd (unfold write in ground (arith, e, k, h))
      ]
      | inr (inl (x, e)) ↦ absurd (cc (ap (λ r. r.0) (write_refused x e), h))
      | inr (inr e) ↦ absurd (cc (ap (λ r. r.0) (write_panics e), h))
    ]

  pub created_path-inv :
      (r : ApplyResult) (p : Text) → created_path impl texts r ≡ ok p → r ≡ created p
  created_path-inv (created q) p h = ground (arith, h)
  created_path-inv (node_data _ _) p h = cc
  created_path-inv deleted p h = cc
  created_path-inv (exists_result _ _) p h = cc

  pub set_version-inv :
      (r : ApplyResult) (v : Int32)
      → set_version impl texts r ≡ ok v
      → (bytes : Bytes) × (r ≡ node_data bytes v)
  set_version-inv (created q) v h = cc
  set_version-inv (node_data bytes w) v h = (bytes, ground (arith, h))
  set_version-inv deleted v h = cc
  set_version-inv (exists_result _ _) v h = cc
