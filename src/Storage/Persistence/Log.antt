-- ===== src/Storage/Persistence/Log.antt =====
-- The log as a list of records: what an append, a compaction and a replay do to it.
use zoocooker.Base.{
  ℕ, ◌<◌, ◌≡◌, refl, sym, ap, ◌∙◌, Bool-cases, Option, none, some, inl, inr, List, [], ◌∷◌, ◌++◌,
  All-append, length, length-append, append_assoc, append-nil, leb, ltb, arith, if◌then◌else◌,
}
use zoocooker.Base.Exec.{ok, Result-split}
use zoocooker.Protocol.Types.{Bytes, Command, Zxid, Applied}
use zoocooker.Storage.Store.{TreeStore, apply}
use zoocooker.Storage.Persistence.{
  WalRecord, Codec, done, contents, frame, append, replay, write_newer, compact_below, replay_into,
}
use zoocooker.Storage.Persistence.Framing.{Reads, Readable, frames, length-frame, replay-frames}

abbrev pub Record : Type 0
Record = Zxid × Command

-- The file holds these records, whole, and nothing else, and they read back.
pub record Holds (codec : Codec) (file : Option Bytes) (records : List Record) : Type 0 where
  pub bytes : contents file ≡ frames codec records
  pub readable : Readable codec records

-- the records above a zxid
abbrev pub newer : ℕ → List Record → List Record
newer min [] = []
newer min ((z, c) ∷ records) = if ltb min z then (z, c) ∷ newer min records else newer min records

module _ (codec : Codec) where
  pub replay-Holds :
      (file : Option Bytes) (records : List Record)
      → Holds codec file records
      → replay codec file ≡ ok records
  replay-Holds (some bytes) records h =
      ap (λ x. replay codec (some x)) h.bytes ∙ replay-frames codec records h.readable
  replay-Holds none [] h = unfold replay in refl
  replay-Holds none ((z, c) ∷ records) h =
      let r : WalRecord = record { zxid = z; command = c } in
      absurd (
        unfold frames in
        omega (
          arith,
          ap length h.bytes,
          length-append (frame codec r) (frames codec records),
          length-frame codec r,
        ))

frames-append :
    (codec : Codec) (xs ys : List Record)
    → frames codec (xs ++ ys) ≡ frames codec xs ++ frames codec ys
unfolding frames
frames-append codec [] ys = refl
frames-append codec ((z, c) ∷ xs) ys =
    ap (◌++◌ (frame codec (record { zxid = z; command = c }))) (frames-append codec xs ys)
    ∙ sym (
        append_assoc (frame codec (record { zxid = z; command = c })) (frames codec xs)
          (frames codec ys))

write_newer-frames :
    (codec : Codec) (min : ℕ) (records : List Record)
    → write_newer codec min records ≡ frames codec (newer min records)
unfolding write_newer frames
write_newer-frames codec min [] = refl
write_newer-frames codec min ((z, c) ∷ records) =
    ground (arith, write_newer-frames codec min records)

newer-Readable :
    (codec : Codec) (min : ℕ) (records : List Record)
    → Readable codec records
    → Readable codec (newer min records)
newer-Readable codec min [] u = tt
newer-Readable codec min ((z, c) ∷ records) u = elim (Bool-cases (ltb min z)) [
  | inl h ↦ rw (h, newer) (u.0, newer-Readable codec min records u.1)
  | inr h ↦ rw (h, newer) (newer-Readable codec min records u.1)
]

-- An append that succeeds adds its record at the end.
pub append-Holds :
    (codec : Codec) (file : Option Bytes) (records : List Record) (z : Zxid) (c : Command)
    → Holds codec file records
    → Reads codec (record { zxid = z; command = c })
    → Holds codec (append codec done file z c).1 (records ++ (z, c) ∷ [])
unfolding append
append-Holds codec file records z c h reads = record {
  bytes =
      rw (h.bytes, frames-append codec records ((z, c) ∷ [])) (unfold frames in simp append-nil);
  readable = All-append _ records ((z, c) ∷ []) h.readable (reads, tt);
}

-- A compaction that is not interrupted, of a log of whole records that read back, succeeds and
-- keeps exactly the records above `min`.
pub compact_below-Holds :
    (codec : Codec) (file : Option Bytes) (records : List Record) (min : ℕ)
    → Holds codec file records
    → ((compact_below codec done file min).0 ≡ ok tt)
      × Holds codec (compact_below codec done file min).1 (newer min records)
unfolding compact_below
compact_below-Holds codec file records min h =
    rw (replay-Holds codec file records h, compact_below)
      (
        refl,
        record {
          bytes = write_newer-frames codec min records;
          readable = newer-Readable codec min records h.readable;
        },
      )

-- Replaying a log with one more record, new to the store, applies one more command.
pub replay_into-append :
    (s : TreeStore) (records : List Record) (z : Zxid) (c : Command) (t : TreeStore) (a : Applied)
    → replay_into s records ≡ (ok tt, t)
    → t.zxid < z
    → (apply c t).0 ≡ ok a
    → replay_into s (records ++ (z, c) ∷ []) ≡ (ok tt, (apply c t).1)
unfolding replay_into
replay_into-append s [] z c t a e h k =
    let same : s ≡ t = ap (λ x. x.1) e in
    let k' : (apply c s).0 ≡ ok a = cc in let h' : s.zxid < z = rw same h in ground (arith, same)
replay_into-append s ((z', c') ∷ records) z c t a e h k = elim (Bool-cases (leb z' s.zxid)) [
  | inl old ↦
      let e' : replay_into s records ≡ (ok tt, t) = ground arith in
      ground (arith, replay_into-append s records z c t a e' h k)
  | inr new ↦ elim (Result-split (apply c' s).0) [
    | inl (b, good) ↦
        let e' : replay_into (apply c' s).1 records ≡ (ok tt, t) = ground arith in
        ground (arith, replay_into-append (apply c' s).1 records z c t a e' h k)
    | inr (inl (x, bad)) ↦ absurd (ground (arith, ap (λ x. x.0) e))
    | inr (inr bad) ↦ absurd (ground (arith, ap (λ x. x.0) e))
  ]
]
