-- ===== src/Storage/Persistence/Framing.antt =====
-- The bytes of the log: a file of whole records reads back, and a torn last record is left out.
use native.Mathlib.Nat.{pow-suc}
use zoocooker.Base.{
  ℕ, zero, suc, ◌+◌, ◌-◌, ◌/◌, ◌^◌, ◌<◌, ◌≡◌, refl, sym, ap, ◌∙◌, none, some, inl, inr, List, [],
  ◌∷◌, ◌++◌, All, Bool-cases, length, length-append, take, take-append, drop-append, length-take-le,
  take-append_add, append_assoc, append-nil, ltb, arith,
}
use zoocooker.Base.Exec.{ok}
use zoocooker.Protocol.Types.{Bytes, Command, Zxid}
use zoocooker.Storage.Persistence.{
  WalRecord, Codec, to_le_bytes, from_le_bytes, read_exact, frame, replay_loop, replay,
}

pub length-to_le_bytes : (w n : ℕ) → length (to_le_bytes w n) ≡ w
unfolding to_le_bytes
length-to_le_bytes zero n = refl
length-to_le_bytes (suc w) n = ap suc (length-to_le_bytes w (n / 256))

-- A number below 256^w reads back from its `w` bytes.
pub from_le_bytes-to_le_bytes : (w n : ℕ) → n < 256 ^ w → from_le_bytes (to_le_bytes w n) ≡ n
unfolding to_le_bytes from_le_bytes
from_le_bytes-to_le_bytes zero n h = omega arith
from_le_bytes-to_le_bytes (suc w) n h =
    omega
      (arith, pow-suc 256 w, from_le_bytes-to_le_bytes w (n / 256) (omega (arith, pow-suc 256 w)))

-- What the log needs of serde_json for a record: it reads back from its bytes, of which there are
-- as many as a `Vec` can hold, `isize::MAX` at most.
pub record Reads (codec : Codec) (r : WalRecord) : Type 0 where
  pub from_to : codec.from_slice (codec.to_vec r) ≡ some r
  pub fits : length (codec.to_vec r) < 2 ^ 63

below : {codec : Codec} {r : WalRecord} → Reads codec r → length (codec.to_vec r) < 256 ^ 8
below reads = omega (arith, reads.fits)

abbrev pub Readable : Codec → List (Zxid × Command) → Type 0
Readable codec = All (λ r. Reads codec (record { zxid = r.0; command = r.1 }))

pub read_exact-append :
    (n : ℕ) (xs ys : Bytes) → length xs ≡ n → read_exact n (xs ++ ys) ≡ some (xs, ys)
unfolding read_exact
read_exact-append n xs ys e =
    rw (← e, length-append xs ys, take-append xs ys, drop-append xs ys) (ground arith)

read_exact-short : (n : ℕ) (xs : Bytes) → length xs < n → read_exact n xs ≡ none
unfolding read_exact
read_exact-short n xs h = ground arith

module _ (codec : Codec) where
  unfoldable pub frames : List (Zxid × Command) → Bytes
  frames [] = []
  frames ((zxid, command) ∷ records) =
      frame codec (record { zxid = zxid; command = command }) ++ frames records

  pub length-frame : (r : WalRecord) → length (frame codec r) ≡ 8 + length (codec.to_vec r)
  unfolding frame
  length-frame r = omega (
    arith,
    length-append (to_le_bytes 8 (length (codec.to_vec r))) (codec.to_vec r),
    length-to_le_bytes 8 (length (codec.to_vec r)),
  )

module _ (codec : Codec) where
  -- one record in front
  replay_loop-frame :
      (fuel : ℕ) (records : List (Zxid × Command)) (r : WalRecord) (rest : Bytes)
      → Reads codec r
      → replay_loop codec (suc fuel) records (frame codec r ++ rest)
        ≡ replay_loop codec fuel (records ++ (r.zxid, r.command) ∷ []) rest
  unfolding replay_loop frame
  replay_loop-frame fuel records r rest reads =
      let payload = codec.to_vec r in
      ground (
        arith,
        append_assoc (to_le_bytes 8 (length payload)) payload rest,
        read_exact-append 8 (to_le_bytes 8 (length payload)) (payload ++ rest)
            (length-to_le_bytes 8 (length payload)),
        from_le_bytes-to_le_bytes 8 (length payload) (below reads),
        read_exact-append (length payload) payload rest refl,
        reads.from_to,
      )

  -- the length is there, and a part of the payload
  torn_payload :
      (fuel : ℕ) (records : List (Zxid × Command)) (r : WalRecord) (m : ℕ)
      → Reads codec r
      → m < length (codec.to_vec r)
      → replay_loop codec
          (suc fuel)
          records
          (to_le_bytes 8 (length (codec.to_vec r)) ++ take m (codec.to_vec r))
        ≡ ok records
  unfolding replay_loop
  torn_payload fuel records r m reads h =
      let payload = codec.to_vec r in
      ground (
        arith,
        read_exact-append 8 (to_le_bytes 8 (length payload)) (take m payload)
            (length-to_le_bytes 8 (length payload)),
        from_le_bytes-to_le_bytes 8 (length payload) (below reads),
        read_exact-short (length payload) (take m payload)
            (omega (arith, length-take-le m payload)),
      )

  take-frame :
      (r : WalRecord) (m : ℕ)
      → take (length (to_le_bytes 8 (length (codec.to_vec r))) + m) (frame codec r)
        ≡ to_le_bytes 8 (length (codec.to_vec r)) ++ take m (codec.to_vec r)
  unfolding frame
  take-frame r m = take-append_add (to_le_bytes 8 (length (codec.to_vec r))) (codec.to_vec r) m

  torn_header :
      (fuel : ℕ) (records : List (Zxid × Command)) (file : Bytes)
      → length file < 8
      → replay_loop codec (suc fuel) records file ≡ ok records
  unfolding replay_loop
  torn_header fuel records file h = ground (arith, read_exact-short 8 file h)

  -- a part of a record that is not the whole of it
  replay_loop-torn :
      (fuel : ℕ) (records : List (Zxid × Command)) (r : WalRecord) (k : ℕ)
      → Reads codec r
      → 0 < fuel
      → k < length (frame codec r)
      → replay_loop codec fuel records (take k (frame codec r)) ≡ ok records
  replay_loop-torn zero records r k reads f h = elim f [ ]
  replay_loop-torn (suc fuel) records r k reads f h = elim (Bool-cases (ltb k 8)) [
    | inl few ↦
        torn_header fuel records (take k (frame codec r))
          (ground (arith, length-take-le k (frame codec r)))
    | inr many ↦
        let payload = codec.to_vec r in
        let header = to_le_bytes 8 (length payload) in
        let e : k ≡ length header + (k - 8) =
          ground (arith, length-to_le_bytes 8 (length payload)) in
        ap (λ x. replay_loop codec (suc fuel) records (take x (frame codec r))) e
        ∙ ap (replay_loop codec (suc fuel) records) (take-frame r (k - 8))
        ∙ torn_payload fuel records r (k - 8) reads (ground (arith, length-frame codec r))
  ]

  -- what the loop makes of whole records and a rest
  pub replay_loop-frames :
      (fuel : ℕ) (acc records : List (Zxid × Command)) (rest : Bytes)
      → Readable codec records
      → length (frames codec records) + length rest < fuel
      → (left : ℕ) × (length rest < left)
        × (replay_loop codec fuel acc (frames codec records ++ rest)
            ≡ replay_loop codec left (acc ++ records) rest)
  unfolding frames
  replay_loop-frames fuel acc [] rest u h = (fuel, omega arith, rw append-nil)
  replay_loop-frames zero acc (x ∷ records) rest u h = absurd (omega arith)
  replay_loop-frames (suc fuel) acc ((z, c) ∷ records) rest u h =
      let r : WalRecord = record { zxid = z; command = c } in
      let (left, room, e) = replay_loop-frames fuel (acc ++ (z, c) ∷ []) records rest u.1 (
        omega
          (arith, length-append (frame codec r) (frames codec records), length-frame codec r)) in
      (
        left,
        room,
        ap (replay_loop codec (suc fuel) acc)
              (append_assoc (frame codec r) (frames codec records) rest)
            ∙ replay_loop-frame fuel acc r (frames codec records ++ rest) u.0
            ∙ e
            ∙ ap (λ x. replay_loop codec left x rest) (append_assoc acc ((z, c) ∷ []) records),
      )

  -- A log of whole records that read back, then the first bytes of one more record, short of the
  -- whole: the records are read, and the torn one is left out.
  pub replay-torn :
      (records : List (Zxid × Command)) (r : WalRecord) (k : ℕ)
      → Readable codec records
      → Reads codec r
      → k < length (frame codec r)
      → replay codec (some (frames codec records ++ take k (frame codec r))) ≡ ok records
  unfolding replay
  replay-torn records r k u reads h =
      let rest = take k (frame codec r) in
      let (left, room, e) =
        replay_loop-frames (suc (length (frames codec records ++ rest))) [] records rest u
          (omega (arith, length-append (frames codec records) rest)) in
      e ∙ replay_loop-torn left records r k reads (omega arith) h

  replay_loop-end :
      (fuel : ℕ) (records : List (Zxid × Command))
      → 0 < fuel
      → replay_loop codec fuel records [] ≡ ok records
  replay_loop-end zero records h = elim h [ ]
  replay_loop-end (suc fuel) records h = torn_header fuel records [] (omega arith)

  pub replay-frames :
      (records : List (Zxid × Command))
      → Readable codec records
      → replay codec (some (frames codec records)) ≡ ok records
  unfolding replay
  replay-frames records u =
      let (left, room, e) =
        replay_loop-frames (suc (length (frames codec records))) [] records [] u (omega arith) in
      ap (replay_loop codec (suc (length (frames codec records))) []) (sym (append-nil _))
      ∙ e
      ∙ replay_loop-end left records (omega arith)
