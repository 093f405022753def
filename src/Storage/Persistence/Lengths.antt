-- ===== src/Storage/Persistence/Lengths.antt =====
-- The lengths in the bytes of the log: a length that no vector can have is what makes a read panic.
use zoocooker.Base.{
  ℕ, zero, suc, ◌^◌, ◌<◌, ◌≤◌, ◌≡◌, ◌∙◌, some, List, [], ◌++◌, length, length-append, arith,
}
use zoocooker.Base.Exec.{panic}
use zoocooker.Protocol.Types.{Bytes, Command, Zxid}
use zoocooker.Storage.Persistence.{Codec, from_le_bytes, replay_loop, replay}
use zoocooker.Storage.Persistence.Framing.{Readable, frames, read_exact-append, replay_loop-frames}

-- Somewhere in the file there are eight bytes that stand for 2^63 or more.
abbrev pub HoldsOversized : Bytes → Type 0
HoldsOversized file =
    (before : Bytes) × (len_buf : Bytes) × (rest : Bytes) × (file ≡ before ++ (len_buf ++ rest))
    × (length len_buf ≡ 8)
    × (2 ^ 63 ≤ from_le_bytes len_buf)

module _ (codec : Codec) where
  oversized_loop :
      (fuel : ℕ) (records : List (Zxid × Command)) (len_buf rest : Bytes)
      → length len_buf ≡ 8
      → 2 ^ 63 ≤ from_le_bytes len_buf
      → replay_loop codec (suc fuel) records (len_buf ++ rest) ≡ panic
  unfolding replay_loop
  oversized_loop fuel records len_buf rest eight big =
      ground (arith, read_exact-append 8 len_buf rest eight, big)

  -- A log of whole records that read back, then eight bytes that stand for a length of 2^63 or more,
  -- then anything: reading it panics, and no record is returned.
  pub replay-oversized :
      (records : List (Zxid × Command)) (len_buf rest : Bytes)
      → Readable codec records
      → length len_buf ≡ 8
      → 2 ^ 63 ≤ from_le_bytes len_buf
      → replay codec (some (frames codec records ++ (len_buf ++ rest))) ≡ panic
  unfolding replay
  replay-oversized records len_buf rest u eight big =
      let tail = len_buf ++ rest in
      let (left, room, e) =
        replay_loop-frames codec (suc (length (frames codec records ++ tail))) [] records tail u
          (omega (arith, length-append (frames codec records) tail)) in
      e ∙ go left room
    where
      go :
          (left : ℕ)
          → length (len_buf ++ rest) < left
          → replay_loop codec left records (len_buf ++ rest) ≡ panic
      go zero room = elim room [ ]
      go (suc fuel) room = oversized_loop fuel records len_buf rest eight big
