-- ===== src/Rtmp/Flv.antt =====
-- src/rtmp/flv.rs: the tag body in front of the coded bytes.
use relaybay.Base.{
  ℕ, ◌+◌, ◌-◌, ◌*◌, ◌/◌, ◌%◌, ◌^◌, ◌≤◌, ◌<◌, suc, Bool, true, false, eqb, leb, ltb, ◌||◌,
}
use relaybay.Base.{if◌then◌else◌, Option, none, some, [], ◌∷◌, ◌++◌, Bytes, length, take, drop, not}
use relaybay.Base.{get_elem?, slice, from_be, to_be, ℤ, pos, negsuc}
use Prim.Native.Nat.{bit_or}
pub mod RoundTrip
pub mod Panic

abbrev pub avc : ℕ
avc = 7

abbrev pub aac : ℕ
aac = 10

-- `enhanced` carries the bytes of the FourCC, if they are there, in place of the text made of them.
pub data FlvError : Type 0 where
  truncated : ℕ → ℕ → FlvError
  unread_video_codec : ℕ → FlvError
  unread_audio_format : ℕ → FlvError
  enhanced : Option Bytes → FlvError
  unknown_packet_type : ℕ → FlvError
  composition_time_too_large : ℤ → FlvError

-- A `Result`, or the panic of a slice that begins behind the end of its bytes.
pub data Outcome {ℓ} (R : Type ℓ) : Type ℓ where
  panic : Outcome R
  err : FlvError → Outcome R
  ok : R → Outcome R

infixl 5 ◌>>=◌
abbrev pub ◌>>=◌ {ℓ₁ ℓ₂} : {R : Type ℓ₁} {Q : Type ℓ₂} → Outcome R → (R → Outcome Q) → Outcome Q
panic >>= next = panic
err why >>= next = err why
ok result >>= next = next result

pub data VideoTag : Type 0 where
  sequence_header : Bytes → VideoTag
  picture : Bool → ℤ → Bytes → VideoTag
  end : VideoTag

pub data AudioTag : Type 0 where
  sequence_header : Bytes → AudioTag
  frame : Bytes → AudioTag

unfoldable pub byte : Bytes → ℕ → Outcome ℕ
byte bs index = elim (get_elem? bs index) [
  | some b ↦ ok b
  | none ↦ err (truncated (length bs) (index + 1 - length bs))
]

-- `data.slice(from..)`.
unfoldable pub slice_from : ℕ → Bytes → Outcome Bytes
slice_from from bs = if leb from (length bs) then ok (drop from bs) else panic

-- `data.get(from..to)`.
unfoldable pub get_range : ℕ → ℕ → Bytes → Option Bytes
get_range from to bs = if leb to (length bs) then some (slice from to bs) else none

-- Two's complement in three bytes.
unfoldable pub si24 : Bytes → ℤ
si24 bs =
    let value = from_be (slice 0 3 bs) in
    if ltb value 0x80_0000 then pos value else negsuc (0x100_0000 - value - 1)

-- The bytes that `put_si24` appends.
unfoldable pub put_si24 : ℤ → Outcome Bytes
put_si24 (pos n) =
    if ltb n 0x80_0000 then ok (drop 1 (to_be 4 n)) else err (composition_time_too_large (pos n))
put_si24 (negsuc n) =
    if ltb n 0x80_0000
    then ok (drop 1 (to_be 4 (0x100_0000 - suc n)))
    else err (composition_time_too_large (negsuc n))

unfoldable pub composition_time : Bytes → Outcome ℤ
composition_time bs = elim (get_range 2 5 bs) [
  | some field ↦ ok (si24 field)
  | none ↦ err (truncated (length bs) (5 - length bs))
]

unfoldable pub read_packet : Bytes → Bool → ℕ → Outcome VideoTag
read_packet bs keyframe kind =
    if eqb kind 0
    then (do record_bytes ← slice_from 5 bs; ok (sequence_header record_bytes))
    else if eqb kind 1
    then (do time ← composition_time bs; coded ← slice_from 5 bs; ok (picture keyframe time coded))
    else if eqb kind 2
    then ok end
    else err (unknown_packet_type kind)

-- What `read_video` does with the first byte.
unfoldable pub read_coded : Bytes → ℕ → Outcome VideoTag
read_coded bs first =
    if not (eqb (first / 128) 0)
    then err (enhanced (get_range 1 5 bs))
    else if not (eqb (first % 16) avc)
    then err (unread_video_codec (first % 16))
    else (byte bs 1 >>= read_packet bs (eqb (first / 16) 1 || eqb (first / 16) 4))

unfoldable pub read_video : Bytes → Outcome VideoTag
read_video bs = do first ← byte bs 0; read_coded bs first

unfoldable pub read_audio_packet : Bytes → ℕ → Outcome AudioTag
read_audio_packet bs kind =
    if eqb kind 0
    then (do config ← slice_from 2 bs; ok (AudioTag.sequence_header config))
    else if eqb kind 1
    then (do coded ← slice_from 2 bs; ok (frame coded))
    else err (unknown_packet_type kind)

unfoldable pub read_audio : Bytes → Outcome AudioTag
read_audio bs = do
  first ← byte bs 0
  kind ← (if not (eqb (first / 16) aac) then err (unread_audio_format (first / 16)) else byte bs 1)
  read_audio_packet bs kind

unfoldable pub write_video : VideoTag → Outcome Bytes
write_video (sequence_header config) = do
  time ← put_si24 (pos 0)
  ok (bit_or 0x10 avc ∷ 0 ∷ (time ++ config))
write_video (picture keyframe composition coded) = do
  time ← put_si24 composition
  ok (bit_or (if keyframe then 0x10 else 0x20) avc ∷ 1 ∷ (time ++ coded))
write_video end = do time ← put_si24 (pos 0); ok (bit_or 0x10 avc ∷ 2 ∷ time)

unfoldable pub write_audio : AudioTag → Bytes
write_audio (AudioTag.sequence_header config) = bit_or (aac * 16) 0x0f ∷ 0 ∷ config
write_audio (frame coded) = bit_or (aac * 16) 0x0f ∷ 1 ∷ coded
