-- ===== src/Codec/H264.antt =====
-- src/codec/h264.rs: NAL units, and the framings that put several of them in one buffer.
use relaybay.Base.{
  ℕ, zero, suc, ◌+◌, ◌-◌, ◌*◌, ◌/◌, ◌%◌, ◌^◌, ◌≤◌, ◌<◌, Bool, true, false, eqb, leb, ltb,
}
use relaybay.Base.{
  if◌then◌else◌, Option, none, some, List, [], ◌∷◌, ◌++◌, Bytes, length, take, drop,
}
use relaybay.Base.{is_empty, from_be, to_be, ◌&&◌, ◌||◌, ◌≡◌}
pub mod Prefixed
pub mod Framing
pub mod Config
pub mod Recorded
pub mod Usable

abbrev pub start_code : Bytes
start_code = 0 ∷ 0 ∷ 0 ∷ 1 ∷ []

pub data NalType : Type 0 where
  slice idr sei sps pps aud : NalType
  other : ℕ → NalType

-- `byte & 0x1f` is the five low bits.
unfoldable pub from_header : ℕ → NalType
from_header b =
    let value = b % 32 in
    if eqb value 1
    then slice
    else if eqb value 5
    then idr
    else if eqb value 6
    then sei
    else if eqb value 7
    then sps
    else if eqb value 8
    then pps
    else if eqb value 9
    then aud
    else other value

unfoldable pub value : NalType → ℕ
value slice = 1
value idr = 5
value sei = 6
value sps = 7
value pps = 8
value aud = 9
value (other v) = v

pub record Nal : Type 0 where
  pub kind : NalType
  pub contents : Bytes

-- `Nal::new`: a unit is at least its header byte.
unfoldable pub new : Bytes → Option Nal
new [] = none
new (b ∷ bs) = some (record { kind = from_header b; contents = b ∷ bs })

-- A unit that `new` made. The fields are private, so every unit is one.
abbrev pub IsNal : Nal → Type 0
IsNal n = new n.contents ≡ some n

pub data H264Error : Type 0 where
  truncated : ℕ → ℕ → H264Error
  empty_nal_unit : ℕ → H264Error
  nal_unit_too_long : ℕ → ℕ → H264Error

-- A `Result`, or the model's fuel used up.
pub data Outcome {ℓ} (R : Type ℓ) : Type ℓ where
  spent : Outcome R
  err : H264Error → Outcome R
  ok : R → Outcome R

infixl 5 ◌>>=◌
abbrev pub ◌>>=◌ {ℓ₁ ℓ₂} : {R : Type ℓ₁} {Q : Type ℓ₂} → Outcome R → (R → Outcome Q) → Outcome Q
spent >>= next = spent
err why >>= next = err why
ok result >>= next = next result

unfoldable pub is_idr : NalType → Bool
is_idr idr = true
is_idr _ = false

unfoldable pub is_keyframe : List Nal → Bool
is_keyframe [] = false
is_keyframe (n ∷ nalus) = is_idr n.kind || is_keyframe nalus

unfoldable pub cut_unit : ℕ → ℕ → Bytes → Option Nal → Outcome (Nal × ℕ × Bytes)
cut_unit start unit_length behind none = err (empty_nal_unit start)
cut_unit start unit_length behind (some n) = ok (n, start + unit_length, drop unit_length behind)

-- What stands behind a length: `start` is where.
unfoldable pub split_body : ℕ → ℕ → Bytes → Outcome (Nal × ℕ × Bytes)
split_body start unit_length behind =
    if eqb unit_length 0
    then err (empty_nal_unit start)
    else if ltb (length behind) unit_length
    then err (truncated start (unit_length - length behind))
    else cut_unit start unit_length behind (new (take unit_length behind))

-- One unit behind its length: `rest` is `data[offset..]`. It returns the unit and what follows it.
unfoldable pub split_unit : ℕ → ℕ → Bytes → Outcome (Nal × ℕ × Bytes)
split_unit size offset rest =
    if ltb (length rest) size
    then err (truncated offset (size - length rest))
    else split_body (offset + size) (from_be (take size rest)) (drop size rest)

-- A length is read as a number without a bound: below a width of 8 that is what `usize` holds.
-- The loop of `split_length_prefixed`. A round that does not fail takes a byte at least.
unfoldable pub split_loop : ℕ → ℕ → ℕ → Bytes → Outcome (List Nal)
split_loop fuel size offset [] = ok []
split_loop zero size offset (b ∷ bs) = spent
split_loop (suc fuel) size offset (b ∷ bs) = do
  (first, offset', rest) ← split_unit size offset (b ∷ bs)
  nalus ← split_loop fuel size offset' rest
  ok (first ∷ nalus)

unfoldable pub split_length_prefixed : Bytes → ℕ → Outcome (List Nal)
split_length_prefixed bs size = split_loop (length bs) size 0 bs

-- The bytes that `put_length_prefixed` appends. `size_of::<usize>()` is 8.
unfoldable pub put_length_prefixed : Bytes → ℕ → Outcome Bytes
put_length_prefixed unit size =
    if leb 8 size || ltb (length unit) (2 ^ (8 * size))
    then ok (to_be size (length unit) ++ unit)
    else err (nal_unit_too_long (length unit) size)

unfoldable pub to_length_prefixed : List Nal → ℕ → Outcome Bytes
to_length_prefixed [] size = ok []
to_length_prefixed (n ∷ nalus) size = do
  unit ← put_length_prefixed n.contents size
  rest ← to_length_prefixed nalus size
  ok (unit ++ rest)

unfoldable pub to_annex_b : List Nal → Bytes
to_annex_b [] = []
to_annex_b (n ∷ nalus) = start_code ++ (n.contents ++ to_annex_b nalus)

unfoldable pub starts_with : Bytes → Bytes → Bool
starts_with [] bs = true
starts_with (c ∷ cs) [] = false
starts_with (c ∷ cs) (b ∷ bs) = eqb b c && starts_with cs bs

-- The long start code, or the short one, which is the long one without its first byte.
unfoldable pub starts_with_start_code : Bytes → Bool
starts_with_start_code bs = starts_with start_code bs || starts_with (drop 1 start_code) bs
