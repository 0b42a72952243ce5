-- ===== src/Codec/Aac.antt =====
-- src/codec/aac.rs: the record that a decoder is given before an AAC stream.
use relaybay.Base.{
  ℕ, zero, suc, ◌+◌, ◌-◌, ◌*◌, ◌/◌, ◌%◌, ◌^◌, Bool, eqb, ltb, if◌then◌else◌, Option, none, some,
}
use relaybay.Base.{List, [], ◌∷◌, Bytes, length, get_elem?}
pub mod Parsing

abbrev pub sample_rates : List ℕ
sample_rates =
    96000 ∷ 88200 ∷ 64000 ∷ 48000 ∷ 44100 ∷ 32000 ∷ 24000 ∷ 22050 ∷ 16000 ∷ 12000 ∷ 11025 ∷ 8000
    ∷ 7350 ∷ []

abbrev pub channel_counts : List ℕ
channel_counts = 0 ∷ 1 ∷ 2 ∷ 3 ∷ 4 ∷ 5 ∷ 6 ∷ 8 ∷ []

pub data AacError : Type 0 where
  truncated : ℕ → ℕ → AacError
  no_object_type : AacError
  reserved_sample_rate : ℕ → AacError
  channels_not_stated : AacError

-- A `Result`, or the panic of an index behind the end.
pub data Outcome {ℓ} (R : Type ℓ) : Type ℓ where
  ok : R → Outcome R
  panic : Outcome R
  err : AacError → Outcome R

infixl 5 ◌>>=◌
abbrev pub ◌>>=◌ {ℓ₁ ℓ₂} : {R : Type ℓ₁} {Q : Type ℓ₂} → Outcome R → (R → Outcome Q) → Outcome Q
ok result >>= next = next result
panic >>= next = panic
err why >>= next = err why

pub record Parameters : Type 0 where
  pub config : Bytes
  pub object_type : ℕ
  pub sample_rate : ℕ
  pub channels : ℕ

-- One round of the loop of `Bits::read`: the bit at an offset, the highest of a byte first.
unfoldable pub bit : Bytes → ℕ → Outcome ℕ
bit bs offset = elim (get_elem? bs (offset / 8)) [
  | none ↦ panic
  | some byte ↦ ok (byte / 2 ^ (7 - offset % 8) % 2)
]

-- `for _ in 0..count`. The value is a `u32`.
unfoldable pub bits_loop : ℕ → Bytes → ℕ → ℕ → Outcome (ℕ × ℕ)
bits_loop zero bs value offset = ok (value, offset)
bits_loop (suc count) bs value offset =
    bit bs offset >>= λ b. bits_loop count bs (value * 2 % 2 ^ 32 + b) (offset + 1)

-- `Bits::read` at an offset, which it returns moved on.
unfoldable pub read_bits : ℕ → Bytes → ℕ → Outcome (ℕ × ℕ)
read_bits count bs offset =
    if ltb (length bs * 8) (offset + count)
    then err (truncated offset (offset + count - length bs * 8))
    else bits_loop count bs 0 offset

unfoldable pub widen_object_type : Bytes → ℕ × ℕ → Outcome (ℕ × ℕ)
widen_object_type bs (value, offset) =
    if eqb value 31
    then (read_bits 6 bs offset >>= λ (more, next). ok (more + 32, next))
    else ok (value, offset)

unfoldable pub check_object_type : ℕ × ℕ → Outcome (ℕ × ℕ)
check_object_type (object_type, offset) =
    if eqb object_type 0 then err no_object_type else ok (object_type, offset)

unfoldable pub look_up_rate : Bytes → ℕ × ℕ → Outcome (ℕ × ℕ)
look_up_rate bs (index, offset) =
    if eqb index 15 then read_bits 24 bs offset else elim (get_elem? sample_rates index) [
      | none ↦ err (reserved_sample_rate index)
      | some rate ↦ ok (rate, offset)
    ]

unfoldable pub look_up_channels : ℕ → Outcome ℕ
look_up_channels index = elim (get_elem? channel_counts index) [
  | none ↦ err channels_not_stated
  | some count ↦ if ltb 0 count then ok count else err channels_not_stated
]

-- `Parameters::parse`. `object_type as u8` keeps the low eight bits.
unfoldable pub parse : Bytes → Outcome Parameters
parse config =
    read_bits 5 config 0
    >>= widen_object_type config
    >>= check_object_type
    >>= λ (object_type, offset₁).
        (read_bits 4 config offset₁ >>= look_up_rate config) >>= λ (sample_rate, offset₂).
        read_bits 4 config offset₂ >>= λ (index, offset₃). look_up_channels index >>= λ channels.
        ok (record {
          config = config;
          object_type = object_type % 256;
          sample_rate = sample_rate;
          channels = channels;
        })
