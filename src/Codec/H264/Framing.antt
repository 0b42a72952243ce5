-- ===== src/Codec/H264/Framing.antt =====
-- `starts_with_start_code` of src/codec/h264.rs on payloads that are length-prefixed.
use relaybay.Base.{ℕ, ◌^◌, ◌≤◌, ◌<◌, ◌≡◌, ◌↔◌, ◌⊎◌, true}
use relaybay.Base.{List, ◌∷◌, ◌++◌, Bytes, length, to_be, arith}
use relaybay.Codec.H264.{Nal, ok, starts_with, starts_with_start_code, to_length_prefixed}
use relaybay.Codec.H264.Prefixed.{to_length_prefixed-cons}

-- What the first four bytes of a payload say when they are a length.
starts_after_length :
    (l : ℕ) (rest : Bytes)
    → l < 2 ^ 32
    → (starts_with_start_code (to_be 4 l ++ rest) ≡ true) ↔ ((l ≡ 1) ⊎ ((256 ≤ l) × (l < 512)))
unfolding starts_with_start_code starts_with to_be
starts_after_length l rest h = ground arith

-- A payload of units with four-byte lengths is taken for one with start codes exactly where its first
-- unit has one byte, or 256 to 511 of them.
pub starts_with_start_code-to_length_prefixed :
    (n : Nal) (nalus : List Nal) (bytes : Bytes)
    → to_length_prefixed (n ∷ nalus) 4 ≡ ok bytes
    → (starts_with_start_code bytes ≡ true)
      ↔ ((length n.contents ≡ 1) ⊎ ((256 ≤ length n.contents) × (length n.contents < 512)))
starts_with_start_code-to_length_prefixed n nalus bytes h =
    let (rest, fits, e, shape) = to_length_prefixed-cons n nalus 4 bytes (omega arith) h in
    rw shape (starts_after_length (length n.contents) (n.contents ++ rest) fits)
