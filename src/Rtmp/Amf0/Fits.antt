-- ===== src/Rtmp/Amf0/Fits.antt =====
-- The values of src/rtmp/amf0.rs that can be written and read back, and their parts.
use relaybay.Base.{ℕ, ◌+◌, ◌^◌, ◌<◌, ◌≡◌, Bool, true, ◌++◌, Bytes}
use relaybay.Base.{
  length, to_be, from_be-to_be, length-to_be, ge→ltb, length-append, take-append, drop-append,
  arith,
}
use relaybay.Base.Outcome.{ok}
use relaybay.Rtmp.Amf0.Types.{
  Value, Values, Properties, number, boolean, string, object, ecma_array, strict_array, date, null,
  undefined, no_values, item, no_properties, property, max_depth, count_values,
}
use relaybay.Rtmp.Amf0.Reader.{Reader, bytes, number_of, check_utf8, read_string}

-- What a value must be to be written `depth` levels in: numbers of 64 bits, texts that are UTF-8 and
-- not too long, keys that are not empty, and no more levels than are left.
module _ (is_utf8 : Bytes → Bool) where
  unfoldable mutual
    pub FitsValue : ℕ → Value → Type 0
    FitsValue depth (number bits) = bits < 2 ^ 64
    FitsValue depth (boolean flag) = Unit {0}
    FitsValue depth (string text) = (is_utf8 text ≡ true) × (length text < 2 ^ 32)
    FitsValue depth (object ps) = (depth < max_depth) × FitsProperties (depth + 1) ps
    FitsValue depth (ecma_array ps) = (depth < max_depth) × FitsProperties (depth + 1) ps
    FitsValue depth (strict_array vs) =
        (depth < max_depth) × (count_values vs < 2 ^ 32) × FitsValues (depth + 1) vs
    FitsValue depth (date millis) = millis < 2 ^ 64
    FitsValue depth null = Unit {0}
    FitsValue depth undefined = Unit {0}

    pub FitsValues : ℕ → Values → Type 0
    FitsValues depth no_values = Unit {0}
    FitsValues depth (item v vs) = FitsValue depth v × FitsValues depth vs

    pub FitsProperties : ℕ → Properties → Type 0
    FitsProperties depth no_properties = Unit {0}
    FitsProperties depth (property key v ps) =
        (is_utf8 key ≡ true)
        × (0 < length key)
        × (length key < 2 ^ 16)
        × FitsValue depth v
        × FitsProperties depth ps

-- A reader before some bytes.
abbrev pub before : ℕ → Bytes → ℕ → Reader
before depth rest pos = record { rest = rest; pos = pos; depth = depth }

pub bytes-append :
    (depth : ℕ) (field rest : Bytes) (pos count : ℕ)
    → count ≡ length field
    → bytes count (before depth (field ++ rest) pos) ≡ ok (field, before depth rest (pos + count))
unfolding bytes
bytes-append depth field rest pos count h = rw (
  ge→ltb (length (field ++ rest)) count (omega (arith, length-append field rest)),
  take-append count field rest h,
  drop-append count field rest h,
)

pub number_of-to_be :
    (depth width n : ℕ) (rest : Bytes) (pos : ℕ)
    → n < 256 ^ width
    → number_of width (before depth (to_be width n ++ rest) pos)
      ≡ ok (n, before depth rest (pos + width))
unfolding number_of
number_of-to_be depth width n rest pos h =
    let len = length-to_be width n in
    rw (
      bytes-append depth (to_be width n) rest pos width (omega (arith, len)),
      from_be-to_be width n h,
    )

pub read_string-append :
    (is_utf8 : Bytes → Bool) (depth : ℕ) (text rest : Bytes) (pos count : ℕ)
    → is_utf8 text ≡ true
    → count ≡ length text
    → read_string is_utf8 count (before depth (text ++ rest) pos)
      ≡ ok (text, before depth rest (pos + count))
unfolding read_string check_utf8
read_string-append is_utf8 depth text rest pos count valid h =
    rw (bytes-append depth text rest pos count h, valid)
