-- ===== src/Codec/H264/Recorded.antt =====
-- The record of src/codec/h264.rs written and read back, and what any record that is read holds.
use relaybay.Base.{ℕ, ◌+◌, ◌-◌, ◌%◌, ◌^◌, ◌≤◌, ◌<◌, ◌≡◌, refl, sym, false}
use relaybay.Base.{List, [], ◌∷◌, ◌++◌, Bytes, length, from_be, to_be}
use relaybay.Base.{
  is_empty, arith, All, append_assoc, append-nil, length-append, length-to_be, from_be-to_be,
  take-append, drop-append,
}
use relaybay.Base.{ge→ltb, lt→ltb, ne→eqb, agree_below, agree_below→eq}
use Prim.Native.Nat.{bit_or}
use relaybay.Base.Outcome.{ok}
use relaybay.Codec.H264.{Nal, IsNal, put_length_prefixed}
use relaybay.Codec.H264.Config.{
  AvcConfig, Reader, advance, need, index_range, number_of, skip, keep_set, read_set, read_sets,
  parameter_sets, check_sets, parse_fields, parse, profile_level, of_framing, put_sets, put_width,
  to_bytes,
}

abbrev before : Bytes → ℕ → Reader
before rest pos = record { rest = rest; pos = pos }

number_of-to_be :
    (width n : ℕ) (rest : Bytes) (pos : ℕ)
    → n < 256 ^ width
    → number_of width (before (to_be width n ++ rest) pos) ≡ ok (n, before rest (pos + width))
unfolding number_of need index_range advance
number_of-to_be width n rest pos h =
    let len = length-to_be width n in
    rw
      (
        ge→ltb (length (to_be width n ++ rest)) width
            (omega (arith, length-append (to_be width n) rest)),
        take-append width (to_be width n) rest (omega (arith, len)),
        drop-append width (to_be width n) rest (omega (arith, len)),
        from_be-to_be width n h,
      )
      refl

-- A set that a record can hold.
abbrev pub IsParameterSet : Nal → Type 0
IsParameterSet set = IsNal set × (0 < length set.contents) × (length set.contents < 2 ^ 16)

read_set-append :
    (set : Nal) (rest : Bytes) (pos : ℕ)
    → IsParameterSet set
    → read_set (length set.contents) (before (set.contents ++ rest) pos)
      ≡ ok (set, before rest (pos + length set.contents))
unfolding read_set need index_range keep_set advance
read_set-append set rest pos (made, there, short) =
    let count = length set.contents in
    rw
      (
        ne→eqb count 0 (λ e. omega arith),
        ge→ltb (length (set.contents ++ rest)) count
            (omega (arith, length-append set.contents rest)),
        take-append count set.contents rest refl,
        made,
        drop-append count set.contents rest refl,
      )
      refl

put_set :
    (set : Nal)
    → IsParameterSet set
    → of_framing (put_length_prefixed set.contents 2)
      ≡ ok (to_be 2 (length set.contents) ++ set.contents)
unfolding put_length_prefixed
put_set set (made, there, short) = rw (lt→ltb (length set.contents) (2 ^ 16) short) refl

-- The sets written one after the other, and read back from in front of anything.
read_sets-put_sets :
    (sets : List Nal)
    → All IsParameterSet sets
    → (out : Bytes) × (put_sets sets ≡ ok out)
      × ((rest : Bytes) (pos : ℕ)
          → (pos' : ℕ) × (read_sets (length sets) (before (out ++ rest) pos)
              ≡ ok (sets, before rest pos')))
unfolding read_sets put_sets
read_sets-put_sets [] hs = ([], refl, λ rest pos. (pos, refl))
read_sets-put_sets (set ∷ sets) (h, hs) =
    let (others, e, back) = read_sets-put_sets sets hs in
    let size = to_be 2 (length set.contents) in
    (
      (size ++ set.contents) ++ others,
      rw (put_set set h, e) refl,
      λ rest pos.
          let (pos', e') = back rest (pos + 2 + length set.contents) in
          let behind = set.contents ++ (others ++ rest) in
          (
            pos',
            rw
                (
                  append_assoc (size ++ set.contents) others rest,
                  append_assoc size set.contents (others ++ rest),
                  number_of-to_be 2 (length set.contents) behind pos (omega arith),
                  read_set-append set (others ++ rest) (pos + 2) h,
                  e',
                )
                refl,
          ),
    )

-- What a record can say: a width of 1 to 4, at most 31 sequence and 255 picture parameter sets and one
-- of each at least, the first of which has its profile and level.
pub record IsRecordable (config : AvcConfig) : Type 0 where
  pub width : (1 ≤ config.nal_length_size) × (config.nal_length_size ≤ 4)
  pub sps_count : (0 < length config.parameters.sps) × (length config.parameters.sps < 32)
  pub pps_count : (0 < length config.parameters.pps) × (length config.parameters.pps < 256)
  pub sps_fit : All IsParameterSet config.parameters.sps
  pub pps_fit : All IsParameterSet config.parameters.pps
  pub level : (bs : Bytes) × (length bs ≡ 3) × (profile_level config.parameters ≡ ok bs)

width_bits : (w : ℕ) → w < 4 → bit_or 0xfc w ≡ 0xfc + w
unfolding agree_below
width_bits = agree_below→eq _ _ 4 refl

count_bits : (n : ℕ) → n < 32 → bit_or 0xe0 n ≡ 0xe0 + n
unfolding agree_below
count_bits = agree_below→eq _ _ 32 refl

byte_first :
    (b : ℕ) (rest : Bytes) (pos : ℕ)
    → number_of 1 (before (b ∷ rest) pos) ≡ ok (b, before rest (pos + 1))
unfolding number_of need index_range advance from_be
byte_first b rest pos = ground arith

parameter_sets-put_sets :
    (mask count : ℕ) (sets : List Nal) (out rest : Bytes) (pos : ℕ)
    → count % mask ≡ length sets
    → ((rest : Bytes) (pos : ℕ)
        → (pos' : ℕ) × (read_sets (length sets) (before (out ++ rest) pos)
            ≡ ok (sets, before rest pos')))
    → (pos' : ℕ) × (parameter_sets mask (before (count ∷ out ++ rest) pos)
        ≡ ok (sets, before rest pos'))
unfolding parameter_sets
parameter_sets-put_sets mask count sets out rest pos h back =
    let (pos', e) = back rest (pos + 1) in
    (pos', rw (byte_first count (out ++ rest) pos, h, e) refl)

not_empty : {A : Type 0} (xs : List A) → 0 < length xs → is_empty xs ≡ false
not_empty [] h = absurd (omega arith)
not_empty (x ∷ xs) h = refl

skip_level :
    (level rest : Bytes) (pos : ℕ)
    → length level ≡ 3
    → skip 3 (before (level ++ rest) pos) ≡ ok (before rest (pos + 3))
unfolding skip need advance
skip_level level rest pos h =
    rw
      (
        ge→ltb (length (level ++ rest)) 3 (omega (arith, length-append level rest)),
        drop-append 3 level rest (sym h),
      )
      refl

-- A configuration that a record can say is written, and the record reads back as the same.
pub parse-to_bytes :
    (config : AvcConfig)
    → IsRecordable config
    → (out : Bytes) × (to_bytes config ≡ ok out) × (parse out ≡ ok config)
unfolding to_bytes put_width parse parse_fields check_sets
parse-to_bytes config v =
    let (sps, e, back) = read_sets-put_sets config.parameters.sps v.sps_fit in
    let (pps, e', back') = read_sets-put_sets config.parameters.pps v.pps_fit in
    let (level, three, leveled) = v.level in
    let width = bit_or 0xfc (config.nal_length_size % 256 - 1) in
    let counted = bit_or 0xe0 (length config.parameters.sps % 32) in
    let pictures = length config.parameters.pps % 256 in
    let behind = pictures ∷ pps in
    let w = width_bits (config.nal_length_size % 256 - 1) (omega (arith, v.width)) in
    let c = count_bits (length config.parameters.sps % 32) (omega arith) in
    let (pos₁, f) =
      parameter_sets-put_sets 32 counted config.parameters.sps sps behind 5
        (omega (arith, c, v.sps_count)) back in
    let (pos₂, f') =
      parameter_sets-put_sets 256 pictures config.parameters.pps pps [] pos₁
        (omega (arith, v.pps_count)) back' in
    let widened : width % 4 + 1 ≡ config.nal_length_size = omega (arith, w, v.width) in
    (
      1 ∷ (level ++ width ∷ counted ∷ (sps ++ behind)),
      rw (leveled, ne→eqb (config.nal_length_size % 256) 0 (λ z. omega (arith, v.width)), e, e')
          refl,
      rw
          (
            byte_first 1 (level ++ width ∷ counted ∷ (sps ++ behind)) 0,
            skip_level level (width ∷ counted ∷ (sps ++ behind)) 1 three,
            byte_first width (counted ∷ (sps ++ behind)) 4,
            f,
            rw (append-nil pps) at f',
            not_empty config.parameters.sps v.sps_count.0,
            not_empty config.parameters.pps v.pps_count.0,
            widened,
          )
          refl,
    )
