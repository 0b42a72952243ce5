-- ===== src/Rtmp/Amf0/Scalars.antt =====
-- Values of src/rtmp/amf0.rs that hold no others, written and read back.
use relaybay.Base.{ℕ, zero, suc, ◌+◌, ◌*◌, ◌^◌, ◌<◌, ◌≤◌, ◌≡◌, refl, ap, ◌∙◌, Bool, true}
use relaybay.Base.{if◌then◌else◌, [], ◌∷◌, ◌++◌, Bytes, length, to_be, arith}
use relaybay.Base.{length-append, length-to_be, append_assoc, lt→ltb, ge→ltb, from_be}
use relaybay.Base.{inl, inr, le_or_lt}
use relaybay.Base.Outcome.{ok}
use relaybay.Rtmp.Amf0.Types.{
  marker_of, Value, Values, Properties, number, boolean, string, date, null, undefined,
  count_values,
}
use relaybay.Rtmp.Amf0.Reader.{
  bytes, number_of, read_body, read_value, read_values, read_properties,
}
use relaybay.Rtmp.Amf0.Writer.{put_string, write, write_all, put_properties}
use relaybay.Rtmp.Amf0.Fits.{before, bytes-append, number_of-to_be, read_string-append}

module _ (is_utf8 : Bytes → Bool) where
  -- The bytes of a value, and that they read back with the fuel given, whatever follows.
  abbrev pub WrittenValue : ℕ → Value → Type 0
  WrittenValue depth v =
      (out : Bytes) × (write v ≡ ok out)
      × (0 < length out)
      × ((rest : Bytes) (pos fuel : ℕ)
          → 2 * length out < fuel
          → read_value is_utf8 fuel (before depth (out ++ rest) pos)
            ≡ ok (v, before depth rest (pos + length out)))

  abbrev pub WrittenValues : ℕ → Values → Type 0
  WrittenValues depth vs =
      (out : Bytes) × (write_all vs ≡ ok out)
      × ((rest : Bytes) (pos fuel : ℕ)
          → 2 * length out + 1 < fuel
          → read_values is_utf8 fuel (count_values vs) (before depth (out ++ rest) pos)
            ≡ ok (vs, before depth rest (pos + length out)))

  abbrev pub WrittenProperties : ℕ → Properties → Type 0
  WrittenProperties depth ps =
      (out : Bytes) × (put_properties ps ≡ ok out)
      × ((rest : Bytes) (pos fuel : ℕ)
          → 2 * length out < fuel
          → read_properties is_utf8 fuel (before depth (out ++ rest) pos)
            ≡ ok (ps, before depth rest (pos + length out)))

  pub number_of_one :
      (depth b : ℕ) (rest : Bytes) (pos : ℕ)
      → number_of 1 (before depth (b ∷ rest) pos) ≡ ok (b, before depth rest (pos + 1))
  unfolding number_of bytes from_be
  number_of_one depth b rest pos = ground arith

  -- A value reads back if it does behind its marker.
  pub from_body :
      (depth marker : ℕ) (out : Bytes) (v : Value)
      → ((rest : Bytes) (pos fuel : ℕ)
          → 2 * length out < fuel
          → read_body is_utf8
              (read_properties is_utf8 fuel)
              (read_values is_utf8 fuel)
              pos
              (marker_of marker)
              (before depth (out ++ rest) (pos + 1))
            ≡ ok (v, before depth rest (pos + 1 + length out)))
      → (rest : Bytes) (pos fuel : ℕ) → 2 * length (marker ∷ out) < fuel
      → read_value is_utf8 fuel (before depth ((marker ∷ out) ++ rest) pos)
        ≡ ok (v, before depth rest (pos + length (marker ∷ out)))
  unfolding read_value
  from_body depth marker out v body rest pos zero h = absurd (omega arith)
  from_body depth marker out v body rest pos (suc fuel) h =
      rw (number_of_one depth marker (out ++ rest) pos)
        (body rest pos fuel (omega arith) ∙ ap (λ p. ok (v, before depth rest p)) (omega arith))

  pub written_number : (depth bits : ℕ) → bits < 2 ^ 64 → WrittenValue depth (number bits)
  unfolding write read_body marker_of
  written_number depth bits h = (
    0x00 ∷ to_be 8 bits,
    refl,
    omega arith,
    from_body depth 0x00 (to_be 8 bits) (number bits) (λ rest pos fuel _.
        rw (number_of-to_be depth 8 bits rest (pos + 1) (omega arith), length-to_be 8 bits)),
  )

  pub written_boolean : (depth : ℕ) (flag : Bool) → WrittenValue depth (boolean flag)
  unfolding write read_body marker_of
  written_boolean depth flag = (
    0x01 ∷ (if flag then 1 else 0) ∷ [],
    refl,
    omega arith,
    from_body depth 0x01 ((if flag then 1 else 0) ∷ []) (boolean flag) (λ rest pos fuel _.
        rw (number_of_one depth (if flag then 1 else 0) rest (pos + 1)) (ground arith)),
  )

  pub written_date : (depth millis : ℕ) → millis < 2 ^ 64 → WrittenValue depth (date millis)
  unfolding write read_body marker_of
  written_date depth millis h = (
    0x0b ∷ (to_be 8 millis ++ 0 ∷ 0 ∷ []),
    refl,
    omega arith,
    from_body depth 0x0b _ (date millis) (λ rest pos fuel _.
        rw
          (
            append_assoc,
            number_of-to_be depth 8 millis (0 ∷ 0 ∷ rest) (pos + 1) (omega arith),
            bytes-append depth (0 ∷ 0 ∷ []) rest (pos + 1 + 8) 2 refl,
          )
          (ap (λ p. ok (date millis, before depth rest p))
            (omega (arith, length-append (to_be 8 millis) (0 ∷ 0 ∷ []), length-to_be 8 millis)))),
  )

  short_string :
      (depth : ℕ) (text : Bytes)
      → is_utf8 text ≡ true
      → length text < 2 ^ 16
      → WrittenValue depth (string text)
  unfolding write read_body marker_of put_string
  short_string depth text valid h = (
    0x02 ∷ (to_be 2 (length text) ++ text),
    rw (lt→ltb (length text) (2 ^ 16) h),
    omega arith,
    from_body depth 0x02 (to_be 2 (length text) ++ text) (string text) (λ rest pos fuel _.
        rw
          (
            append_assoc,
            number_of-to_be depth 2 (length text) (text ++ rest) (pos + 1) (omega arith),
            read_string-append is_utf8 depth text rest (pos + 1 + 2) (length text) valid refl,
          )
          (ap (λ p. ok (string text, before depth rest p))
            (omega
              (arith, length-append (to_be 2 (length text)) text, length-to_be 2 (length text))))),
  )

  long_string :
      (depth : ℕ) (text : Bytes)
      → is_utf8 text ≡ true
      → 2 ^ 16 ≤ length text
      → length text < 2 ^ 32
      → WrittenValue depth (string text)
  unfolding write read_body marker_of put_string
  long_string depth text valid lo hi = (
    0x0c ∷ (to_be 4 (length text) ++ text),
    rw (ge→ltb (length text) (2 ^ 16) lo, lt→ltb (length text) (2 ^ 32) hi),
    omega arith,
    from_body depth 0x0c (to_be 4 (length text) ++ text) (string text) (λ rest pos fuel _.
        rw
          (
            append_assoc,
            number_of-to_be depth 4 (length text) (text ++ rest) (pos + 1) (omega arith),
            read_string-append is_utf8 depth text rest (pos + 1 + 4) (length text) valid refl,
          )
          (ap (λ p. ok (string text, before depth rest p))
            (omega
              (arith, length-append (to_be 4 (length text)) text, length-to_be 4 (length text))))),
  )

  pub written_string :
      (depth : ℕ) (text : Bytes)
      → is_utf8 text ≡ true
      → length text < 2 ^ 32
      → WrittenValue depth (string text)
  written_string depth text valid h = elim (le_or_lt (2 ^ 16) (length text)) [
    | inl long ↦ long_string depth text valid long h
    | inr brief ↦ short_string depth text valid brief
  ]

  pub written_null : (depth : ℕ) → WrittenValue depth null
  unfolding write read_body marker_of
  written_null depth = (
    0x05 ∷ [],
    refl,
    omega arith,
    from_body depth 0x05 [] null
        (λ rest pos fuel _. ap (λ p. ok (null, before depth rest p)) (omega arith)),
  )

  pub written_undefined : (depth : ℕ) → WrittenValue depth undefined
  unfolding write read_body marker_of
  written_undefined depth = (
    0x06 ∷ [],
    refl,
    omega arith,
    from_body depth 0x06 [] undefined
        (λ rest pos fuel _. ap (λ p. ok (undefined, before depth rest p)) (omega arith)),
  )
