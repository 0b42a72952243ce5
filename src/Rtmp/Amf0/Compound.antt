-- ===== src/Rtmp/Amf0/Compound.antt =====
-- Values of src/rtmp/amf0.rs that hold others, and their members, written and read back.
use relaybay.Base.{ℕ, zero, suc, ◌+◌, ◌-◌, ◌%◌, ◌^◌, ◌<◌, ◌≡◌, refl, ap, ◌∙◌, Bool, true}
use relaybay.Base.{[], ◌∷◌, ◌++◌, Bytes, length, to_be, arith, gt→leb, ne→eqb}
use relaybay.Base.{length-append, length-to_be, append_assoc, ge→ltb}
use relaybay.Base.Outcome
use relaybay.Base.Outcome.{Outcome, ok, err}
use relaybay.Rtmp.Amf0.Types.{
  marker_of, Value, Values, Properties, object, ecma_array, strict_array, no_values, item,
  no_properties, property, max_depth, count_values, count_properties,
}
use relaybay.Rtmp.Amf0.Reader.{
  Reader, Reads, number_of, nested, close_object, read_body, read_value, read_values,
  read_properties,
}
use relaybay.Rtmp.Amf0.Writer.{put_key, write}
use relaybay.Rtmp.Amf0.Scalars.{
  WrittenValue, WrittenValues, WrittenProperties, from_body, number_of_one,
}
use relaybay.Rtmp.Amf0.Fits.{before, number_of-to_be, read_string-append}

module _ (is_utf8 : Bytes → Bool) where
  nested-before :
      {A : Type 0} (depth : ℕ) (read : Reads A) (out rest : Bytes) (pos : ℕ) (a : A)
      → depth < max_depth
      → read (before (depth + 1) (out ++ rest) pos)
        ≡ ok (a, before (depth + 1) rest (pos + length out))
      → nested read (before depth (out ++ rest) pos) ≡ ok (a, before depth rest (pos + length out))
  unfolding nested
  nested-before depth read out rest pos a h e =
      rw (gt→leb max_depth depth h, e)
        (ap (λ d. ok (a, before d rest (pos + length out))) (omega arith))

  pub written_object :
      (depth : ℕ) (ps : Properties)
      → depth < max_depth
      → WrittenProperties is_utf8 (depth + 1) ps
      → WrittenValue is_utf8 depth (object ps)
  unfolding write read_body marker_of
  written_object depth ps h (inner, e, back) = (
    0x03 ∷ inner,
    rw e,
    omega arith,
    from_body is_utf8 depth 0x03 inner (object ps) (λ rest pos fuel enough. rw (
        nested-before depth (read_properties is_utf8 fuel) inner rest (pos + 1) ps h
          (back rest (pos + 1) fuel enough))),
  )

  -- The same behind a count.
  counted :
      {A : Type 0} (depth count fuel : ℕ) (read : ℕ → Reads A) (make : A → Value)
      (inner rest : Bytes) (pos : ℕ) (a : A)
      → depth < max_depth
      → count < 2 ^ 32
      → read count (before (depth + 1) (inner ++ rest) (pos + 4))
        ≡ ok (a, before (depth + 1) rest (pos + 4 + length inner))
      → Outcome.◌>>=◌ {Q = Value × Reader}
          (number_of 4 (before depth ((to_be 4 count ++ inner) ++ rest) pos))
          (λ (n, r).
            Outcome.◌>>=◌ {Q = Value × Reader} (nested (read n) r) (λ (x, r'). ok (make x, r')))
        ≡ ok (make a, before depth rest (pos + length (to_be 4 count ++ inner)))
  counted depth count fuel read make inner rest pos a h hc e =
      rw
        (
          append_assoc,
          number_of-to_be depth 4 count (inner ++ rest) pos (omega arith),
          nested-before depth (read count) inner rest (pos + 4) a h e,
        )
        (ap (λ p. ok (make a, before depth rest p))
          (omega (arith, length-append (to_be 4 count) inner, length-to_be 4 count)))

  pub written_ecma_array :
      (depth : ℕ) (ps : Properties)
      → depth < max_depth
      → WrittenProperties is_utf8 (depth + 1) ps
      → WrittenValue is_utf8 depth (ecma_array ps)
  unfolding write read_body marker_of
  written_ecma_array depth ps h (inner, e, back) =
      let count = count_properties ps % 2 ^ 32 in
      (
        0x08 ∷ (to_be 4 count ++ inner),
        rw e,
        omega arith,
        from_body is_utf8 depth 0x08 (to_be 4 count ++ inner) (ecma_array ps)
            (λ rest pos fuel enough.
              counted depth count fuel (λ _. read_properties is_utf8 fuel) ecma_array inner rest
                (pos + 1) ps h (omega arith)
                (back rest (pos + 1 + 4) fuel
                  (omega (arith, length-append (to_be 4 count) inner)))),
      )

  pub written_strict_array :
      (depth : ℕ) (vs : Values)
      → depth < max_depth
      → count_values vs < 2 ^ 32
      → WrittenValues is_utf8 (depth + 1) vs
      → WrittenValue is_utf8 depth (strict_array vs)
  unfolding write read_body marker_of
  written_strict_array depth vs h few (inner, e, back) =
      let count = count_values vs in
      let whole : count % 2 ^ 32 ≡ count = omega arith in
      (
        0x0a ∷ (to_be 4 count ++ inner),
        rw (e, whole),
        omega arith,
        from_body is_utf8 depth 0x0a (to_be 4 count ++ inner) (strict_array vs)
            (λ rest pos fuel enough.
              counted depth count fuel (read_values is_utf8 fuel) strict_array inner rest (pos + 1)
                vs h few
                (back rest (pos + 1 + 4) fuel
                  (omega (arith, length-append (to_be 4 count) inner, length-to_be 4 count)))),
      )

  read_values_none :
      (fuel : ℕ) (r : Reader) → 0 < fuel → read_values is_utf8 fuel 0 r ≡ ok (no_values, r)
  unfolding read_values
  read_values_none zero r h = absurd (omega arith)
  read_values_none (suc fuel) r h = refl

  pub written_none : (depth : ℕ) → WrittenValues is_utf8 depth no_values
  unfolding write count_values
  written_none depth = (
    [],
    refl,
    λ rest pos fuel h.
        read_values_none fuel (before depth rest pos) (omega arith)
        ∙ ap (λ p. ok (no_values, before depth rest p)) (omega arith),
  )

  read_values_item :
      (depth fuel n : ℕ) (first others rest : Bytes) (pos : ℕ) (v : Value) (vs : Values)
      → read_value is_utf8 fuel (before depth (first ++ (others ++ rest)) pos)
        ≡ ok (v, before depth (others ++ rest) (pos + length first))
      → read_values is_utf8 fuel n (before depth (others ++ rest) (pos + length first))
        ≡ ok (vs, before depth rest (pos + length first + length others))
      → read_values is_utf8 (suc fuel) (suc n) (before depth ((first ++ others) ++ rest) pos)
        ≡ ok (item v vs, before depth rest (pos + length (first ++ others)))
  unfolding read_values
  read_values_item depth fuel n first others rest pos v vs e e' =
      let less : suc n - 1 ≡ n = omega arith in
      rw (append_assoc, ne→eqb (suc n) 0 (λ x. omega arith), e, less, e')
        (ap (λ p. ok (item v vs, before depth rest p)) (omega (arith, length-append first others)))

  pub written_item :
      (depth : ℕ) (v : Value) (vs : Values)
      → WrittenValue is_utf8 depth v
      → WrittenValues is_utf8 depth vs
      → WrittenValues is_utf8 depth (item v vs)
  unfolding write count_values
  written_item depth v vs (first, e, some_bytes, back) (others, e', back') = (
    first ++ others,
    rw (e, e'),
    λ rest pos fuel enough.
        let more : fuel ≡ suc (fuel - 1) = omega arith in
        let sizes = length-append first others in
        rw more (
          read_values_item depth (fuel - 1) (count_values vs) first others rest pos v vs
            (back (others ++ rest) pos (fuel - 1) (omega arith))
            (back' rest (pos + length first) (fuel - 1) (omega arith))),
  )

  put_key_lem :
      (key : Bytes)
      → 0 < length key
      → length key < 2 ^ 16
      → put_key key ≡ ok (to_be 2 (length key) ++ key)
  unfolding put_key
  put_key_lem key lo hi =
      rw (ne→eqb (length key) 0 (λ x. omega arith), ge→ltb (2 ^ 16 - 1) (length key) (omega arith))

  read_end :
      (depth fuel : ℕ) (rest : Bytes) (pos : ℕ)
      → read_properties is_utf8 (suc fuel) (before depth (0 ∷ 0 ∷ 0x09 ∷ rest) pos)
        ≡ ok (no_properties, before depth rest (pos + 3))
  unfolding read_properties close_object to_be
  read_end depth fuel rest pos =
      rw
        (
          number_of-to_be depth 2 0 (0x09 ∷ rest) pos (omega arith),
          number_of_one is_utf8 depth 0x09 rest (pos + 2),
        )
        (ap (λ p. ok (no_properties, before depth rest p)) (omega arith))

  pub written_end : (depth : ℕ) → WrittenProperties is_utf8 depth no_properties
  unfolding write
  written_end depth = (
    0 ∷ 0 ∷ 0x09 ∷ [],
    refl,
    λ rest pos fuel enough.
        let more : fuel ≡ suc (fuel - 1) = omega arith in
        rw more (read_end depth (fuel - 1) rest pos),
  )

  read_property :
      (depth fuel : ℕ) (key first others rest : Bytes) (pos : ℕ) (v : Value) (ps : Properties)
      → is_utf8 key ≡ true
      → 0 < length key
      → length key < 2 ^ 16
      → read_value is_utf8 fuel (before depth (first ++ (others ++ rest)) (pos + 2 + length key))
        ≡ ok (v, before depth (others ++ rest) (pos + 2 + length key + length first))
      → read_properties is_utf8 fuel
          (before depth (others ++ rest) (pos + 2 + length key + length first))
        ≡ ok (ps, before depth rest (pos + 2 + length key + length first + length others))
      → let out = (to_be 2 (length key) ++ key) ++ (first ++ others) in
        read_properties is_utf8 (suc fuel) (before depth (out ++ rest) pos)
        ≡ ok (property key v ps, before depth rest (pos + length out))
  unfolding read_properties
  read_property depth fuel key first others rest pos v ps valid lo hi e e' =
      rw
        (
          append_assoc,
          append_assoc,
          append_assoc,
          number_of-to_be depth 2 (length key) (key ++ (first ++ (others ++ rest))) pos
              (omega arith),
          ne→eqb (length key) 0 (λ x. omega arith),
          read_string-append is_utf8 depth key (first ++ (others ++ rest)) (pos + 2) (length key)
              valid refl,
          e,
          e',
        )
        (ap (λ p. ok (property key v ps, before depth rest p))
          (omega (
            arith,
            length-append (to_be 2 (length key) ++ key) (first ++ others),
            length-append (to_be 2 (length key)) key,
            length-append first others,
            length-to_be 2 (length key),
          )))

  pub written_property :
      (depth : ℕ) (key : Bytes) (v : Value) (ps : Properties)
      → is_utf8 key ≡ true
      → 0 < length key
      → length key < 2 ^ 16
      → WrittenValue is_utf8 depth v
      → WrittenProperties is_utf8 depth ps
      → WrittenProperties is_utf8 depth (property key v ps)
  unfolding write
  written_property depth key v ps valid lo hi (first, e, some_bytes, back) (others, e', back') = (
    (to_be 2 (length key) ++ key) ++ (first ++ others),
    rw (put_key_lem key lo hi, e, e'),
    λ rest pos fuel enough.
        let more : fuel ≡ suc (fuel - 1) = omega arith in
        let sizes = length-append (to_be 2 (length key) ++ key) (first ++ others) in
        let inner = length-append first others in
        let named = length-append (to_be 2 (length key)) key in
        rw more (
          read_property depth (fuel - 1) key first others rest pos v ps valid lo hi
            (back (others ++ rest) (pos + 2 + length key) (fuel - 1) (omega arith))
            (back' rest (pos + 2 + length key + length first) (fuel - 1) (omega arith))),
  )
