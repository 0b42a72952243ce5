-- ===== src/Rtmp/Amf0/RoundTrip.antt =====
-- Values of src/rtmp/amf0.rs of any depth, written and read back.
use relaybay.Base.{ℕ, zero, suc, ◌+◌, ◌-◌, ◌*◌, ◌<◌, ◌≡◌, refl, Bool}
use relaybay.Base.{[], ◌∷◌, ◌++◌, Bytes, length, arith}
use relaybay.Base.{length-append}
use relaybay.Base.Outcome.{ok}
use relaybay.Rtmp.Amf0.Types.{
  Value, Values, Properties, number, boolean, string, object, ecma_array, strict_array, date, null,
  undefined, no_values, item, no_properties, property,
}
use relaybay.Rtmp.Amf0.Reader.{read_value, read_until_end, read_all}
use relaybay.Rtmp.Amf0.Writer.{write, write_all}
use relaybay.Rtmp.Amf0.Scalars.{
  WrittenValue, WrittenValues, WrittenProperties, written_number, written_boolean, written_date,
  written_string, written_null, written_undefined,
}
use relaybay.Rtmp.Amf0.Compound.{
  written_object, written_ecma_array, written_strict_array, written_none, written_item, written_end,
  written_property,
}
use relaybay.Rtmp.Amf0.Fits.{FitsValue, FitsValues, FitsProperties, before}

module _ (is_utf8 : Bytes → Bool) where
  mutual
    unfolding FitsValue

    pub written_value :
        (depth : ℕ) (v : Value) → FitsValue is_utf8 depth v → WrittenValue is_utf8 depth v
    written_value depth (number bits) h = written_number is_utf8 depth bits h
    written_value depth (boolean flag) h = written_boolean is_utf8 depth flag
    written_value depth (string text) h = written_string is_utf8 depth text h.0 h.1
    written_value depth (object ps) h =
        written_object is_utf8 depth ps h.0 (written_properties (depth + 1) ps h.1)
    written_value depth (ecma_array ps) h =
        written_ecma_array is_utf8 depth ps h.0 (written_properties (depth + 1) ps h.1)
    written_value depth (strict_array vs) h =
        written_strict_array is_utf8 depth vs h.0 h.1 (written_values (depth + 1) vs h.2)
    written_value depth (date millis) h = written_date is_utf8 depth millis h
    written_value depth null h = written_null is_utf8 depth
    written_value depth undefined h = written_undefined is_utf8 depth

    written_values :
        (depth : ℕ) (vs : Values) → FitsValues is_utf8 depth vs → WrittenValues is_utf8 depth vs
    written_values depth no_values h = written_none is_utf8 depth
    written_values depth (item v vs) h =
        written_item is_utf8 depth v vs (written_value depth v h.0) (written_values depth vs h.1)

    written_properties :
        (depth : ℕ) (ps : Properties)
        → FitsProperties is_utf8 depth ps
        → WrittenProperties is_utf8 depth ps
    written_properties depth no_properties h = written_end is_utf8 depth
    written_properties depth (property key v ps) h =
        written_property is_utf8 depth key v ps h.0 h.1 h.2 (written_value depth v h.3)
          (written_properties depth ps h.4)

  read_until_end_none :
      (rounds inside pos : ℕ)
      → 0 < rounds
      → read_until_end is_utf8 rounds inside (before 0 [] pos) ≡ ok no_values
  unfolding read_until_end
  read_until_end_none zero inside pos h = absurd (omega arith)
  read_until_end_none (suc rounds) inside pos h = refl

  read_until_end_item :
      (rounds inside pos : ℕ) (first others : Bytes) (v : Value) (vs : Values)
      → 0 < length first
      → read_value is_utf8 inside (before 0 (first ++ others) pos)
        ≡ ok (v, before 0 others (pos + length first))
      → read_until_end is_utf8 rounds inside (before 0 others (pos + length first)) ≡ ok vs
      → read_until_end is_utf8 (suc rounds) inside (before 0 (first ++ others) pos) ≡ ok (item v vs)
  unfolding read_until_end
  read_until_end_item rounds inside pos [] others v vs h e e' = absurd (omega arith)
  read_until_end_item rounds inside pos (b ∷ first) others v vs h e e' = rw (e, e')

  -- The loop of `read_all` over what was written.
  read_until_end-written :
      (vs : Values)
      → FitsValues is_utf8 0 vs
      → (out : Bytes) × (write_all vs ≡ ok out)
        × ((pos rounds inside : ℕ)
            → length out < rounds
            → 2 * length out < inside
            → read_until_end is_utf8 rounds inside (before 0 out pos) ≡ ok vs)
  unfolding FitsValue write
  read_until_end-written no_values h = (
    [],
    refl,
    λ pos rounds inside enough deep. read_until_end_none rounds inside pos (omega arith),
  )
  read_until_end-written (item v vs) h =
      let (first, e, some_bytes, back) = written_value 0 v h.0 in
      let (others, e', back') = read_until_end-written vs h.1 in
      let sizes = length-append first others in
      (
        first ++ others,
        rw (e, e'),
        λ pos rounds inside enough deep.
            let more : rounds ≡ suc (rounds - 1) = omega arith in
            rw more (
              read_until_end_item (rounds - 1) inside pos first others v vs some_bytes
                (back others pos inside (omega arith))
                (back' (pos + length first) (rounds - 1) inside (omega arith) (omega arith))),
      )

  -- Values that fit are written, and `read_all` reads the same values back, in the same order.
  pub read_all-write_all :
      (vs : Values)
      → FitsValues is_utf8 0 vs
      → (out : Bytes) × (write_all vs ≡ ok out) × (read_all is_utf8 out ≡ ok vs)
  unfolding read_all
  read_all-write_all vs h =
      let (out, e, back) = read_until_end-written vs h in
      (out, e, back 0 (length out + 1) (2 * length out + 1) (omega arith) (omega arith))
