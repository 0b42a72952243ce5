-- ===== src/Rtmp/Amf0/Writer.antt =====
-- `write` of src/rtmp/amf0.rs: the bytes that a value is written as. What a call that fails has
-- appended by then is left out: no caller looks at the buffer after a failure.
use relaybay.Base.{◌-◌, ◌%◌, ◌^◌, eqb, ltb, if◌then◌else◌, [], ◌∷◌, ◌++◌, Bytes}
use relaybay.Base.{length, to_be, ◌||◌}
use relaybay.Base.Outcome.{Outcome, ok, err, ◌>>=◌}
use relaybay.Rtmp.Amf0.Types.{
  Value, Values, Properties, number, boolean, string, object, ecma_array, strict_array, date, null,
  undefined, no_values, item, no_properties, property, Amf0Error, string_too_long, unwritable_key,
  count_values, count_properties,
}

unfoldable pub put_string : Bytes → Outcome Amf0Error Bytes
put_string text =
    if ltb (length text) (2 ^ 16)
    then ok (0x02 ∷ (to_be 2 (length text) ++ text))
    else if ltb (length text) (2 ^ 32)
    then ok (0x0c ∷ (to_be 4 (length text) ++ text))
    else err (string_too_long (length text))

unfoldable pub put_key : Bytes → Outcome Amf0Error Bytes
put_key key =
    if eqb (length key) 0 || ltb (2 ^ 16 - 1) (length key)
    then err (unwritable_key (length key))
    else ok (to_be 2 (length key) ++ key)

unfoldable mutual
  pub write : Value → Outcome Amf0Error Bytes
  write (number bits) = ok (0x00 ∷ to_be 8 bits)
  write (boolean flag) = ok (0x01 ∷ (if flag then 1 else 0) ∷ [])
  write (string text) = put_string text
  write (object ps) = do inner ← put_properties ps; ok (0x03 ∷ inner)
  write (ecma_array ps) = do
    inner ← put_properties ps
    ok (0x08 ∷ (to_be 4 (count_properties ps % 2 ^ 32) ++ inner))
  write (strict_array vs) = do
    inner ← write_all vs
    ok (0x0a ∷ (to_be 4 (count_values vs % 2 ^ 32) ++ inner))
  write (date millis) = ok (0x0b ∷ (to_be 8 millis ++ 0 ∷ 0 ∷ []))
  write null = ok (0x05 ∷ [])
  write undefined = ok (0x06 ∷ [])

  -- `write_all`, and the loop inside a strict array.
  pub write_all : Values → Outcome Amf0Error Bytes
  write_all no_values = ok []
  write_all (item v vs) = do first ← write v; others ← write_all vs; ok (first ++ others)

  pub put_properties : Properties → Outcome Amf0Error Bytes
  put_properties no_properties = ok (0 ∷ 0 ∷ 0x09 ∷ [])
  put_properties (property key v ps) = do
    name ← put_key key
    first ← write v
    others ← put_properties ps
    ok (name ++ (first ++ others))
