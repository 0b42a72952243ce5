-- ===== src/Rtmp/Amf0/Reader.antt =====
-- `Reader` of src/rtmp/amf0.rs: bytes in, values out.
use relaybay.Base.{ℕ, zero, suc, ◌+◌, ◌-◌, ◌*◌, Bool, eqb, leb, ltb, if◌then◌else◌}
use relaybay.Base.{Bytes, length, take, drop, from_be, not, is_empty}
use relaybay.Base.Outcome
use relaybay.Base.Outcome.{Outcome, ok, err, spent}
use relaybay.Rtmp.Amf0.Types.{
  Marker, marker_of, Value, Values, Properties, number, boolean, string, object, ecma_array,
  strict_array, date, null, undefined, no_values, item, no_properties, property, Amf0Error,
  truncated, unknown_marker, unread_type, not_utf8, too_deep, unexpected_object_end, max_depth,
}

-- `rest` is `data[pos..]`.
pub record Reader : Type 0 where
  pub rest : Bytes
  pub pos : ℕ
  pub depth : ℕ

-- A method of the reader: it returns a value and the reader moved on. No caller looks at a reader
-- that has failed.
abbrev pub Reads {ℓ} : Type ℓ → Type ℓ
Reads A = Reader → Outcome Amf0Error (A × Reader)

infixl 5 ◌>>=◌ ◌>>◌
abbrev pub ◌>>=◌ {ℓ κ} : {A : Type ℓ} {B : Type κ} → Reads A → (A → Reads B) → Reads B
◌>>=◌ read next r = Outcome.◌>>=◌ (read r) (λ (a, r'). next a r')

abbrev pub ◌>>◌ {ℓ κ} : {A : Type ℓ} {B : Type κ} → Reads A → Reads B → Reads B
read >> next = read >>= λ _. next

abbrev pub return {ℓ} : {A : Type ℓ} → A → Reads A
return a r = ok (a, r)

abbrev pub fail {ℓ} : {A : Type ℓ} → Amf0Error → Reads A
fail why r = err why

unfoldable pub need : ℕ → Reads (Unit {0})
need count r =
    if ltb (length r.rest) count then err (truncated r.pos (count - length r.rest)) else ok (tt, r)

unfoldable pub advance : ℕ → Reads Bytes
advance count r = ok (take count r.rest, record r { rest = drop count r.rest; pos = r.pos + count })

unfoldable pub bytes : ℕ → Reads Bytes
unfolding need advance
bytes count = do need count; advance count

-- `u8`, `u16`, `u32` and `f64`: a number of so many bytes.
unfoldable pub number_of : ℕ → Reads ℕ
number_of width = do field ← bytes width; return (from_be field)

module _ (is_utf8 : Bytes → Bool) where
  unfoldable pub check_utf8 : ℕ → Bytes → Reads Bytes
  check_utf8 offset text = if is_utf8 text then return text else fail (not_utf8 offset)

  unfoldable pub read_string : ℕ → Reads Bytes
  read_string count r = (bytes count >>= check_utf8 r.pos) r

unfoldable pub enter : Reader → Reader
enter r = record r { depth = r.depth + 1 }

unfoldable pub leave : Reader → Reader
leave r = record r { depth = r.depth - 1 }

unfoldable pub nested : {A : Type 0} → Reads A → Reads A
unfolding enter leave
nested read r =
    if leb max_depth r.depth
    then err (too_deep max_depth)
    else Outcome.◌>>=◌ (read (enter r)) (λ (a, r'). ok (a, leave r'))

-- What stands behind an empty key: the marker that confirms the end.
unfoldable pub close_object : Reads Properties
close_object r =
    (number_of 1 >>= λ marker.
    if not (eqb marker 0x09) then fail (unknown_marker marker r.pos) else return no_properties)
      r

module _ (is_utf8 : Bytes → Bool) where
  -- `value` behind its marker, which stands at `offset`: with the ways to read what is inside.
  unfoldable pub read_body : Reads Properties → (ℕ → Reads Values) → ℕ → Marker → Reads Value
  read_body inner members offset Marker.number = do bits ← number_of 8; return (number bits)
  read_body inner members offset Marker.boolean = do
    flag ← number_of 1
    return (boolean (not (eqb flag 0)))
  read_body inner members offset Marker.string = do
    count ← number_of 2
    text ← read_string is_utf8 count
    return (string text)
  read_body inner members offset Marker.long_string = do
    count ← number_of 4
    text ← read_string is_utf8 count
    return (string text)
  read_body inner members offset Marker.object = do ps ← nested inner; return (object ps)
  read_body inner members offset Marker.ecma_array = do
    number_of 4
    ps ← nested inner
    return (ecma_array ps)
  read_body inner members offset Marker.strict_array = do
    count ← number_of 4
    vs ← nested (members count)
    return (strict_array vs)
  read_body inner members offset Marker.date = do
    millis ← number_of 8
    bytes 2
    return (date millis)
  read_body inner members offset Marker.null = return null
  read_body inner members offset Marker.undefined = return undefined
  read_body inner members offset Marker.object_end = fail (unexpected_object_end offset)
  read_body inner members offset Marker.movie_clip = fail (unread_type "a movie clip" offset)
  read_body inner members offset Marker.reference = fail (unread_type "a reference" offset)
  read_body inner members offset Marker.unsupported =
      fail (unread_type "an unsupported-type marker" offset)
  read_body inner members offset Marker.record_set = fail (unread_type "a record set" offset)
  read_body inner members offset Marker.xml_document = fail (unread_type "an XML document" offset)
  read_body inner members offset Marker.typed_object = fail (unread_type "a typed object" offset)
  read_body inner members offset Marker.avm_plus = fail (unread_type "a switch to AMF3" offset)
  read_body inner members offset (Marker.unknown marker) = fail (unknown_marker marker offset)

  -- Each call costs a unit of fuel. `read_values` is the loop `for _ in 0..count`, `read_properties` the
  -- one that an empty key ends.
  unfoldable mutual
    pub read_value : ℕ → Reads Value
    read_value zero r = spent
    read_value (suc fuel) r =
        (number_of 1 >>= λ marker.
        read_body (read_properties fuel) (read_values fuel) r.pos (marker_of marker))
          r

    pub read_values : ℕ → ℕ → Reads Values
    read_values zero count r = spent
    read_values (suc fuel) count r =
        let more =
          (do v ← read_value fuel; vs ← read_values fuel (count - 1); return (item v vs)) r in
        if eqb count 0 then ok (no_values, r) else more

    pub read_properties : ℕ → Reads Properties
    read_properties zero r = spent
    read_properties (suc fuel) r =
        (number_of 2 >>= λ count.
        (let more = (do
          key ← read_string is_utf8 count
          v ← read_value fuel
          ps ← read_properties fuel
          return (property key v ps)) in
          if eqb count 0 then close_object else more))
          r

  -- The loop of `read_all`.
  unfoldable pub read_until_end : ℕ → ℕ → Reader → Outcome Amf0Error Values
  read_until_end zero inside r = spent
  read_until_end (suc rounds) inside r =
      let more =
        Outcome.◌>>=◌ (read_value inside r)
          (λ (v, r'). Outcome.◌>>=◌ (read_until_end rounds inside r') (λ vs. ok (item v vs))) in
      if is_empty r.rest then ok no_values else more

  unfoldable pub read_all : Bytes → Outcome Amf0Error Values
  read_all payload =
      read_until_end (length payload + 1) (2 * length payload + 1)
        (record { rest = payload; pos = 0; depth = 0 })
