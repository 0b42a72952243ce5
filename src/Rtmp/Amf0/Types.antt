-- ===== src/Rtmp/Amf0/Types.antt =====
-- The values of src/rtmp/amf0.rs, their type markers, and what can be wrong with a payload.
use relaybay.Base.{
  ℕ, suc, Bool, true, false, [], ◌∷◌, ◌&&◌, eqb, if◌then◌else◌, Option, none, some, ◌>>=◌, Bytes,
}
use Prim.Native.String.{String}

abbrev pub max_depth : ℕ
max_depth = 32

-- The type markers, and any other byte in place of one.
pub data Marker : Type 0 where
  number boolean string object movie_clip null undefined reference ecma_array : Marker
  object_end strict_array date long_string unsupported record_set xml_document : Marker
  typed_object avm_plus : Marker
  unknown : ℕ → Marker

unfoldable pub marker_of : ℕ → Marker
marker_of b =
    if eqb b 0x00
    then Marker.number
    else if eqb b 0x01
    then Marker.boolean
    else if eqb b 0x02
    then Marker.string
    else if eqb b 0x03
    then Marker.object
    else if eqb b 0x04
    then Marker.movie_clip
    else if eqb b 0x05
    then Marker.null
    else if eqb b 0x06
    then Marker.undefined
    else if eqb b 0x07
    then Marker.reference
    else if eqb b 0x08
    then Marker.ecma_array
    else if eqb b 0x09
    then Marker.object_end
    else if eqb b 0x0a
    then Marker.strict_array
    else if eqb b 0x0b
    then Marker.date
    else if eqb b 0x0c
    then Marker.long_string
    else if eqb b 0x0d
    then Marker.unsupported
    else if eqb b 0x0e
    then Marker.record_set
    else if eqb b 0x0f
    then Marker.xml_document
    else if eqb b 0x10
    then Marker.typed_object
    else if eqb b 0x11
    then Marker.avm_plus
    else Marker.unknown b

-- An `f64` is its 64 bits, which are all that reading and writing see of it; a `String` is its bytes.
-- `Values` and `Properties` are the vectors inside a value.
mutual
  pub data Value : Type 0 where
    number : ℕ → Value
    boolean : Bool → Value
    string : Bytes → Value
    object : Properties → Value
    ecma_array : Properties → Value
    strict_array : Values → Value
    date : ℕ → Value
    null : Value
    undefined : Value

  pub data Values : Type 0 where
    no_values : Values
    item : Value → Values → Values

  pub data Properties : Type 0 where
    no_properties : Properties
    property : Bytes → Value → Properties → Properties

unfoldable pub count_values : Values → ℕ
count_values no_values = 0
count_values (item v vs) = suc (count_values vs)

unfoldable pub count_properties : Properties → ℕ
count_properties no_properties = 0
count_properties (property key v ps) = suc (count_properties ps)

unfoldable pub properties : Value → Option Properties
properties (object ps) = some ps
properties (ecma_array ps) = some ps
properties _ = none

unfoldable pub same_bytes : Bytes → Bytes → Bool
same_bytes [] [] = true
same_bytes (a ∷ xs) (b ∷ ys) = eqb a b && same_bytes xs ys
same_bytes _ _ = false

unfoldable pub find_property : Bytes → Properties → Option Value
find_property key no_properties = none
find_property key (property name v ps) =
    if same_bytes name key then some v else find_property key ps

unfoldable pub get : Value → Bytes → Option Value
get v key = properties v >>= find_property key

unfoldable pub as_str : Value → Option Bytes
as_str (string text) = some text
as_str _ = none

unfoldable pub as_f64 : Value → Option ℕ
as_f64 (number bits) = some bits
as_f64 _ = none

unfoldable pub as_bool : Value → Option Bool
as_bool (boolean flag) = some flag
as_bool _ = none

pub data Amf0Error : Type 0 where
  truncated : ℕ → ℕ → Amf0Error
  unknown_marker : ℕ → ℕ → Amf0Error
  unread_type : String → ℕ → Amf0Error
  not_utf8 : ℕ → Amf0Error
  too_deep : ℕ → Amf0Error
  unexpected_object_end : ℕ → Amf0Error
  string_too_long : ℕ → Amf0Error
  unwritable_key : ℕ → Amf0Error
