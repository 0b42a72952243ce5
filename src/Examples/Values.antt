-- ===== src/Examples/Values.antt =====
-- Runs of src/rtmp/amf0.rs on a command of the kind that an encoder sends.
use relaybay.Base.{◌≡◌, refl, Bool, true, ltb, ◌&&◌, [], ◌∷◌, Bytes, arith, All, IsByte, from_be}
use relaybay.Base.Outcome.{ok, Ensures}
use relaybay.Rtmp.Amf0.Types.{
  Values, number, boolean, string, object, strict_array, null, no_values, item, no_properties,
  property, marker_of, count_values,
}
use relaybay.Rtmp.Amf0.Reader.{
  read_all, read_until_end, read_value, number_of, bytes, read_body, nested, read_string,
  check_utf8, close_object,
}
use relaybay.Rtmp.Amf0.Writer.{write_all}
use relaybay.Rtmp.Amf0.Fits.{FitsValues, FitsValue}
use relaybay.Rtmp.Amf0.RoundTrip.{read_all-write_all}
use relaybay.Rtmp.Amf0.Total.{read_all-FitsValues, read_all-write_all-read_all}

-- A test of texts that ASCII passes.
abbrev is_ascii : Bytes → Bool
is_ascii [] = true
is_ascii (b ∷ bs) = ltb b 128 && is_ascii bs

-- `connect`, with the transaction and an object that holds the name of the application.
abbrev command : Values
command = item (string (0x63 ∷ 0x6f ∷ [])) (
    item (number 0x3ff0_0000_0000_0000) (
      item (object (property (0x61 ∷ []) (strict_array (item null no_values)) no_properties))
        no_values))

command-FitsValues : FitsValues is_ascii 0 command
unfolding FitsValue count_values
command-FitsValues =
    let members : FitsValue is_ascii 1 (strict_array (item null no_values)) =
      (omega arith, omega arith, (tt, tt)) in
    (
      (refl, omega arith),
      (omega arith, ((omega arith, (refl, omega arith, omega arith, members, tt)), tt)),
    )

read_all-write_all_example :
    (out : Bytes) × (write_all command ≡ ok out) × (read_all is_ascii out ≡ ok command)
read_all-write_all_example = read_all-write_all is_ascii command command-FitsValues

-- An object with a Boolean that is written as 7.
abbrev payload : Bytes
payload = 0x03 ∷ 0 ∷ 1 ∷ 0x61 ∷ 0x01 ∷ 7 ∷ 0 ∷ 0 ∷ 0x09 ∷ []

payload-clean : All IsByte payload
payload-clean = ground arith

read_all-FitsValues_example : Ensures (FitsValues is_ascii 0) (read_all is_ascii payload)
read_all-FitsValues_example = read_all-FitsValues is_ascii payload payload-clean

abbrev read_of_payload : Values
read_of_payload = item (object (property (0x61 ∷ []) (boolean true) no_properties)) no_values

payload-read : read_all is_ascii payload ≡ ok read_of_payload
unfolding read_all read_until_end read_value number_of bytes read_body marker_of from_be nested
    read_string check_utf8 close_object
payload-read = refl

read_all-write_all-read_all_example :
    (out : Bytes) × (write_all read_of_payload ≡ ok out)
    × (read_all is_ascii out ≡ ok read_of_payload)
read_all-write_all-read_all_example =
    read_all-write_all-read_all is_ascii payload read_of_payload payload-clean payload-read
