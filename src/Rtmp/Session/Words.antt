-- ===== src/Rtmp/Session/Words.antt =====
-- The words of src/rtmp/session.rs, as bytes.
use relaybay.Base.{[], ◌∷◌, Bytes}

abbrev pub underscore_result : Bytes
underscore_result = b'_' ∷ b'r' ∷ b'e' ∷ b's' ∷ b'u' ∷ b'l' ∷ b't' ∷ []

abbrev pub on_status_name : Bytes
on_status_name = b'o' ∷ b'n' ∷ b'S' ∷ b't' ∷ b'a' ∷ b't' ∷ b'u' ∷ b's' ∷ []

abbrev pub level_key : Bytes
level_key = b'l' ∷ b'e' ∷ b'v' ∷ b'e' ∷ b'l' ∷ []

abbrev pub status_word : Bytes
status_word = b's' ∷ b't' ∷ b'a' ∷ b't' ∷ b'u' ∷ b's' ∷ []

abbrev pub code_key : Bytes
code_key = b'c' ∷ b'o' ∷ b'd' ∷ b'e' ∷ []

abbrev pub description_key : Bytes
description_key = b'd' ∷ b'e' ∷ b's' ∷ b'c' ∷ b'r' ∷ b'i' ∷ b'p' ∷ b't' ∷ b'i' ∷ b'o' ∷ b'n' ∷ []

abbrev pub app_key : Bytes
app_key = b'a' ∷ b'p' ∷ b'p' ∷ []

abbrev pub fms_ver_key : Bytes
fms_ver_key = b'f' ∷ b'm' ∷ b's' ∷ b'V' ∷ b'e' ∷ b'r' ∷ []

abbrev pub fms_ver : Bytes
fms_ver =
    b'F' ∷ b'M' ∷ b'S' ∷ b'/' ∷ b'3' ∷ b',' ∷ b'0' ∷ b',' ∷ b'1' ∷ b',' ∷ b'1' ∷ b'2' ∷ b'3' ∷ []

abbrev pub capabilities_key : Bytes
capabilities_key =
    b'c' ∷ b'a' ∷ b'p' ∷ b'a' ∷ b'b' ∷ b'i' ∷ b'l' ∷ b'i' ∷ b't' ∷ b'i' ∷ b'e' ∷ b's' ∷ []

abbrev pub connect_code : Bytes
connect_code =
    b'N' ∷ b'e' ∷ b't' ∷ b'C' ∷ b'o' ∷ b'n' ∷ b'n' ∷ b'e' ∷ b'c' ∷ b't' ∷ b'i' ∷ b'o' ∷ b'n' ∷ b'.'
    ∷ b'C' ∷ b'o' ∷ b'n' ∷ b'n' ∷ b'e' ∷ b'c' ∷ b't' ∷ b'.' ∷ b'S' ∷ b'u' ∷ b'c' ∷ b'c' ∷ b'e'
    ∷ b's' ∷ b's' ∷ []

abbrev pub connect_text : Bytes
connect_text =
    b'C' ∷ b'o' ∷ b'n' ∷ b'n' ∷ b'e' ∷ b'c' ∷ b't' ∷ b'i' ∷ b'o' ∷ b'n' ∷ b' ' ∷ b's' ∷ b'u' ∷ b'c'
    ∷ b'c' ∷ b'e' ∷ b'e' ∷ b'd' ∷ b'e' ∷ b'd' ∷ b'.' ∷ []

abbrev pub object_encoding_key : Bytes
object_encoding_key =
    b'o' ∷ b'b' ∷ b'j' ∷ b'e' ∷ b'c' ∷ b't' ∷ b'E' ∷ b'n' ∷ b'c' ∷ b'o' ∷ b'd' ∷ b'i' ∷ b'n' ∷ b'g'
    ∷ []

abbrev pub publish_code : Bytes
publish_code =
    b'N' ∷ b'e' ∷ b't' ∷ b'S' ∷ b't' ∷ b'r' ∷ b'e' ∷ b'a' ∷ b'm' ∷ b'.' ∷ b'P' ∷ b'u' ∷ b'b' ∷ b'l'
    ∷ b'i' ∷ b's' ∷ b'h' ∷ b'.' ∷ b'S' ∷ b't' ∷ b'a' ∷ b'r' ∷ b't' ∷ []

abbrev pub publish_text : Bytes
publish_text = b'P' ∷ b'u' ∷ b'b' ∷ b'l' ∷ b'i' ∷ b's' ∷ b'h' ∷ b'i' ∷ b'n' ∷ b'g' ∷ b'.' ∷ []

abbrev pub details_key : Bytes
details_key = b'd' ∷ b'e' ∷ b't' ∷ b'a' ∷ b'i' ∷ b'l' ∷ b's' ∷ []

abbrev pub connect_name : Bytes
connect_name = b'c' ∷ b'o' ∷ b'n' ∷ b'n' ∷ b'e' ∷ b'c' ∷ b't' ∷ []

abbrev pub create_stream_name : Bytes
create_stream_name =
    b'c' ∷ b'r' ∷ b'e' ∷ b'a' ∷ b't' ∷ b'e' ∷ b'S' ∷ b't' ∷ b'r' ∷ b'e' ∷ b'a' ∷ b'm' ∷ []

abbrev pub publish_name : Bytes
publish_name = b'p' ∷ b'u' ∷ b'b' ∷ b'l' ∷ b'i' ∷ b's' ∷ b'h' ∷ []

abbrev pub delete_stream_name : Bytes
delete_stream_name =
    b'd' ∷ b'e' ∷ b'l' ∷ b'e' ∷ b't' ∷ b'e' ∷ b'S' ∷ b't' ∷ b'r' ∷ b'e' ∷ b'a' ∷ b'm' ∷ []

abbrev pub close_stream_name : Bytes
close_stream_name = b'c' ∷ b'l' ∷ b'o' ∷ b's' ∷ b'e' ∷ b'S' ∷ b't' ∷ b'r' ∷ b'e' ∷ b'a' ∷ b'm' ∷ []

abbrev pub fc_unpublish_name : Bytes
fc_unpublish_name = b'F' ∷ b'C' ∷ b'U' ∷ b'n' ∷ b'p' ∷ b'u' ∷ b'b' ∷ b'l' ∷ b'i' ∷ b's' ∷ b'h' ∷ []
