-- ===== src/Rtsp/Message.antt =====
-- src/rtsp/message.rs: methods, statuses, headers, requests and responses. Text is its bytes.
use relaybay.Base.{if◌then◌else◌, Option, none, some, ◌>>=◌}
use relaybay.Base.{List, [], ◌∷◌, ◌++◌, length, Bytes}
use relaybay.Rtsp.Status.{Status}
use relaybay.Text.{codes, beq, same_word, split, trim, decimal}

pub data Method : Type 0 where
  options describe setup play pause teardown get_parameter set_parameter announce record_method :
      Method
  other : Bytes → Method

unfoldable pub parse_method : Bytes → Method
unfolding beq
parse_method text =
    if beq text (codes "OPTIONS")
    then options
    else if beq text (codes "DESCRIBE")
    then describe
    else if beq text (codes "SETUP")
    then setup
    else if beq text (codes "PLAY")
    then play
    else if beq text (codes "PAUSE")
    then pause
    else if beq text (codes "TEARDOWN")
    then teardown
    else if beq text (codes "GET_PARAMETER")
    then get_parameter
    else if beq text (codes "SET_PARAMETER")
    then set_parameter
    else if beq text (codes "ANNOUNCE")
    then announce
    else if beq text (codes "RECORD")
    then record_method
    else other text

unfoldable pub method_name : Method → Bytes
method_name options = codes "OPTIONS"
method_name describe = codes "DESCRIBE"
method_name setup = codes "SETUP"
method_name play = codes "PLAY"
method_name pause = codes "PAUSE"
method_name teardown = codes "TEARDOWN"
method_name get_parameter = codes "GET_PARAMETER"
method_name set_parameter = codes "SET_PARAMETER"
method_name announce = codes "ANNOUNCE"
method_name record_method = codes "RECORD"
method_name (other name) = name

-- In the order they were written.
abbrev pub Headers : Type 0
Headers = List (Bytes × Bytes)

unfoldable pub get_header : Bytes → Headers → Option Bytes
unfolding same_word
get_header name [] = none
get_header name ((header, value) ∷ headers) =
    let later = get_header name headers in if same_word header name then some value else later

unfoldable pub push_header : Bytes → Bytes → Headers → Headers
push_header name value headers = headers ++ ((name, value) ∷ [])

pub record Request : Type 0 where
  pub method : Method
  pub uri : Bytes
  pub headers : Headers
  pub body : Bytes

unfoldable pub sequence : Request → Option Bytes
unfolding get_header
sequence request = get_header (codes "CSeq") request.headers

unfoldable first_part : Bytes → List Bytes → Bytes
first_part value [] = value
first_part value (part ∷ parts) = part

-- The session a request names.
unfoldable pub session : Request → Option Bytes
unfolding get_header split first_part trim
session request = do
  value ← get_header (codes "Session") request.headers
  some (trim (first_part value (split (codes ";") value)))

pub record Response : Type 0 where
  pub status : Status
  pub headers : Headers
  pub body : Bytes

unfoldable pub response : Status → Response
response status = record { status = status; headers = []; body = [] }

unfoldable pub with_header : Bytes → Bytes → Response → Response
unfolding push_header
with_header name value r = record r { headers = push_header name value r.headers }

unfoldable pub with_body : Bytes → Bytes → Response → Response
unfolding push_header
with_body content_type body r = record r {
  body = body;
  headers = push_header (codes "Content-Type") content_type r.headers;
}

abbrev pub crlf : Bytes
crlf = 13 ∷ 10 ∷ []

unfoldable pub header_lines : Headers → Bytes
header_lines [] = []
header_lines ((name, value) ∷ headers) =
    name ++ (codes ": " ++ (value ++ (crlf ++ header_lines headers)))

unfoldable pub response_bytes : Response → Bytes
unfolding decimal header_lines
response_bytes r =
    codes "RTSP/1.0 "
    ++ (decimal r.status.code ++ (codes " " ++ (r.status.words ++ crlf)))
    ++ header_lines r.headers
    ++ (codes "Content-Length: " ++ (decimal (length r.body) ++ (crlf ++ crlf)))
    ++ r.body
