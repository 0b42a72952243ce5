-- ===== src/Rtsp/Incoming.antt =====
-- src/rtsp/message.rs: what arrives on the connection.
pub mod Settled
pub mod Advance
pub mod Lines
pub mod Written
pub mod RoundTrip
use relaybay.Base.{ℕ, ◌+◌, ◌-◌, ◌*◌, ◌^◌, Bool, leb, ltb, eqb, ◌&&◌, ◌||◌, if◌then◌else◌}
use relaybay.Base.{Option, none, some, List, [], ◌∷◌, ◌++◌, length, take, drop, Bytes}
use relaybay.Base.{from_be, to_be}
use relaybay.Base.Outcome.{Outcome, err, ok, ◌>>=◌}
use relaybay.Text.{codes, beq, find, split, split_once, split_whitespace, trim, parse}
use relaybay.Text.Utf8.{is_utf8}
use relaybay.Rtsp.Message.{Request, Headers, get_header, push_header, parse_method, crlf}

abbrev pub max_head : ℕ
max_head = 8 * 1024

abbrev pub max_body : ℕ
max_body = 64 * 1024

pub data Incoming : Type 0 where
  request : Request → Incoming
  interleaved : ℕ → Bytes → Incoming

pub data Part : Type 0 where
  request_head request_body interleaved_frame : Part

pub data RtspError : Type 0 where
  malformed_request_line malformed_header unsupported_version malformed_content_length :
      Bytes → RtspError
  too_long : Part → ℕ → RtspError
  not_rtsp : RtspError

-- What was taken out of the buffer, and what the buffer holds then.
abbrev pub Taken : Type 0
Taken = Outcome RtspError (Option Incoming × Bytes)

unfoldable pub read_interleaved : Bytes → Taken
unfolding from_be
read_interleaved (dollar ∷ channel ∷ high ∷ low ∷ rest) =
    let count = from_be (high ∷ low ∷ []) in
    if ltb (length (dollar ∷ channel ∷ high ∷ low ∷ rest)) (4 + count)
    then ok (none, dollar ∷ channel ∷ high ∷ low ∷ rest)
    else ok (some (interleaved channel (take count rest)), drop count rest)
read_interleaved (dollar ∷ channel ∷ high ∷ []) = ok (none, dollar ∷ channel ∷ high ∷ [])
read_interleaved (dollar ∷ channel ∷ []) = ok (none, dollar ∷ channel ∷ [])
read_interleaved (dollar ∷ []) = ok (none, dollar ∷ [])
read_interleaved [] = ok (none, [])

-- The words of the request line.
unfoldable pub request_line : Bytes → List Bytes → Outcome RtspError (Bytes × Bytes)
unfolding beq
request_line line [] = err (malformed_request_line line)
request_line line (method ∷ []) = err (malformed_request_line line)
request_line line (method ∷ uri ∷ []) = err (malformed_request_line line)
request_line line (method ∷ uri ∷ version ∷ words) =
    if beq version (codes "RTSP/1.0") then ok (method, uri) else err (unsupported_version version)

unfoldable pub header_line : Bytes → Headers → Option (Bytes × Bytes) → Outcome RtspError Headers
unfolding push_header trim
header_line line headers none = err (malformed_header line)
header_line line headers (some (name, value)) = ok (push_header (trim name) (trim value) headers)

unfoldable pub parse_headers : Headers → List Bytes → Outcome RtspError Headers
unfolding header_line split_once
parse_headers headers [] = ok headers
parse_headers headers (line ∷ lines) = do
  pushed ← header_line line headers (split_once (codes ":") line)
  parse_headers pushed lines

unfoldable pub number_of : Bytes → Option ℕ → Outcome RtspError ℕ
number_of stated none = err (malformed_content_length stated)
number_of stated (some count) =
    if ltb max_body count then err (too_long request_body max_body) else ok count

unfoldable pub content_length : Option Bytes → Outcome RtspError ℕ
unfolding number_of parse trim
content_length none = ok 0
content_length (some stated) = number_of stated (parse (2 ^ 64) (trim stated))

pub record Head : Type 0 where
  pub method : Bytes
  pub uri : Bytes
  pub headers : Headers
  pub count : ℕ

unfoldable pub parse_lines : List Bytes → Outcome RtspError Head
unfolding request_line split_whitespace parse_headers content_length get_header
parse_lines [] = err (malformed_request_line [])
parse_lines (line ∷ lines) = do
  words ← request_line line (split_whitespace line)
  headers ← parse_headers [] lines
  count ← content_length (get_header (codes "Content-Length") headers)
  ok (record { method = words.0; uri = words.1; headers = headers; count = count })

-- The head, without the blank line that ends it.
unfoldable pub parse_head : Bytes → Outcome RtspError Head
unfolding is_utf8 parse_lines split
parse_head head = if is_utf8 head then parse_lines (split crlf head) else err not_rtsp

unfoldable pub take_body : ℕ → Bytes → Head → Taken
unfolding parse_method
take_body head_len buf head =
    let rest = drop head_len buf in
    if ltb (length buf) (head_len + head.count)
    then ok (none, buf)
    else ok (
      some (
          request (record {
            method = parse_method head.method;
            uri = head.uri;
            headers = head.headers;
            body = take head.count rest;
          })),
      drop head.count rest,
    )

unfoldable pub take_request : Bytes → Option ℕ → Taken
unfolding parse_head take_body
take_request buf none =
    if ltb max_head (length buf) then err (too_long request_head max_head) else ok (none, buf)
take_request buf (some end) = do head ← parse_head (take end buf); take_body (end + 4) buf head

abbrev pub blank_line : Bytes
blank_line = 13 ∷ 10 ∷ 13 ∷ 10 ∷ []

unfoldable pub read_request : Bytes → Taken
unfolding take_request find
read_request buf = take_request buf (find blank_line buf)

abbrev pub is_alphabetic : ℕ → Bool
is_alphabetic b = leb b'A' b && leb b b'Z' || leb b'a' b && leb b b'z'

unfoldable pub read : Bytes → Taken
unfolding read_interleaved read_request
read [] = ok (none, [])
read (first ∷ bytes) =
    let frame = read_interleaved (first ∷ bytes) in
    let asked = read_request (first ∷ bytes) in
    if eqb first b'$' then frame else if is_alphabetic first then asked else err not_rtsp

-- What `interleave` appends to the buffer.
unfoldable pub interleave : ℕ → Bytes → Outcome RtspError Bytes
unfolding to_be
interleave channel packet =
    if ltb (2 ^ 16 - 1) (length packet)
    then err (too_long interleaved_frame (2 ^ 16 - 1))
    else ok (b'$' ∷ channel ∷ (to_be 2 (length packet) ++ packet))
