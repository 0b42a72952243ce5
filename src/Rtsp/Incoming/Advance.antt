-- ===== src/Rtsp/Incoming/Advance.antt =====
-- What `read` of src/rtsp/message.rs consumes.
use relaybay.Base.{ℕ, ◌+◌, ◌^◌, ◌≤◌, ◌<◌, ◌≡◌, refl, arith, ltb, eqb}
use relaybay.Base.{
  List, Option, none, some, [], ◌∷◌, Bytes, length, take, drop, length-drop, Option-cases, inl, inr,
  le_or_lt, lt→ltb, ge→ltb, from_be,
}
use relaybay.Base.Outcome.{ok, ◌>>=◌, Ensures, returns, fails, Ensures->>=, Ensures-if}
use relaybay.Text.{find, find-le, beq, codes, parse, trim, split, split_whitespace}
use relaybay.Text.Utf8.{is_utf8}
use relaybay.Rtsp.Message.{Headers, get_header, crlf}
use relaybay.Rtsp.Incoming.{
  Incoming, Head, read_interleaved, read_request, take_request, take_body, parse_head, parse_lines,
  request_line, parse_headers, header_line, content_length, number_of, read, blank_line, max_head,
  max_body, is_alphabetic,
}

-- A message takes bytes, and waiting for one takes none.
unfoldable pub IsTaken : Bytes → Option Incoming × Bytes → Type 0
IsTaken buf (none, rest) = rest ≡ buf
IsTaken buf (some found, rest) = length rest < length buf

take_body-IsTaken :
    (end : ℕ) (buf : Bytes) (head : Head)
    → end + 4 ≤ length buf
    → Ensures (IsTaken buf) (take_body (end + 4) buf head)
unfolding take_body IsTaken
take_body-IsTaken end buf head h = elim (le_or_lt (end + 4 + head.count) (length buf)) [
  | inl whole ↦ rw (ge→ltb (length buf) (end + 4 + head.count) whole) (
      returns
        (omega (arith, length-drop (end + 4) buf, length-drop head.count (drop (end + 4) buf))))
  | inr short ↦ rw (lt→ltb (length buf) (end + 4 + head.count) short) (returns refl)
]

request_line-Ensures :
    (line : Bytes) (words : List Bytes) → Ensures (λ w. Unit {0}) (request_line line words)
unfolding request_line
request_line-Ensures line [] = fails
request_line-Ensures line (method ∷ []) = fails
request_line-Ensures line (method ∷ uri ∷ []) = fails
request_line-Ensures line (method ∷ uri ∷ version ∷ words) =
    Ensures-if (beq version (codes "RTSP/1.0")) (λ e. returns tt) (λ e. fails)

header_line-Ensures :
    (line : Bytes) (headers : Headers) (cut : Option (Bytes × Bytes))
    → Ensures (λ h. Unit {0}) (header_line line headers cut)
unfolding header_line
header_line-Ensures line headers none = fails
header_line-Ensures line headers (some (name, value)) = returns tt

parse_headers-Ensures :
    (headers : Headers) (lines : List Bytes) → Ensures (λ h. Unit {0}) (parse_headers headers lines)
unfolding parse_headers
parse_headers-Ensures headers [] = returns tt
parse_headers-Ensures headers (line ∷ lines) =
    Ensures->>= (header_line-Ensures line headers _) λ pushed h. parse_headers-Ensures pushed lines

number_of-Ensures :
    (stated : Bytes) (count : Option ℕ) → Ensures (λ n. n ≤ max_body) (number_of stated count)
unfolding number_of
number_of-Ensures stated none = fails
number_of-Ensures stated (some count) =
    Ensures-if (ltb max_body count) (λ e. fails) (λ e. returns (ground arith))

content_length-Ensures :
    (stated : Option Bytes) → Ensures (λ n. n ≤ max_body) (content_length stated)
unfolding content_length
content_length-Ensures none = returns (omega arith)
content_length-Ensures (some stated) = number_of-Ensures stated (parse (2 ^ 64) (trim stated))

counted-Ensures :
    (method uri : Bytes) (headers : Headers)
    → Ensures
        (λ (head : Head). head.count ≤ max_body)
        (do
          count ← content_length (get_header (codes "Content-Length") headers)
          ok (record { method = method; uri = uri; headers = headers; count = count }))
counted-Ensures method uri headers =
    Ensures->>= (content_length-Ensures (get_header (codes "Content-Length") headers))
      λ count few. returns few

headers-Ensures :
    (method uri : Bytes) (lines : List Bytes)
    → Ensures
        (λ (head : Head). head.count ≤ max_body)
        (do
          headers ← parse_headers [] lines
          count ← content_length (get_header (codes "Content-Length") headers)
          ok (record { method = method; uri = uri; headers = headers; count = count }))
headers-Ensures method uri lines =
    Ensures->>= (parse_headers-Ensures [] lines) λ headers h. counted-Ensures method uri headers

parse_lines-Ensures :
    (lines : List Bytes) → Ensures (λ (head : Head). head.count ≤ max_body) (parse_lines lines)
unfolding parse_lines
parse_lines-Ensures [] = fails
parse_lines-Ensures (line ∷ lines) =
    Ensures->>= (request_line-Ensures line (split_whitespace line))
      λ words h. headers-Ensures words.0 words.1 lines

pub parse_head-Ensures :
    (head : Bytes) → Ensures (λ (head : Head). head.count ≤ max_body) (parse_head head)
unfolding parse_head
parse_head-Ensures head =
    Ensures-if (is_utf8 head) (λ e. parse_lines-Ensures (split crlf head)) (λ e. fails)

read_request-IsTaken : (buf : Bytes) → Ensures (IsTaken buf) (read_request buf)
unfolding read_request take_request IsTaken
read_request-IsTaken buf = elim (Option-cases (find blank_line buf)) [
  | inl nothing ↦
      rw nothing (Ensures-if (ltb max_head (length buf)) (λ e. fails) (λ e. returns refl))
  | inr (end, at) ↦ rw at (
      Ensures->>= (parse_head-Ensures (take end buf))
        λ head few. take_body-IsTaken end buf head (find-le blank_line buf end at))
]

read_interleaved-IsTaken : (buf : Bytes) → Ensures (IsTaken buf) (read_interleaved buf)
unfolding read_interleaved IsTaken
read_interleaved-IsTaken [] = returns refl
read_interleaved-IsTaken (a ∷ []) = returns refl
read_interleaved-IsTaken (a ∷ b ∷ []) = returns refl
read_interleaved-IsTaken (a ∷ b ∷ c ∷ []) = returns refl
read_interleaved-IsTaken (a ∷ b ∷ c ∷ d ∷ rest) =
    Ensures-if (ltb (length (a ∷ b ∷ c ∷ d ∷ rest)) (4 + from_be (c ∷ d ∷ []))) (λ e. returns refl)
      λ e. returns (omega (arith, length-drop (from_be (c ∷ d ∷ [])) rest))

-- On any bytes `read` ends without a panic: it returns a message and leaves less, or waits and leaves
-- the buffer as it was, or says what is wrong.
pub read-IsTaken : (buf : Bytes) → Ensures (IsTaken buf) (read buf)
unfolding read IsTaken
read-IsTaken [] = returns refl
read-IsTaken (first ∷ bytes) =
    Ensures-if (eqb first b'$') (λ e. read_interleaved-IsTaken (first ∷ bytes))
      λ e. Ensures-if (is_alphabetic first) (λ e'. read_request-IsTaken (first ∷ bytes)) λ e'. fails
