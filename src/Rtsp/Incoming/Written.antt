-- ===== src/Rtsp/Incoming/Written.antt =====
-- A request as a client writes it, and what the lines of src/rtsp/message.rs make of its head.
use relaybay.Base.{ℕ, ◌≤◌, ◌≡◌, ◌≢◌, refl, sym, ap, ◌∙◌, arith, Bool, true, false}
use relaybay.Base.{[], ◌∷◌, ◌++◌, map, Bytes, length, All}
use relaybay.Base.{All-append, All-weaken, append-nil, append_assoc, is_empty}
use relaybay.Base.Outcome.{ok}
use relaybay.Text.{codes, split_once-append, trim, trim-space}
use relaybay.Text.{Lacks, IsVisible, split_whitespace, split_whitespace-append}
use relaybay.Text.Utf8.{IsUtf8, IsUtf8→is_utf8, IsUtf8-append, IsUtf8-ascii}
use relaybay.Rtsp.Message.{
  Request, Headers, parse_method, method_name, get_header, push_header, header_lines, crlf,
}
use relaybay.Rtsp.Incoming.{
  Head, parse_head, content_length, parse_lines, parse_headers, header_line, request_line,
  is_alphabetic,
}
use relaybay.Rtsp.Incoming.Lines.{joined, line_of, IsLine, split-joined, joined-IsUtf8}

-- A header that reading leaves as it is.
pub record IsHeader (header : Bytes × Bytes) : Type 0 where
  pub name_ends : Lacks b':' header.0
  pub name_line : Lacks 13 header.0
  pub value_line : Lacks 13 header.1
  pub name_trimmed : trim header.0 ≡ header.0
  pub value_trimmed : trim header.1 ≡ header.1
  pub name_text : IsUtf8 header.0
  pub value_text : IsUtf8 header.1

unfoldable pub starts_alphabetic : Bytes → Bool
starts_alphabetic [] = false
starts_alphabetic (b ∷ bs) = is_alphabetic b

-- A request as a client writes it: a method by its own name, and a length that is the body's.
pub record IsWritten (r : Request) : Type 0 where
  pub method_known : parse_method (method_name r.method) ≡ r.method
  pub method_visible : All IsVisible (method_name r.method)
  pub method_starts : starts_alphabetic (method_name r.method) ≡ true
  pub uri_visible : All IsVisible r.uri
  pub uri_some : is_empty r.uri ≡ false
  pub headers_written : All IsHeader r.headers
  pub counted : content_length (get_header (codes "Content-Length") r.headers) ≡ ok (length r.body)

unfoldable pub request_line_of : Request → Bytes
unfolding method_name
request_line_of r = method_name r.method ++ (32 ∷ (r.uri ++ (32 ∷ codes "RTSP/1.0")))

-- A request in the syntax of RFC 2326.
unfoldable pub request_bytes : Request → Bytes
unfolding request_line_of header_lines
request_bytes r = request_line_of r ++ (crlf ++ (header_lines r.headers ++ (crlf ++ r.body)))

starts_alphabetic→some : (bs : Bytes) → starts_alphabetic bs ≡ true → is_empty bs ≡ false
unfolding starts_alphabetic
starts_alphabetic→some [] e = cc
starts_alphabetic→some (b ∷ bs) e = refl

pub starts_alphabetic-append :
    (bs more : Bytes) → starts_alphabetic bs ≡ true → starts_alphabetic (bs ++ more) ≡ true
unfolding starts_alphabetic
starts_alphabetic-append [] more e = cc
starts_alphabetic-append (b ∷ bs) more e = e

version_word : split_whitespace (codes "RTSP/1.0") ≡ codes "RTSP/1.0" ∷ []
unfolding split_whitespace
version_word = refl

split_whitespace-line :
    (r : Request)
    → IsWritten r
    → split_whitespace (request_line_of r) ≡ method_name r.method ∷ r.uri ∷ codes "RTSP/1.0" ∷ []
unfolding request_line_of
split_whitespace-line r w =
    split_whitespace-append (method_name r.method) (r.uri ++ (32 ∷ codes "RTSP/1.0"))
      w.method_visible (starts_alphabetic→some (method_name r.method) w.method_starts)
    ∙ ap (λ words. method_name r.method ∷ words)
        (split_whitespace-append r.uri (codes "RTSP/1.0") w.uri_visible w.uri_some
          ∙ ap (λ words. r.uri ∷ words) version_word)

parse_headers-written :
    (pushed headers : Headers)
    → All IsHeader headers
    → parse_headers pushed (map line_of headers) ≡ ok (pushed ++ headers)
unfolding parse_headers header_line push_header line_of
parse_headers-written pushed [] hs = ap ok (sym (append-nil pushed))
parse_headers-written pushed ((name, value) ∷ headers) (h, hs) =
    rw
      (
        split_once-append b':' [] name (32 ∷ value) h.name_ends,
        h.name_trimmed,
        trim-space value ∙ h.value_trimmed,
      )
      (parse_headers-written (pushed ++ ((name, value) ∷ [])) headers hs
        ∙ ap ok (append_assoc pushed ((name, value) ∷ []) headers))

is_empty-append : (xs ys : Bytes) → is_empty ys ≡ false → is_empty (xs ++ ys) ≡ false
is_empty-append [] ys h = h
is_empty-append (x ∷ xs) ys h = refl

line_of-IsLine : (header : Bytes × Bytes) → IsHeader header → IsLine (line_of header)
unfolding line_of
line_of-IsLine (name, value) h = (
  All-append (λ b. 13 ≢ b) name (codes ": " ++ value) h.name_line ((cc), ((cc), h.value_line)),
  is_empty-append name (codes ": " ++ value) refl,
)

line_of-IsUtf8 : (header : Bytes × Bytes) → IsHeader header → IsUtf8 (line_of header)
unfolding line_of
line_of-IsUtf8 (name, value) h = IsUtf8-append name (codes ": " ++ value) h.name_text (
    IsUtf8-append (codes ": ") value (IsUtf8-ascii (codes ": ") (omega arith, (omega arith, tt)))
      h.value_text)

pub lines-IsLine : (headers : Headers) → All IsHeader headers → All IsLine (map line_of headers)
lines-IsLine [] hs = tt
lines-IsLine (header ∷ headers) (h, hs) = (line_of-IsLine header h, lines-IsLine headers hs)

lines-IsUtf8 : (headers : Headers) → All IsHeader headers → All IsUtf8 (map line_of headers)
lines-IsUtf8 [] hs = tt
lines-IsUtf8 (header ∷ headers) (h, hs) = (line_of-IsUtf8 header h, lines-IsUtf8 headers hs)

-- The bytes of a request line.
abbrev IsPrinted : ℕ → Type 0
IsPrinted b = (32 ≤ b) × (b ≤ 126)

line-IsPrinted : (r : Request) → IsWritten r → All IsPrinted (request_line_of r)
unfolding request_line_of
line-IsPrinted r w =
    All-append IsPrinted (method_name r.method) _
      (All-weaken (method_name r.method) visible w.method_visible)
      (
        (omega arith, omega arith),
        All-append IsPrinted r.uri _ (All-weaken r.uri visible w.uri_visible) version,
      )
  where
    version : All IsPrinted (32 ∷ codes "RTSP/1.0")
    version = ground arith

    visible : (b : ℕ) → IsVisible b → IsPrinted b
    visible b (low, high) = (omega arith, omega arith)

pub line-Lacks : (r : Request) → IsWritten r → Lacks 13 (request_line_of r)
line-Lacks r w = All-weaken (request_line_of r) (λ b (low, high). omega arith) (line-IsPrinted r w)

line-IsUtf8 : (r : Request) → IsWritten r → IsUtf8 (request_line_of r)
line-IsUtf8 r w =
    IsUtf8-ascii (request_line_of r)
      (All-weaken (request_line_of r) (λ b (low, high). omega arith) (line-IsPrinted r w))

abbrev pub head_of : Request → Head
head_of r = record {
  method = method_name r.method;
  uri = r.uri;
  headers = r.headers;
  count = length r.body;
}

pub parse_head-written :
    (r : Request)
    → IsWritten r
    → parse_head (joined (request_line_of r) (map line_of r.headers)) ≡ ok (head_of r)
unfolding parse_head parse_lines request_line
parse_head-written r w =
    rw
      (
        IsUtf8→is_utf8 _ (
            joined-IsUtf8 (request_line_of r) (map line_of r.headers) (line-IsUtf8 r w)
              (lines-IsUtf8 r.headers w.headers_written)),
        split-joined (request_line_of r) (map line_of r.headers) (line-Lacks r w)
            (lines-IsLine r.headers w.headers_written),
        split_whitespace-line r w,
        parse_headers-written [] r.headers w.headers_written,
        w.counted,
      )
      refl
