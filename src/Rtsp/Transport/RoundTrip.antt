-- ===== src/Rtsp/Transport/RoundTrip.antt =====
-- The `Transport` header that src/rtsp/message.rs writes, it reads back.
use relaybay.Base.{
  ℕ, ◌^◌, ◌≤◌, ◌<◌, ◌≡◌, ◌≢◌, refl, sym, ap, ◌∙◌, arith, true, false, lt→ltb, ◌||◌, append-nil,
}
use relaybay.Base.{Option, none, some, List, [], ◌∷◌, ◌++◌, map, Bytes, All, All-append, All-weaken}
use relaybay.Text.{
  codes, split, split-append, split_none, split_once, split_once-append, trim, trim-visible,
}
use relaybay.Text.{Lacks, IsVisible, decimal, decimal-IsDigit, parse-decimal}
use relaybay.Rtsp.Transport.{
  Transport, interleaved, udp, pair, pair_of, Said, named_part, say, offer, parse_parts, parse_one,
  offers_of, offered, parse_transport, first_offer, keep_some, byte_channels, ports_of, dashed,
  server_part, to_header,
}

decimal-Lacks : (c n : ℕ) → c < b'0' → Lacks c (decimal n)
decimal-Lacks c n h = All-weaken (decimal n) (λ b (low, high). omega arith) (decimal-IsDigit n)

decimal-IsVisible : (n : ℕ) → All IsVisible (decimal n)
decimal-IsVisible n =
    All-weaken (decimal n) (λ b (low, high). (omega arith, omega arith)) (decimal-IsDigit n)

-- Channels or ports are read back.
pair-dashed : (a b : ℕ) → a < 2 ^ 16 → b < 2 ^ 16 → pair (dashed a b) ≡ some (a, b)
unfolding pair pair_of dashed
pair-dashed a b ha hb =
    rw
      (
        split_once-append b'-' [] (decimal a) (decimal b) (decimal-Lacks b'-' a (omega arith)),
        trim-visible (decimal a) (decimal-IsVisible a),
        trim-visible (decimal b) (decimal-IsVisible b),
        parse-decimal (2 ^ 16) a ha,
        parse-decimal (2 ^ 16) b hb,
      )
      refl

-- What stands between the commas and the semicolons of a header.
abbrev IsPlain : ℕ → Type 0
IsPlain b = (33 ≤ b) × (b ≤ 126) × (b ≢ b',') × (b ≢ b';')

IsPlain→Lacks : (text : Bytes) → All IsPlain text → Lacks b';' text
IsPlain→Lacks text hs =
    All-weaken text (λ b (low, high, comma, semicolon). λ e. semicolon (sym e)) hs

IsPlain→lacks_comma : (text : Bytes) → All IsPlain text → Lacks b',' text
IsPlain→lacks_comma text hs =
    All-weaken text (λ b (low, high, comma, semicolon). λ e. comma (sym e)) hs

plain-trim : (text : Bytes) → All IsPlain text → trim text ≡ text
plain-trim text hs =
    trim-visible text (All-weaken text (λ b (low, high, comma, semicolon). (low, high)) hs)

decimal-IsPlain : (n : ℕ) → All IsPlain (decimal n)
decimal-IsPlain n =
    All-weaken (decimal n) (λ b (low, high). (omega arith, omega arith, omega arith, omega arith))
      (decimal-IsDigit n)

dashed-IsPlain : (a b : ℕ) → All IsPlain (dashed a b)
unfolding dashed
dashed-IsPlain a b =
    All-append IsPlain (decimal a) _ (decimal-IsPlain a)
      ((omega arith, omega arith, omega arith, omega arith), decimal-IsPlain b)

-- A part of a specification: a word, and two numbers.
abbrev part : Bytes → ℕ → ℕ → Bytes
part word a b = word ++ (codes "=" ++ dashed a b)

part-IsPlain : (word : Bytes) (a b : ℕ) → All IsPlain word → All IsPlain (part word a b)
part-IsPlain word a b hs =
    All-append IsPlain word _ hs
      ((omega arith, omega arith, omega arith, omega arith), dashed-IsPlain a b)

first_offer-keep_some : (o : Option Transport) → first_offer (keep_some o []) ≡ o
unfolding first_offer keep_some
first_offer-keep_some none = refl
first_offer-keep_some (some t) = refl

-- A header without a comma is one specification.
parse_transport_one :
    (header : Bytes) → Lacks b',' header → parse_transport header ≡ parse_one header
unfolding parse_transport offered offers_of
parse_transport_one header hs =
    rw (split_none b',' [] header hs) (first_offer-keep_some (parse_one header))

-- The parts of a specification.
abbrev spec : Bytes → List Bytes → Bytes
spec first [] = first
spec first (next ∷ parts) = first ++ (codes ";" ++ spec next parts)

split-spec :
    (first : Bytes) (parts : List Bytes)
    → All IsPlain first
    → All (All IsPlain) parts
    → map trim (split (codes ";") (spec first parts)) ≡ first ∷ parts
split-spec first [] h hs =
    ap (map trim) (split_none b';' [] first (IsPlain→Lacks first h))
    ∙ ap (λ t. t ∷ []) (plain-trim first h)
split-spec first (next ∷ parts) h (hn, hs) =
    ap (map trim) (split-append b';' [] first (spec next parts) (IsPlain→Lacks first h))
    ∙ ap (λ t. t ∷ map trim (split (codes ";") (spec next parts))) (plain-trim first h)
    ∙ ap (λ ts. first ∷ ts) (split-spec next parts hn hs)

spec-Lacks :
    (first : Bytes) (parts : List Bytes)
    → All IsPlain first
    → All (All IsPlain) parts
    → Lacks b',' (spec first parts)
spec-Lacks first [] h hs = IsPlain→lacks_comma first h
spec-Lacks first (next ∷ parts) h (hn, hs) =
    All-append (λ b. b',' ≢ b) first (codes ";" ++ spec next parts) (IsPlain→lacks_comma first h)
      (omega arith, spec-Lacks next parts hn hs)

parse_transport-spec :
    (first : Bytes) (parts : List Bytes)
    → All IsPlain first
    → All (All IsPlain) parts
    → parse_transport (spec first parts) ≡ parse_parts (first ∷ parts)
unfolding parse_one
parse_transport-spec first parts h hs =
    parse_transport_one (spec first parts) (spec-Lacks first parts h hs)
    ∙ ap parse_parts (split-spec first parts h hs)

split_once-part :
    (word : Bytes) (a b : ℕ)
    → Lacks b'=' word
    → split_once (codes "=") (part word a b) ≡ some (word, dashed a b)
split_once-part word a b hs = split_once-append b'=' [] word (dashed a b) hs

named_interleaved :
    (said : Said) (a b : ℕ)
    → a < 2 ^ 16
    → b < 2 ^ 16
    → named_part
        (part (codes "interleaved") a b)
        said
        (split_once (codes "=") (part (codes "interleaved") a b))
      ≡ record said { channels = some (a, b) }
unfolding named_part
named_interleaved said a b ha hb =
    ap (named_part (part (codes "interleaved") a b) said)
      (split_once-part (codes "interleaved") a b (ground arith))
    ∙ ap (λ pairs. record said { channels = pairs }) (pair-dashed a b ha hb)

named_ports :
    (said : Said) (a b : ℕ)
    → a < 2 ^ 16
    → b < 2 ^ 16
    → named_part
        (part (codes "client_port") a b)
        said
        (split_once (codes "=") (part (codes "client_port") a b))
      ≡ record said { ports = some (a, b) }
unfolding named_part
named_ports said a b ha hb =
    ap (named_part (part (codes "client_port") a b) said)
      (split_once-part (codes "client_port") a b (ground arith))
    ∙ ap (λ pairs. record said { ports = pairs }) (pair-dashed a b ha hb)

named_server :
    (said : Said) (a b : ℕ)
    → said.multicast ≡ false
    → named_part
        (part (codes "server_port") a b)
        said
        (split_once (codes "=") (part (codes "server_port") a b))
      ≡ said
unfolding named_part
named_server said a b e =
    ap (named_part (part (codes "server_port") a b) said)
      (split_once-part (codes "server_port") a b (ground arith))
    ∙ (ap (λ m. record said { multicast = m || false }) e
        ∙ sym (ap (λ m. record said { multicast = m }) e))

-- What is said before the first part.
abbrev silent : Said
silent = record { ports = none; channels = none; multicast = false }

parse_parts-interleaved :
    (a b : ℕ)
    → a < 256
    → b < 256
    → parse_parts (codes "RTP/AVP/TCP" ∷ codes "unicast" ∷ part (codes "interleaved") a b ∷ [])
      ≡ some (interleaved a b)
unfolding parse_parts say offer byte_channels
parse_parts-interleaved a b ha hb =
    ap (offer true) (named_interleaved silent a b (omega arith) (omega arith))
    ∙ rw (lt→ltb a 256 ha, lt→ltb b 256 hb) refl

-- The part that names the server's ports.
abbrev server_parts : Option (ℕ × ℕ) → List Bytes
server_parts none = []
server_parts (some (rtp, rtcp)) = part (codes "server_port") rtp rtcp ∷ []

parse_parts-udp :
    (a b : ℕ) (server : Option (ℕ × ℕ))
    → a < 2 ^ 16
    → b < 2 ^ 16
    → parse_parts
        (codes "RTP/AVP" ∷ codes "unicast" ∷ part (codes "client_port") a b ∷ server_parts server)
      ≡ some (udp a b)
unfolding parse_parts say offer ports_of
parse_parts-udp a b none ha hb = ap (offer false) (named_ports silent a b ha hb)
parse_parts-udp a b (some (rtp, rtcp)) ha hb =
    ap (λ said. offer false (say said (server_parts (some (rtp, rtcp)))))
      (named_ports silent a b ha hb)
    ∙ ap (offer false) (named_server (record silent { ports = some (a, b) }) rtp rtcp refl)

server_parts-IsPlain : (server : Option (ℕ × ℕ)) → All (All IsPlain) (server_parts server)
server_parts-IsPlain none = tt
server_parts-IsPlain (some (rtp, rtcp)) =
    (part-IsPlain (codes "server_port") rtp rtcp (ground arith), tt)

to_header-spec :
    (a b : ℕ) (server : Option (ℕ × ℕ))
    → to_header (udp a b) server
      ≡ spec
          (codes "RTP/AVP")
          (codes "unicast" ∷ part (codes "client_port") a b ∷ server_parts server)
unfolding to_header server_part
to_header-spec a b none =
    ap (λ t. codes "RTP/AVP;unicast;client_port=" ++ t) (append-nil (dashed a b))
to_header-spec a b (some (rtp, rtcp)) = refl

-- Channels that are bytes, ports that are of sixteen bits.
unfoldable pub IsNumbered : Transport → Type 0
IsNumbered (interleaved rtp rtcp) = (rtp < 256) × (rtcp < 256)
IsNumbered (udp rtp rtcp) = (rtp < 2 ^ 16) × (rtcp < 2 ^ 16)

-- The header that a transport is written as is read back as that transport, whatever the server's
-- ports are.
pub parse_transport-to_header :
    (t : Transport) (server : Option (ℕ × ℕ))
    → IsNumbered t
    → parse_transport (to_header t server) ≡ some t
unfolding IsNumbered to_header
parse_transport-to_header (interleaved a b) server (ha, hb) =
    parse_transport-spec (codes "RTP/AVP/TCP")
      (codes "unicast" ∷ part (codes "interleaved") a b ∷ []) (ground arith)
      (ground arith, (part-IsPlain (codes "interleaved") a b (ground arith), tt))
    ∙ parse_parts-interleaved a b ha hb
parse_transport-to_header (udp a b) server (ha, hb) =
    ap parse_transport (to_header-spec a b server)
    ∙ parse_transport-spec (codes "RTP/AVP")
        (codes "unicast" ∷ part (codes "client_port") a b ∷ server_parts server) (ground arith)
        (
          ground arith,
          (part-IsPlain (codes "client_port") a b (ground arith), server_parts-IsPlain server),
        )
    ∙ parse_parts-udp a b server ha hb
