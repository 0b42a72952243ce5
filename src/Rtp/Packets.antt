-- ===== src/Rtp/Packets.antt =====
-- What a receiver reads off the packets of src/rtp/mod.rs.
use relaybay.Base.{ℕ, ◌+◌, ◌^◌, ◌<◌, ◌≤◌, ◌≡◌, refl, sym, ap, Bool, false}
use relaybay.Base.{some, subst, List, [], ◌∷◌, ◌++◌, Bytes, length, arith}
use relaybay.Base.{from_be, to_be, length-append, agree_below, agree_below→eq, map, not, ◌&&◌}
use Prim.Native.Nat.{bit_or}
use relaybay.Rtp.{Stream, Header, header_size, budget, next, packet, parse, timestamp}

-- A stream whose numbers are those of their widths.
pub record IsValid (s : Stream) : Type 0 where
  pub type_fits : s.payload_type < 128
  pub sequence_fits : s.sequence < 2 ^ 16
  pub ssrc_fits : s.ssrc < 2 ^ 32
  pub room : header_size < s.mtu

marked : (t : ℕ) → t < 128 → bit_or 0x80 t ≡ 128 + t
unfolding agree_below
marked = agree_below→eq _ _ 128 refl

unmarked : (t : ℕ) → t < 128 → bit_or 0 t ≡ t
unfolding agree_below
unmarked = agree_below→eq _ _ 128 refl

-- The header that a packet of a stream has.
abbrev pub header : Stream → Bool → ℕ → Header
header s marker stamp = record {
  marker = marker;
  payload_type = s.payload_type;
  sequence = s.sequence;
  timestamp = stamp;
  ssrc = s.ssrc;
}

-- `Header::parse` reads from a packet the header that its stream gave it, and hands back what stands
-- behind it, for a stream of numbers that fit their fields.
pub parse-packet :
    (s : Stream) (marker : Bool) (stamp : ℕ) (prefix body : Bytes)
    → IsValid s
    → stamp < 2 ^ 32
    → parse (packet s marker stamp prefix body).0 ≡ some (header s marker stamp, prefix ++ body)
unfolding parse packet to_be from_be
parse-packet s marker stamp prefix body v h = ground (
  arith,
  v.type_fits,
  v.sequence_fits,
  v.ssrc_fits,
  marked s.payload_type,
  unmarked s.payload_type,
)

-- A marker and what stands behind the header.
abbrev pub Carried : Type 0
Carried = Bool × Bytes

-- What stands behind the headers.
abbrev pub payloads : List Carried → List Bytes
payloads cs = map (λ c. c.1) cs

-- Only the last packet is marked.
unfoldable pub ends_frame : List Carried → Bool
ends_frame [] = false
ends_frame ((marker, payload) ∷ []) = marker
ends_frame ((marker, payload) ∷ c ∷ cs) = not marker && ends_frame (c ∷ cs)

-- The packets carry what is given: each has the stream's header with the next sequence number and the
-- one timestamp, and none is longer than the stream allows.
unfoldable pub Carries : Stream → ℕ → List Bytes → List Carried → Stream → Type 0
Carries s stamp [] [] s' = s ≡ s'
Carries s stamp (p ∷ ps) ((marker, payload) ∷ rest) s' =
    (parse p ≡ some (header s marker stamp, payload))
    × (length p ≤ s.mtu)
    × Carries (next s) stamp ps rest s'
Carries s stamp _ _ s' = ⊥

pub next-IsValid : (s : Stream) → IsValid s → IsValid (next s)
next-IsValid s v = record {
  type_fits = v.type_fits;
  sequence_fits = omega arith;
  ssrc_fits = v.ssrc_fits;
  room = v.room;
}

pub Carries-stream :
    (s s' : Stream) (stamp : ℕ) (ps : List Bytes) (cs : List Carried)
    → IsValid s
    → Carries s stamp ps cs s'
    → IsValid s' × (s'.mtu ≡ s.mtu)
unfolding Carries
Carries-stream s s' stamp [] [] v h = (subst IsValid h v, ap (λ x. x.mtu) (sym h))
Carries-stream s s' stamp (p ∷ ps) ((marker, payload) ∷ cs) v (h, h', hs) =
    Carries-stream (next s) s' stamp ps cs (next-IsValid s v) hs
Carries-stream s s' stamp [] (c ∷ cs) v h = absurd h
Carries-stream s s' stamp (p ∷ ps) [] v h = absurd h

pub Carries-append :
    (s s' s'' : Stream) (stamp : ℕ) (ps qs : List Bytes) (cs ds : List Carried)
    → Carries s stamp ps cs s'
    → Carries s' stamp qs ds s''
    → Carries s stamp (ps ++ qs) (cs ++ ds) s''
unfolding Carries
Carries-append s s' s'' stamp [] qs [] ds h k = subst (λ x. Carries x stamp qs ds s'') (sym h) k
Carries-append s s' s'' stamp (p ∷ ps) qs ((marker, payload) ∷ cs) ds (h, h', hs) k =
    (h, h', Carries-append (next s) s' s'' stamp ps qs cs ds hs k)
Carries-append s s' s'' stamp [] qs (c ∷ cs) ds h k = absurd h
Carries-append s s' s'' stamp (p ∷ ps) qs [] ds h k = absurd h

length-packet :
    (s : Stream) (marker : Bool) (stamp : ℕ) (prefix body : Bytes)
    → length (packet s marker stamp prefix body).0 ≡ header_size + (length prefix + length body)
unfolding packet to_be
length-packet s marker stamp prefix body = omega (arith, length-append prefix body)

pub packet-fits :
    (s : Stream) (marker : Bool) (stamp : ℕ) (prefix body : Bytes)
    → IsValid s
    → length prefix + length body ≤ budget s
    → length (packet s marker stamp prefix body).0 ≤ s.mtu
unfolding budget
packet-fits s marker stamp prefix body v h =
    omega (arith, length-packet s marker stamp prefix body, v.room)

pub timestamp-lt : (s : Stream) (at : ℕ) → timestamp s at < 2 ^ 32
unfolding timestamp
timestamp-lt s at = omega arith
