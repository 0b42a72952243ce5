-- ===== src/Rtp/H264.antt =====
-- src/rtp/h264.rs: access units cut into packets, whole or as FU-A fragments.
use relaybay.Base.{
  ℕ, zero, suc, ◌+◌, ◌-◌, ◌*◌, ◌/◌, ◌%◌, Bool, true, false, eqb, leb, ltb, ◌&&◌, if◌then◌else◌,
}
use relaybay.Base.{List, [], ◌∷◌, ◌++◌, Bytes, length, is_empty}
use Prim.Native.Nat.{bit_or}
use relaybay.Base.Outcome.{Outcome, ok, panic, ◌>>=◌}
use relaybay.Codec.H264.{Nal}
use relaybay.Rtp.{Stream, RtpError, budget, less, timestamp, packet}
use relaybay.Rtp.Pieces.{chunks, div_ceil}
pub mod Plan
pub mod Receiver
pub mod Rebuild
pub mod Delivery

abbrev pub fu_a : ℕ
fu_a = 28

-- The two bytes in front of a piece. `first` is the unit's own header byte.
unfoldable pub indicator : ℕ → ℕ
indicator first = bit_or (first / 32 * 32) fu_a

unfoldable pub fragment_header : Bool → Bool → ℕ → ℕ
fragment_header start end first =
    bit_or (bit_or (if start then 0x80 else 0) (if end then 0x40 else 0)) (first % 32)

-- The loop over the pieces; the stream's sequence number moves with each packet.
unfoldable pub fragment_loop : Stream → Bool → ℕ → ℕ → ℕ → ℕ → List Bytes → List Bytes × Stream
fragment_loop s last stamp first pieces index [] = ([], s)
fragment_loop s last stamp first pieces index (piece ∷ rest) =
    let end = eqb (index + 1) pieces in
    let prefix = indicator first ∷ fragment_header (eqb index 0) end first ∷ [] in
    let (p, s₁) = packet s (last && end) stamp prefix piece in
    let (ps, s₂) = fragment_loop s₁ last stamp first pieces (index + 1) rest in (p ∷ ps, s₂)

-- `checks` is whether the build has overflow checks. A division by zero panics in every build.
unfoldable pub fragment : Bool → Stream → Bool → ℕ → Bytes → Outcome RtpError (List Bytes × Stream)
fragment checks s last stamp [] = panic
fragment checks s last stamp (first ∷ body) = less checks (budget s) 2 >>= λ size.
    if eqb size 0
    then panic
    else ok (fragment_loop s last stamp first (div_ceil (length body) size) 0 (chunks size body))

unfoldable pub packetize_unit :
    Bool → Stream → Bool → ℕ → Bytes → Outcome RtpError (List Bytes × Stream)
packetize_unit checks s last stamp unit =
    if leb (length unit) (budget s)
    then (let (p, s') = packet s last stamp [] unit in ok (p ∷ [], s'))
    else fragment checks s last stamp unit

-- The loop of `packetize`: the last unit is the one that no other follows.
unfoldable pub packetize_loop :
    Bool → Stream → ℕ → List Nal → Outcome RtpError (List Bytes × Stream)
packetize_loop checks s stamp [] = ok ([], s)
packetize_loop checks s stamp (n ∷ nalus) =
    packetize_unit checks s (is_empty nalus) stamp n.contents >>= λ (ps, s₁).
    packetize_loop checks s₁ stamp nalus >>= λ (qs, s₂). ok (ps ++ qs, s₂)

unfoldable pub packetize : Bool → Stream → List Nal → ℕ → Outcome RtpError (List Bytes × Stream)
packetize checks s nalus at = packetize_loop checks s (timestamp s at) nalus
