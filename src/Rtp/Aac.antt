-- ===== src/Rtp/Aac.antt =====
-- src/rtp/aac.rs: an access unit cut into packets, each with the size of the whole in front.
use relaybay.Base.{
  ℕ, zero, suc, ◌+◌, ◌-◌, ◌*◌, ◌/◌, ◌%◌, ◌^◌, Bool, true, false, eqb, leb, ltb, if◌then◌else◌,
}
use relaybay.Base.{List, [], ◌∷◌, Bytes, length, slice, min, max}
use relaybay.Base.Outcome.{Outcome, ok, err, panic, ◌>>=◌}
use relaybay.Rtp.{Stream, RtpError, access_unit_too_long, budget, less, timestamp, packet}
use relaybay.Rtp.Pieces.{div_ceil}
pub mod Delivery

abbrev pub prefix_size : ℕ
prefix_size = 4

abbrev pub max_access_unit : ℕ
max_access_unit = 8191

-- The header describes the whole unit, on a piece of one too.
unfoldable pub size_prefix : ℕ → Bytes
size_prefix size = 0x00 ∷ 0x10 ∷ (size / 32 % 2 ^ 8) ∷ (size % 32 * 8 % 2 ^ 8) ∷ []

-- The closure over `0..pieces`, from `index` on for `left` rounds.
unfoldable pub packet_loop : Stream → ℕ → Bytes → ℕ → ℕ → ℕ → ℕ → List Bytes × Stream
packet_loop s stamp frame size pieces index zero = ([], s)
packet_loop s stamp frame size pieces index (suc left) =
    let start = index * size in
    let end = min (start + size) (length frame) in
    let last = eqb (index + 1) pieces in
    let (p, s₁) = packet s last stamp (size_prefix (length frame)) (slice start end frame) in
    let (ps, s₂) = packet_loop s₁ stamp frame size pieces (index + 1) left in (p ∷ ps, s₂)

-- `checks` is whether the build has overflow checks. A division by zero panics in every build.
unfoldable pub packetize : Bool → Stream → Bytes → ℕ → Outcome RtpError (List Bytes × Stream)
packetize checks s frame at =
    if ltb max_access_unit (length frame)
    then err (access_unit_too_long (length frame) max_access_unit)
    else (less checks (budget s) prefix_size >>= λ size.
        if eqb size 0
        then panic
        else (let pieces = max (div_ceil (length frame) size) 1 in
            ok (packet_loop s (timestamp s at) frame size pieces 0 pieces)))
