-- ===== src/Rtp.antt =====
-- src/rtp/mod.rs: an outgoing stream of packets, and the header that each one has.
use relaybay.Base.{
  ℕ, zero, suc, ◌+◌, ◌-◌, ◌*◌, ◌/◌, ◌%◌, ◌^◌, Bool, true, false, eqb, leb, ltb, if◌then◌else◌,
}
use relaybay.Base.{
  Option, none, some, List, [], ◌∷◌, ◌++◌, Bytes, length, take, drop, slice, get_elem?, from_be,
  to_be, not,
}
use Prim.Native.Nat.{bit_or, bit_xor}
use relaybay.Base.Outcome.{Outcome, ok, err, panic}
pub mod Packets
pub mod Pieces
pub mod H264
pub mod Aac
pub mod Small

abbrev pub header_size : ℕ
header_size = 12

abbrev pub mtu_default : ℕ
mtu_default = 1400

abbrev pub video_type : ℕ
video_type = 96

abbrev pub audio_type : ℕ
audio_type = 97

pub data RtpError : Type 0 where
  access_unit_too_long : ℕ → ℕ → RtpError
  mtu_too_small : ℕ → RtpError

pub record Stream : Type 0 where
  pub ssrc : ℕ
  pub payload_type : ℕ
  pub clock_rate : ℕ
  pub sequence : ℕ
  pub origin : ℕ
  pub mtu : ℕ

-- One step of splitmix64, on a `u64`.
unfoldable pub scramble : ℕ → ℕ
scramble value =
    let m₀ = (value + 0x9e37_79b9_7f4a_7c15) % 2 ^ 64 in
    let m₁ = bit_xor m₀ (m₀ / 2 ^ 30) * 0xbf58_476d_1ce4_e5b9 % 2 ^ 64 in
    let m₂ = bit_xor m₁ (m₁ / 2 ^ 27) * 0x94d0_49bb_1331_11eb % 2 ^ 64 in bit_xor m₂ (m₂ / 2 ^ 31)

unfoldable pub new : ℕ → ℕ → ℕ → Stream
new ssrc payload_type clock_rate =
    let mixed = scramble ssrc in
    record {
      ssrc = ssrc;
      payload_type = payload_type;
      clock_rate = clock_rate;
      sequence = mixed % 2 ^ 16;
      origin = mixed / 2 ^ 16 % 2 ^ 32;
      mtu = mtu_default;
    }

unfoldable pub with_mtu : Stream → ℕ → Outcome RtpError Stream
with_mtu s mtu =
    if leb mtu header_size then err (mtu_too_small mtu) else ok (record s { mtu = mtu })

-- `with_mtu` leaves every stream a budget of one byte at least.
unfoldable pub budget : Stream → ℕ
budget s = s.mtu - header_size

-- `a - b` on a `usize`. A build with overflow checks (the dev profile) panics below zero, and one
-- without (the release profile) wraps.
unfoldable pub less : Bool → ℕ → ℕ → Outcome RtpError ℕ
less checks a b = if leb b a then ok (a - b) else if checks then panic else ok (a + 2 ^ 64 - b)

-- `at` is in nanoseconds.
unfoldable pub timestamp : Stream → ℕ → ℕ
timestamp s at = (s.origin + at * s.clock_rate / 1_000_000_000 % 2 ^ 32) % 2 ^ 32

abbrev pub next : Stream → Stream
next s = record s { sequence = (s.sequence + 1) % 2 ^ 16 }

unfoldable pub packet : Stream → Bool → ℕ → Bytes → Bytes → Bytes × Stream
packet s marker stamp prefix body = (
  0x80
      ∷ bit_or (if marker then 0x80 else 0) s.payload_type
      ∷ (to_be 2 s.sequence ++ (to_be 4 stamp ++ (to_be 4 s.ssrc ++ (prefix ++ body)))),
  next s,
)

pub record Header : Type 0 where
  pub marker : Bool
  pub payload_type : ℕ
  pub sequence : ℕ
  pub timestamp : ℕ
  pub ssrc : ℕ

abbrev fixed_header : ℕ → Bytes → Header
fixed_header second fixed = record {
  marker = not (eqb (second / 128) 0);
  payload_type = second % 128;
  sequence = from_be (slice 2 4 fixed);
  timestamp = from_be (slice 4 8 fixed);
  ssrc = from_be (slice 8 12 fixed);
}

unfoldable pub parse : Bytes → Option (Header × Bytes)
parse bs = if ltb (length bs) header_size then none else elim (get_elem? bs 1) [
  | none ↦ none
  | some second ↦ some (fixed_header second (take header_size bs), drop header_size bs)
]
