-- ===== src/Rtp/Aac/Delivery.antt =====
-- src/rtp/aac.rs from end to end: the unit that is packetized, a receiver has again.
use relaybay.Base.{
  ℕ, zero, suc, ◌+◌, ◌-◌, ◌*◌, ◌/◌, ◌%◌, ◌^◌, ◌<◌, ◌≤◌, ◌≡◌, refl, sym, ap, le_or_lt, inl, inr, ◌∙◌,
  Bool, true, eqb,
}
use relaybay.Base.{
  if◌then◌else◌, Option, none, some, List, [], ◌∷◌, ◌++◌, Bytes, length, take, drop, slice, min,
  max, arith,
}
use relaybay.Base.{
  ge→ltb, eqb_iff, ne→eqb, length-take, length-drop, take-append-drop, drop-drop, take_all,
}
use mathlib.Core.Option
use native.Mathlib.Nat.{lt-div-mul-add, mul-le-mul_right}
use relaybay.Base.Outcome.{ok}
use relaybay.Rtp.{Stream, budget, timestamp, packet, next}
use relaybay.Rtp.Packets.{
  IsValid, Carried, Carries, payloads, ends_frame, timestamp-lt, next-IsValid, parse-packet,
  packet-fits,
}
use relaybay.Rtp.Pieces.{div_ceil, less-room}
use relaybay.Rtp.Aac.{prefix_size, max_access_unit, size_prefix, packet_loop, packetize}

-- The size that a payload states, and its piece, as RFC 3640 has them: one header of sixteen bits, index 0.
unfoldable pub read_piece : Bytes → Option (ℕ × Bytes)
read_piece (a ∷ b ∷ c ∷ d ∷ piece) =
    if eqb (a * 256 + b) 16
    then (if eqb (d % 8) 0 then some ((c * 256 + d) / 8, piece) else none)
    else none
read_piece bs = none

-- The pieces put together. Each has to state the one size.
unfoldable pub receive : ℕ → List Bytes → Option Bytes
receive size [] = some []
receive size (payload ∷ rest) = elim (read_piece payload) [
  | none ↦ none
  | some (stated, piece) ↦
      if eqb stated size then Option.map (λ after. piece ++ after) (receive size rest) else none
]

-- The pieces of what is left of a unit.
unfoldable pub plan : ℕ → ℕ → Bytes → ℕ → List Carried
plan whole size rest zero = []
plan whole size rest (suc left) =
    (eqb left 0, size_prefix whole ++ take size rest) ∷ plan whole size (drop size rest) left

-- The bounds of a piece, where the slice has a start past the end too.
slice-take :
    (start size : ℕ) (bs : Bytes)
    → slice start (min (start + size) (length bs)) bs ≡ take size (drop start bs)
slice-take start size bs = elim (le_or_lt (start + size) (length bs)) [
  | inl within ↦
      let e : min (start + size) (length bs) - start ≡ size = omega arith in
      ap (λ n. take n (drop start bs)) e
  | inr past ↦
      let e : min (start + size) (length bs) - start ≡ length bs - start = omega arith in
      let left = length-drop start bs in
      ap (λ n. take n (drop start bs)) e
      ∙ take_all (length bs - start) (drop start bs) (omega (arith, left))
      ∙ sym (take_all size (drop start bs) (omega (arith, left)))
]

last_piece :
    (index left pieces : ℕ) → index + suc left ≡ pieces → eqb (index + 1) pieces ≡ eqb left 0
last_piece index zero pieces h = (eqb_iff (index + 1) pieces).1 (omega arith)
last_piece index (suc left) pieces h =
    ne→eqb (index + 1) pieces (λ e. omega arith) ∙ sym (ne→eqb (suc left) 0 (λ e. omega arith))

packet_loop-Carries :
    (s : Stream) (stamp : ℕ) (frame : Bytes) (size pieces index left : ℕ)
    → IsValid s
    → stamp < 2 ^ 32
    → prefix_size + size ≤ budget s
    → index + left ≡ pieces
    → Carries s stamp
        (packet_loop s stamp frame size pieces index left).0
        (plan (length frame) size (drop (index * size) frame) left)
        (packet_loop s stamp frame size pieces index left).1
unfolding packet_loop plan Carries budget packet
packet_loop-Carries s stamp frame size pieces index zero v hs room h = refl
packet_loop-Carries s stamp frame size pieces index (suc left) v hs room h =
    let rest = drop (index * size) frame in
    let prefix = size_prefix (length frame) in
    let short = length-take size rest in
    let after = drop-drop size (index * size) ((index + 1) * size) frame (omega arith) in
    let more =
      packet_loop-Carries (next s) stamp frame size pieces (index + 1) left (next-IsValid s v) hs
        room (omega arith) in
    rw (last_piece index left pieces h, slice-take (index * size) size frame)
      (
        parse-packet s (eqb left 0) stamp prefix (take size rest) v hs,
        packet-fits s (eqb left 0) stamp prefix (take size rest) v
            (unfold size_prefix in omega arith),
        rw (sym after) at more,
      )

read_piece-size_prefix :
    (size : ℕ) (piece : Bytes)
    → size ≤ max_access_unit
    → read_piece (size_prefix size ++ piece) ≡ some (size, piece)
unfolding read_piece size_prefix
read_piece-size_prefix size piece h = ground arith

receive-plan :
    (whole size left : ℕ) (rest : Bytes)
    → whole ≤ max_access_unit
    → length rest ≤ left * size
    → receive whole (payloads (plan whole size rest left)) ≡ some rest
unfolding receive plan
receive-plan whole size zero [] fits enough = refl
receive-plan whole size zero (b ∷ bs) fits enough = absurd (omega arith)
receive-plan whole size (suc left) rest fits enough =
    let more =
      receive-plan whole size left (drop size rest) fits (omega (arith, length-drop size rest)) in
    rw
      (
        receive,
        read_piece-size_prefix whole (take size rest) fits,
        (eqb_iff whole whole).1 refl,
        more,
      )
      (ap some (take-append-drop size rest))

ends_frame-plan :
    (whole size left : ℕ) (rest : Bytes) → ends_frame (plan whole size rest (suc left)) ≡ true
unfolding ends_frame plan
ends_frame-plan whole size zero rest = refl
ends_frame-plan whole size (suc left) rest =
    rw (ne→eqb (suc left) 0 (λ e. omega arith)) (ends_frame-plan whole size left (drop size rest))

enough_pieces : (n size : ℕ) → 0 < size → n ≤ max (div_ceil n size) 1 * size
unfolding div_ceil
enough_pieces n size h =
    let q = (n + size - 1) / size in
    let rest = lt-div-mul-add {a = n + size - 1} h in
    let counted : q ≤ max q 1 = omega arith in omega (arith, rest, mul-le-mul_right size counted)

-- An access unit of up to 8191 bytes is always packetized where the stream has room behind the prefix:
-- no packet is longer than the MTU, each states the size of the whole, the pieces are the unit, and
-- only the last packet is marked.
pub packetize-receive :
    (checks : Bool) (s : Stream) (frame : Bytes) (at : ℕ)
    → IsValid s
    → prefix_size < budget s
    → length frame ≤ max_access_unit
    → (ps : List Bytes) × (cs : List Carried) × (s' : Stream) × (packetize checks s frame at
        ≡ ok (ps, s'))
      × Carries s (timestamp s at) ps cs s'
      × (receive (length frame) (payloads cs) ≡ some frame)
      × (ends_frame cs ≡ true)
unfolding packetize
packetize-receive checks s frame at v room fits =
    let size = budget s - prefix_size in
    let pieces = max (div_ceil (length frame) size) 1 in
    let loop = packet_loop s (timestamp s at) frame size pieces 0 pieces in
    let none_yet : 0 * size ≡ 0 = omega arith in
    let start = ap (λ n. drop n frame) none_yet in
    let last : pieces ≡ suc (pieces - 1) = omega arith in
    (
      loop.0,
      plan (length frame) size (drop (0 * size) frame) pieces,
      loop.1,
      rw
          (
            ge→ltb max_access_unit (length frame) fits,
            less-room checks (budget s) prefix_size (omega arith),
            ne→eqb size 0 (λ e. omega arith),
          )
          refl,
      packet_loop-Carries s (timestamp s at) frame size pieces 0 pieces v (timestamp-lt s at)
          (omega arith) (omega arith),
      rw start (
          receive-plan (length frame) size pieces frame fits
            (enough_pieces (length frame) size (omega arith))),
      rw (start, last) (ends_frame-plan (length frame) size (pieces - 1) frame),
    )
