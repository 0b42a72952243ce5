-- ===== src/Rtp/H264/Delivery.antt =====
-- src/rtp/h264.rs from end to end: what is packetized, a receiver has again.
use relaybay.Base.{ℕ, ◌-◌, ◌<◌, ◌≡◌, refl, ap, ◌∙◌, Bool, true, false, not, ◌&&◌}
use relaybay.Base.{
  append-nil, All-weaken, some, none, List, [], ◌∷◌, ◌++◌, Bytes, length, arith, All, map, le→leb,
  gt→leb, le_or_lt, inl, inr,
}
use relaybay.Base.Outcome.{ok}
use relaybay.Codec.H264.{Nal}
use relaybay.Rtp.{Stream, budget, timestamp}
use relaybay.Rtp.Packets.{IsValid, Carried, Carries, timestamp-lt, payloads, ends_frame}
use relaybay.Rtp.Pieces.{chunks, chunks-there}
use relaybay.Rtp.H264.{packetize}
use relaybay.Rtp.H264.Plan.{pieces_plan, unit_plan, plan, packetize_loop-Carries}
use relaybay.Rtp.H264.Receiver.{rebuild}
use relaybay.Rtp.H264.Rebuild.{IsUnit, rebuild-plan}

none_marked : List Carried → Bool
none_marked [] = true
none_marked ((marker, payload) ∷ cs) = not marker && none_marked cs

ends_frame-append :
    (cs ds : List Carried)
    → none_marked cs ≡ true
    → ends_frame ds ≡ true
    → ends_frame (cs ++ ds) ≡ true
unfolding ends_frame none_marked
ends_frame-append [] ds h k = k
ends_frame-append ((true, payload) ∷ cs) ds h k = cc
ends_frame-append ((false, payload) ∷ []) [] h k = cc
ends_frame-append ((false, payload) ∷ []) (d ∷ ds) h k = k
ends_frame-append ((false, payload) ∷ c ∷ cs) ds h k = ends_frame-append (c ∷ cs) ds h k

none_marked-pieces_plan :
    (start : Bool) (b : ℕ) (pieces : List Bytes)
    → none_marked (pieces_plan false start b pieces) ≡ true
unfolding none_marked pieces_plan
none_marked-pieces_plan start b [] = refl
none_marked-pieces_plan start b (piece ∷ pieces) = none_marked-pieces_plan false b pieces

ends_frame-pieces_plan :
    (start : Bool) (b : ℕ) (pieces : List Bytes)
    → 0 < length pieces
    → ends_frame (pieces_plan true start b pieces) ≡ true
unfolding ends_frame pieces_plan
ends_frame-pieces_plan start b [] h = absurd (omega arith)
ends_frame-pieces_plan start b (piece ∷ []) h = refl
ends_frame-pieces_plan start b (piece ∷ p ∷ ps) h =
    ends_frame-pieces_plan false b (p ∷ ps) (omega arith)

none_marked-unit_plan : (room : ℕ) (unit : Bytes) → none_marked (unit_plan room false unit) ≡ true
unfolding none_marked unit_plan
none_marked-unit_plan room [] = refl
none_marked-unit_plan room (b ∷ body) = elim (le_or_lt (length (b ∷ body)) room) [
  | inl fits ↦ rw (le→leb (length (b ∷ body)) room fits) refl
  | inr long ↦
      rw (gt→leb (length (b ∷ body)) room long)
        (none_marked-pieces_plan true b (chunks (room - 2) body))
]

ends_frame-unit_plan :
    (room : ℕ) (unit : Bytes)
    → 2 < room
    → IsUnit unit
    → ends_frame (unit_plan room true unit) ≡ true
unfolding ends_frame unit_plan
ends_frame-unit_plan room [] h v = absurd v
ends_frame-unit_plan room (b ∷ body) h v = elim (le_or_lt (length (b ∷ body)) room) [
  | inl fits ↦ rw (le→leb (length (b ∷ body)) room fits) refl
  | inr long ↦ rw (gt→leb (length (b ∷ body)) room long) (
      ends_frame-pieces_plan true b (chunks (room - 2) body)
        (chunks-there (room - 2) body (omega arith) (omega arith)))
]

ends_frame-plan :
    (room : ℕ) (n : Nal) (nalus : List Nal)
    → 2 < room
    → All (λ m. IsUnit m.contents) (n ∷ nalus)
    → ends_frame (plan room (n ∷ nalus)) ≡ true
unfolding plan
ends_frame-plan room n [] h (v, vs) =
    ap ends_frame (append-nil (unit_plan room true n.contents))
    ∙ ends_frame-unit_plan room n.contents h v
ends_frame-plan room n (m ∷ nalus) h (v, vs) =
    ends_frame-append (unit_plan room false n.contents) (plan room (m ∷ nalus))
      (none_marked-unit_plan room n.contents) (ends_frame-plan room m nalus h vs)

unit_there : (unit : Bytes) → IsUnit unit → 0 < length unit
unit_there [] v = absurd v
unit_there (b ∷ bs) v = omega arith

units_there :
    (nalus : List Nal) → All (λ n. IsUnit n.contents) nalus → All (λ n. 0 < length n.contents) nalus
units_there nalus vs = All-weaken nalus (λ n v. unit_there n.contents v) vs

-- An access unit of at least one unit, each of a type of 1 to 23, is cut into packets, on a stream with
-- room for three bytes: the stream is used from its next sequence number on, no packet is longer than
-- the MTU, a receiver of RFC 6184's single units and FU-A fragments, which refuses every other type,
-- has the same units again, and only the last packet is marked.
pub packetize-rebuild :
    (checks : Bool) (s : Stream) (n : Nal) (nalus : List Nal) (at : ℕ)
    → IsValid s
    → 2 < budget s
    → All (λ m. IsUnit m.contents) (n ∷ nalus)
    → (ps : List Bytes) × (cs : List Carried) × (s' : Stream) × (packetize checks s (n ∷ nalus) at
        ≡ ok (ps, s'))
      × Carries s (timestamp s at) ps cs s'
      × (rebuild none (payloads cs) ≡ some (map (λ m. m.contents) (n ∷ nalus)))
      × (ends_frame cs ≡ true)
unfolding packetize
packetize-rebuild checks s n nalus at v h vs =
    let (ps, s', done, carries) =
      packetize_loop-Carries checks s (timestamp s at) (budget s) (n ∷ nalus) v (timestamp-lt s at)
        refl h (units_there (n ∷ nalus) vs) in
    (
      ps,
      plan (budget s) (n ∷ nalus),
      s',
      done,
      carries,
      rebuild-plan (budget s) (n ∷ nalus) h vs,
      ends_frame-plan (budget s) n nalus h vs,
    )
