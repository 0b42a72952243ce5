-- ===== src/Rtp/H264/Plan.antt =====
-- What the packets of src/rtp/h264.rs carry, said without the stream: a marker and a payload each.
use relaybay.Base.{ℕ, suc, ◌+◌, ◌-◌, ◌^◌, ◌<◌, ◌≡◌, refl, ap, ◌∙◌, Bool, true, false}
use relaybay.Base.{eqb, leb, ◌&&◌, if◌then◌else◌, List, [], ◌∷◌, ◌++◌, Bytes, length, arith, All}
use relaybay.Base.{is_empty, le→leb, gt→leb, le_or_lt, inl, inr, eqb_iff, ne→eqb}
use relaybay.Base.Outcome.{ok}
use relaybay.Codec.H264.{Nal}
use relaybay.Rtp.{Stream, header_size, budget, packet, next}
use relaybay.Rtp.Packets.{
  IsValid, parse-packet, Carried, Carries, next-IsValid, Carries-stream, Carries-append,
  packet-fits,
}
use relaybay.Rtp.Pieces.{less-room, chunks, div_ceil, IsPiece, chunks-Cut}
use relaybay.Rtp.H264.{
  indicator, fragment_header, fragment_loop, fragment, packetize_unit, packetize_loop,
}

-- The pieces after `start`, the last of them with the end bit.
unfoldable pub pieces_plan : Bool → Bool → ℕ → List Bytes → List Carried
pieces_plan last start first [] = []
pieces_plan last start first (piece ∷ rest) =
    let end = is_empty rest in
    (last && end, indicator first ∷ fragment_header start end first ∷ piece)
    ∷ pieces_plan last false first rest

unfoldable pub unit_plan : ℕ → Bool → Bytes → List Carried
unit_plan room last [] = []
unit_plan room last (first ∷ body) =
    if leb (length (first ∷ body)) room
    then (last, first ∷ body) ∷ []
    else pieces_plan last true first (chunks (room - 2) body)

unfoldable pub plan : ℕ → List Nal → List Carried
plan room [] = []
plan room (n ∷ nalus) = unit_plan room (is_empty nalus) n.contents ++ plan room nalus

last_piece :
    (index pieces : ℕ) (rest : List Bytes)
    → index + suc (length rest) ≡ pieces
    → eqb (index + 1) pieces ≡ is_empty rest
last_piece index pieces [] h = (eqb_iff (index + 1) pieces).1 (omega arith)
last_piece index pieces (r ∷ rest) h = ne→eqb (index + 1) pieces (λ e. omega arith)

fragment_loop-Carries :
    (s : Stream) (last : Bool) (stamp first pieces index : ℕ) (bodies : List Bytes)
    → IsValid s
    → stamp < 2 ^ 32
    → All (IsPiece (budget s - 2)) bodies
    → 2 < budget s
    → index + length bodies ≡ pieces
    → Carries s stamp
        (fragment_loop s last stamp first pieces index bodies).0
        (pieces_plan last (eqb index 0) first bodies)
        (fragment_loop s last stamp first pieces index bodies).1
unfolding fragment_loop pieces_plan Carries budget packet
fragment_loop-Carries s last stamp first pieces index [] v hs fits room h = refl
fragment_loop-Carries s last stamp first pieces index (piece ∷ rest) v hs (fit, fits) room h =
    let end = last_piece index pieces rest h in
    let marker = last && is_empty rest in
    let prefix = indicator first ∷ fragment_header (eqb index 0) (is_empty rest) first ∷ [] in
    let later : eqb (index + 1) 0 ≡ false = ne→eqb (index + 1) 0 (λ e. omega arith) in
    let more =
      fragment_loop-Carries (next s) last stamp first pieces (index + 1) rest (next-IsValid s v) hs
        fits room (omega arith) in
    rw end (
      parse-packet s marker stamp prefix piece v hs,
      packet-fits s marker stamp prefix piece v (omega arith),
      rw later at more,
    )

fragment-Carries :
    (checks : Bool) (s : Stream) (last : Bool) (stamp first : ℕ) (body : Bytes)
    → IsValid s
    → stamp < 2 ^ 32
    → 2 < budget s
    → (ps : List Bytes) × (s' : Stream) × (fragment checks s last stamp (first ∷ body)
        ≡ ok (ps, s'))
      × Carries s stamp ps (pieces_plan last true first (chunks (budget s - 2) body)) s'
unfolding fragment
fragment-Carries checks s last stamp first body v hs room =
    let size = budget s - 2 in
    let cut = chunks-Cut size body (omega arith) in
    let pieces = div_ceil (length body) size in
    let loop = fragment_loop s last stamp first pieces 0 (chunks size body) in
    (
      loop.0,
      loop.1,
      rw (less-room checks (budget s) 2 (omega arith), ne→eqb size 0 (λ e. omega arith)) refl,
      fragment_loop-Carries s last stamp first pieces 0 (chunks size body) v hs cut.fit room
          (omega (arith, cut.number)),
    )

packetize_unit-Carries :
    (checks : Bool) (s : Stream) (last : Bool) (stamp : ℕ) (unit : Bytes)
    → IsValid s
    → stamp < 2 ^ 32
    → 2 < budget s
    → 0 < length unit
    → (ps : List Bytes) × (s' : Stream) × (packetize_unit checks s last stamp unit ≡ ok (ps, s'))
      × Carries s stamp ps (unit_plan (budget s) last unit) s'
unfolding packetize_unit unit_plan
packetize_unit-Carries checks s last stamp [] v hs room h = absurd (omega arith)
packetize_unit-Carries checks s last stamp (first ∷ body) v hs room h =
    elim (le_or_lt (length (first ∷ body)) (budget s)) [
      | inl fits ↦ (
        (packet s last stamp [] (first ∷ body)).0 ∷ [],
        next s,
        rw (le→leb (length (first ∷ body)) (budget s) fits) (unfold packet in refl),
        rw (le→leb (length (first ∷ body)) (budget s) fits) (
            unfold Carries in
            (
              parse-packet s last stamp [] (first ∷ body) v hs,
              packet-fits s last stamp [] (first ∷ body) v (omega arith),
              refl,
            )),
      )
      | inr long ↦
          let (ps, s', e, carries) = fragment-Carries checks s last stamp first body v hs room in
          (
            ps,
            s',
            rw (gt→leb (length (first ∷ body)) (budget s) long) e,
            rw (gt→leb (length (first ∷ body)) (budget s) long) carries,
          )
    ]

pub packetize_loop-Carries :
    (checks : Bool) (s : Stream) (stamp room : ℕ) (nalus : List Nal)
    → IsValid s
    → stamp < 2 ^ 32
    → budget s ≡ room
    → 2 < room
    → All (λ n. 0 < length n.contents) nalus
    → (ps : List Bytes) × (s' : Stream) × (packetize_loop checks s stamp nalus ≡ ok (ps, s'))
      × Carries s stamp ps (plan room nalus) s'
unfolding packetize_loop plan budget
packetize_loop-Carries checks s stamp room [] v hs e h ns = ([], s, refl, unfold Carries in refl)
packetize_loop-Carries checks s stamp room (n ∷ nalus) v hs e h (full, ns) =
    let (ps, s₁, done, carries) =
      packetize_unit-Carries checks s (is_empty nalus) stamp n.contents v hs (omega arith) full in
    let (v₁, same) =
      Carries-stream s s₁ stamp ps (unit_plan (budget s) (is_empty nalus) n.contents) v carries in
    let e₁ : budget s₁ ≡ room = ap (λ m. m - header_size) same ∙ e in
    let (qs, s₂, done', carries') =
      packetize_loop-Carries checks s₁ stamp room nalus v₁ hs e₁ h ns in
    (
      ps ++ qs,
      s₂,
      rw (done, done'),
      Carries-append s s₁ s₂ stamp ps qs _ (plan room nalus) (rw e at carries) carries',
    )
