-- ===== src/Rtp/H264/Rebuild.antt =====
-- The payloads that src/rtp/h264.rs makes, put together again by the receiver of `Receiver`.
use relaybay.Base.{ℕ, ◌+◌, ◌-◌, ◌*◌, ◌/◌, ◌%◌, ◌<◌, ◌≤◌, ◌≡◌, refl, sym, ap, ◌∙◌, Bool, true, false}
use relaybay.Base.{
  eqb, not, if◌then◌else◌, Option, none, some, List, [], ◌∷◌, ◌++◌, Bytes, length, arith, All, map,
}
use relaybay.Base.{
  is_empty, append_assoc, append-nil, le→leb, gt→leb, le_or_lt, inl, inr, agree_below,
  agree_below→eq, eqb_iff, ne→eqb,
}
use Prim.Native.Nat.{bit_or}
use mathlib.Core.List.{map-append}
use relaybay.Codec.H264.{Nal}
use relaybay.Rtp.Packets.{payloads}
use relaybay.Rtp.Pieces.{chunks, concat, chunks-Cut, chunks-there}
use relaybay.Rtp.H264.{fu_a, indicator, fragment_header}
use relaybay.Rtp.H264.Receiver.{
  Pending, join_fragment, finish_fragment, unpack_fragment, unpack_whole, is_single, unpack_typed,
  unpack, prepend, rebuild,
}
use relaybay.Rtp.H264.Plan.{pieces_plan, unit_plan, plan}

-- The bits of the two bytes in front of a piece.
indicator_lem : (b : ℕ) → b < 256 → indicator b ≡ b / 32 * 32 + 28
unfolding indicator agree_below
indicator_lem = agree_below→eq _ _ 256 refl

or_both : (t : ℕ) → t < 32 → bit_or 0xc0 t ≡ 0xc0 + t
unfolding agree_below
or_both = agree_below→eq _ _ 32 refl

or_start : (t : ℕ) → t < 32 → bit_or 0x80 t ≡ 0x80 + t
unfolding agree_below
or_start = agree_below→eq _ _ 32 refl

or_end : (t : ℕ) → t < 32 → bit_or 0x40 t ≡ 0x40 + t
unfolding agree_below
or_end = agree_below→eq _ _ 32 refl

or_none : (t : ℕ) → t < 32 → bit_or 0 t ≡ t
unfolding agree_below
or_none = agree_below→eq _ _ 32 refl

-- Start and end stand above the five bits of the type.
header_bits :
    (start end : Bool) (b : ℕ)
    → let h = fragment_header start end b in
      (eqb (h / 128) 0 ≡ not start) × (eqb (h / 64 % 2) 0 ≡ not end) × (h % 32 ≡ b % 32)
unfolding fragment_header
header_bits true true b = ground (arith, or_both (b % 32) (omega arith))
header_bits true false b = ground (arith, or_start (b % 32) (omega arith))
header_bits false true b = ground (arith, or_end (b % 32) (omega arith))
header_bits false false b = ground (arith, or_none (b % 32) (omega arith))

-- What a piece leaves behind: the unit, or more of it.
abbrev left_by : Bool → Bytes → Option Bytes × Pending
left_by end unit = if not end then (none, some unit) else (some unit, none)

-- A byte that is the header of a single unit, by its type.
abbrev IsHeader : ℕ → Type 0
IsHeader b = (b < 256) × (1 ≤ b % 32) × (b % 32 ≤ 23)

is_fragment : (b : ℕ) → b < 256 → eqb (indicator b % 32) fu_a ≡ true
is_fragment b h = (eqb_iff (indicator b % 32) 28).1 (omega (arith, indicator_lem b h))

single_typed : (h b : ℕ) → h % 32 ≡ b % 32 → IsHeader b → is_single h ≡ true
unfolding is_single
single_typed h b e (byte, one, most) =
    rw (le→leb 1 (h % 32) (omega (arith, e)), le→leb (h % 32) 23 (omega (arith, e))) refl

unpack-start :
    (end : Bool) (b : ℕ) (piece : Bytes)
    → IsHeader b
    → unpack none (indicator b ∷ fragment_header true end b ∷ piece)
      ≡ some (left_by end (b ∷ piece))
unfolding unpack unpack_typed unpack_fragment join_fragment finish_fragment
unpack-start end b piece h =
    let (starts, ends, type) = header_bits true end b in
    let whole : indicator b / 32 * 32 + fragment_header true end b % 32 ≡ b =
      omega (arith, indicator_lem b h.0, type) in
    rw (is_fragment b h.0, single_typed (fragment_header true end b) b type h, starts, ends, whole)
      refl

unpack-more :
    (end : Bool) (b : ℕ) (held piece : Bytes)
    → IsHeader b
    → unpack (some held) (indicator b ∷ fragment_header false end b ∷ piece)
      ≡ some (left_by end (held ++ piece))
unfolding unpack unpack_typed unpack_fragment join_fragment finish_fragment
unpack-more end b held piece h =
    let (starts, ends, type) = header_bits false end b in
    rw (is_fragment b h.0, single_typed (fragment_header false end b) b type h, starts, ends) refl

unpack-whole :
    (b : ℕ) (body : Bytes) → IsHeader b → unpack none (b ∷ body) ≡ some (some (b ∷ body), none)
unfolding unpack unpack_whole
unpack-whole b body h =
    rw (ne→eqb (b % 32) fu_a (λ e. omega (arith, h)), single_typed b b refl h) refl

rebuild_step :
    (pending : Pending) (payload : Bytes) (rest : List Bytes) (unit : Option Bytes)
    (pending' : Pending)
    → unpack pending payload ≡ some (unit, pending')
    → rebuild pending (payload ∷ rest) ≡ prepend unit (rebuild pending' rest)
unfolding rebuild
rebuild_step none payload rest unit pending' h = rw (rebuild, h) refl
rebuild_step (some held) payload rest unit pending' h = rw (rebuild, h) refl

-- The pieces after the first join what is held, and the last of them ends the unit.
rebuild-pieces :
    (last : Bool) (b : ℕ) (held piece : Bytes) (pieces : List Bytes) (more : List Bytes)
    → IsHeader b
    → rebuild (some held) (payloads (pieces_plan last false b (piece ∷ pieces)) ++ more)
      ≡ prepend (some (held ++ concat (piece ∷ pieces))) (rebuild none more)
unfolding pieces_plan concat
rebuild-pieces last b held piece [] more h =
    rebuild_step (some held) _ more _ _ (unpack-more true b held piece h)
    ∙ ap (λ u. prepend (some (held ++ u)) (rebuild none more)) (sym (append-nil piece))
rebuild-pieces last b held piece (p ∷ ps) more h =
    rebuild_step (some held) _ _ _ _ (unpack-more false b held piece h)
    ∙ rebuild-pieces last b (held ++ piece) p ps more h
    ∙ ap (λ u. prepend (some u) (rebuild none more)) (append_assoc held piece (concat (p ∷ ps)))

rebuild-cut :
    (last : Bool) (b : ℕ) (pieces : List Bytes) (more : List Bytes)
    → IsHeader b
    → 0 < length pieces
    → rebuild none (payloads (pieces_plan last true b pieces) ++ more)
      ≡ prepend (some (b ∷ concat pieces)) (rebuild none more)
unfolding pieces_plan concat
rebuild-cut last b [] more h there = absurd (omega arith)
rebuild-cut last b (piece ∷ []) more h there =
    rebuild_step none _ more _ _ (unpack-start true b piece h)
    ∙ ap (λ u. prepend (some (b ∷ u)) (rebuild none more)) (sym (append-nil piece))
rebuild-cut last b (piece ∷ p ∷ ps) more h there =
    rebuild_step none _ _ _ _ (unpack-start false b piece h)
    ∙ rebuild-pieces last b (b ∷ piece) p ps more h

-- A unit whose header byte has one of the types 1 to 23, which RFC 6184 leaves to single units.
abbrev pub IsUnit : Bytes → Type 0
IsUnit [] = ⊥
IsUnit (b ∷ bs) = IsHeader b

rebuild-unit :
    (room : ℕ) (last : Bool) (unit : Bytes) (more : List Bytes)
    → 2 < room
    → IsUnit unit
    → rebuild none (payloads (unit_plan room last unit) ++ more)
      ≡ prepend (some unit) (rebuild none more)
unfolding unit_plan
rebuild-unit room last [] more h v = absurd v
rebuild-unit room last (b ∷ body) more h header = elim (le_or_lt (length (b ∷ body)) room) [
  | inl fits ↦
      rw (le→leb (length (b ∷ body)) room fits)
        (rebuild_step none (b ∷ body) more (some (b ∷ body)) none (unpack-whole b body header))
  | inr long ↦
      let cut = chunks-Cut (room - 2) body (omega arith) in
      let e = ap (λ u. prepend (some (b ∷ u)) (rebuild none more)) cut.whole in
      let there = chunks-there (room - 2) body (omega arith) (omega arith) in
      rw (gt→leb (length (b ∷ body)) room long)
        (rebuild-cut last b (chunks (room - 2) body) more header there ∙ e)
]

pub rebuild-plan :
    (room : ℕ) (nalus : List Nal)
    → 2 < room
    → All (λ n. IsUnit n.contents) nalus
    → rebuild none (payloads (plan room nalus)) ≡ some (map (λ n. n.contents) nalus)
unfolding plan rebuild
rebuild-plan room [] h vs = refl
rebuild-plan room (n ∷ nalus) h (v, vs) =
    ap (rebuild none)
      (map-append (λ c. c.1) (unit_plan room (is_empty nalus) n.contents) (plan room nalus))
    ∙ rebuild-unit room (is_empty nalus) n.contents (payloads (plan room nalus)) h v
    ∙ ap (prepend (some n.contents)) (rebuild-plan room nalus h vs)
