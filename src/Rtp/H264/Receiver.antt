-- ===== src/Rtp/H264/Receiver.antt =====
-- A receiver of the packets of src/rtp/h264.rs: single units and FU-A fragments as RFC 6184 has them.
-- The other packets of RFC 6184 are refused.
use relaybay.Base.{ℕ, ◌+◌, ◌*◌, ◌/◌, ◌%◌, Bool, eqb, leb, ◌&&◌, if◌then◌else◌}
use relaybay.Base.{Option, none, some, List, [], ◌∷◌, ◌++◌, Bytes}
use mathlib.Core.Option
use relaybay.Rtp.H264.{fu_a}

-- What is held of a unit that has begun and not ended.
abbrev pub Pending : Type 0
Pending = Option Bytes

-- One fragment: the header byte is rebuilt at the start, and the end completes the unit.
unfoldable pub join_fragment : ℕ → ℕ → Bytes → Pending → Option Bytes
join_fragment above below piece none =
    if eqb (below / 128) 0 then none else some ((above / 32 * 32 + below % 32) ∷ piece)
join_fragment above below piece (some held) =
    if eqb (below / 128) 0 then some (held ++ piece) else none

-- What a payload completes, and what is then held.
unfoldable pub finish_fragment : ℕ → Bytes → Option Bytes × Pending
finish_fragment below unit = if eqb (below / 64 % 2) 0 then (none, some unit) else (some unit, none)

unfoldable pub unpack_fragment : Pending → ℕ → Bytes → Option (Option Bytes × Pending)
unfolding join_fragment finish_fragment
unpack_fragment pending above [] = none
unpack_fragment pending above (below ∷ piece) =
    Option.map (finish_fragment below) (join_fragment above below piece pending)

unfoldable pub unpack_whole : Pending → Bytes → Option (Option Bytes × Pending)
unpack_whole none unit = some (some unit, none)
unpack_whole (some held) unit = none

-- RFC 6184, section 5.2: the type in a header byte that is one NAL unit, whole.
unfoldable pub is_single : ℕ → Bool
is_single header = leb 1 (header % 32) && leb (header % 32) 23

unfoldable pub unpack_typed : Pending → ℕ → Bytes → Option (Option Bytes × Pending)
unfolding unpack_fragment
unpack_typed pending above [] = none
unpack_typed pending above (below ∷ piece) =
    if is_single below then unpack_fragment pending above (below ∷ piece) else none

-- A payload of any type but a single unit and a fragment of one is refused.
unfoldable pub unpack : Pending → Bytes → Option (Option Bytes × Pending)
unfolding unpack_typed unpack_whole
unpack pending [] = none
unpack pending (b ∷ bs) =
    if eqb (b % 32) fu_a
    then unpack_typed pending b bs
    else if is_single b
    then unpack_whole pending (b ∷ bs)
    else none

abbrev pub prepend : Option Bytes → Option (List Bytes) → Option (List Bytes)
prepend none units = units
prepend (some unit) units = Option.map (λ us. unit ∷ us) units

-- The units of a run of payloads. A unit that is cut short is an error, and so is a fragment of none.
unfoldable pub rebuild : Pending → List Bytes → Option (List Bytes)
rebuild none [] = some []
rebuild (some held) [] = none
rebuild pending (payload ∷ rest) = elim (unpack pending payload) [
  | none ↦ none
  | some (unit, pending') ↦ prepend unit (rebuild pending' rest)
]
