-- ===== src/Rtmp/Chunk/Advance.antt =====
-- How far the header parser of src/rtmp/chunk.rs gets in a buffer, on any bytes at all.
use relaybay.Base.{ℕ, ◌≤◌, ◌≡◌, refl}
use relaybay.Base.{false, eqb, if◌then◌else◌, Option, none, some, Bytes}
use relaybay.Base.{length, arith, Bool-cases, inl, inr}
use relaybay.Base.{nat_eq, Option-cases}
use relaybay.Base.{take_at, slice, from_be}
use native.Mathlib.Nat.{le_trans}
use relaybay.Rtmp.Chunk.Types.{State, ChunkStream, max_assembled_length}
use relaybay.Rtmp.Chunk.Header.{take_u32}
use relaybay.Rtmp.Chunk.Reader.{
  Parsed, ready, short, unexpected, refusal, format_0, format_1_2, format_3, state_0, state_1_2,
  read_time, repeated, parse_header, previous_of, held_by,
}

-- A chunk stream holds no more of a message than the message has, and no message is over the limit.
pub record IsBounded (s : ChunkStream) : Type 0 where
  pub within : s.state.length ≤ max_assembled_length
  pub held : length s.payload ≤ s.state.length

take_at-end :
    (bs field : Bytes) (pos count end : ℕ) → take_at bs pos count ≡ some (field, end) → pos ≤ end
unfolding take_at
take_at-end bs field pos count end e = ground arith

take_u32-end : (bs : Bytes) (pos v end : ℕ) → take_u32 bs pos ≡ some (v, end) → pos ≤ end
unfolding take_u32
take_u32-end bs pos v end e = elim (Option-cases (take_at bs pos 4)) [
  | inl missing ↦ absurd (ground arith)
  | inr ((f, p), e') ↦ ground (arith, take_at-end bs f pos 4 p e')
]

read_time-end :
    (bs : Bytes) (written pos time end : ℕ)
    → read_time bs written pos ≡ some (time, end)
    → pos ≤ end
unfolding read_time
read_time-end bs written pos time end e = ground (arith, take_u32-end bs pos time end)

-- A header read from `pos` ends behind it, and the message is as long as what is held of it.
abbrev pub Advances : ℕ → ℕ → Parsed → Type 0
Advances pos held (ready state end) = (pos ≤ end) × (held ≤ state.length)
Advances pos held short = Unit {0}
Advances pos held unexpected = ⊥

state_0-Advances :
    (fields : Bytes) (t : Option (ℕ × ℕ)) (pos : ℕ)
    → ((time end : ℕ) → t ≡ some (time, end) → pos ≤ end)
    → Advances pos 0 (state_0 fields t)
unfolding state_0
state_0-Advances fields none pos h = tt
state_0-Advances fields (some (time, end)) pos h = (h time end refl, omega arith)

state_1_2-Advances :
    (fmt : ℕ) (previous : State) (fields : Bytes) (t : Option (ℕ × ℕ)) (pos : ℕ)
    → ((time end : ℕ) → t ≡ some (time, end) → pos ≤ end)
    → Advances pos 0 (state_1_2 fmt previous fields t)
unfolding state_1_2
state_1_2-Advances fmt previous fields none pos h = tt
state_1_2-Advances fmt previous fields (some (time, end)) pos h = (h time end refl, omega arith)

format_0-Advances : (bs : Bytes) (pos : ℕ) → Advances pos 0 (format_0 bs pos)
format_0-Advances bs pos = elim (Option-cases (take_at bs pos 11)) [
  | inl e ↦ unfold format_0 in rw (e, format_0) tt
  | inr ((fields, p), e) ↦
      let after =
        λ (time end : ℕ) (e' : read_time bs (from_be (slice 0 3 fields)) p ≡ some (time, end)).
          le_trans (take_at-end bs fields pos 11 p e) (read_time-end bs _ p time end e') in
      unfold format_0 in rw (e, format_0) (state_0-Advances fields _ pos after)
]

format_1_2-Advances :
    (fmt : ℕ) (bs : Bytes) (pos : ℕ) (s : State) → Advances pos 0 (format_1_2 fmt bs pos s)
format_1_2-Advances fmt bs pos s =
    let count : ℕ = if eqb fmt 1 then 7 else 3 in
    elim (Option-cases (take_at bs pos count)) [
      | inl e ↦ unfold format_1_2 in rw (e, format_1_2) tt
      | inr ((fields, p), e) ↦
          let after =
            λ (time end : ℕ) (e' : read_time bs (from_be (slice 0 3 fields)) p ≡ some (time, end)).
              le_trans (take_at-end bs fields pos count p e) (read_time-end bs _ p time end e') in
          unfold format_1_2 in rw (e, format_1_2) (state_1_2-Advances fmt s fields _ pos after)
    ]

pub length-repeated : (s : State) (pending : ℕ) → (repeated s pending).length ≡ s.length
unfolding repeated
length-repeated s pending = ground arith

format_3-Advances :
    (bs : Bytes) (pos : ℕ) (s : State) (pending : ℕ)
    → pending ≤ s.length
    → Advances pos pending (format_3 bs pos s pending)
unfolding format_3
format_3-Advances bs pos s pending h = elim (Bool-cases s.extended) [
  | inr plain ↦ simp plain (omega arith, omega (arith, length-repeated s pending))
  | inl long ↦ elim (Option-cases (take_u32 bs pos)) [
    | inl e ↦ simp (long, e) tt
    | inr ((v, end), e) ↦
        simp (long, e) (take_u32-end bs pos v end e, omega (arith, length-repeated s pending))
  ]
]

-- The guard before the header leaves only headers that can be read: the first `expect` cannot fail,
-- and neither can the subtraction of what is held.
pub parse_header-Advances :
    (stream : Option ChunkStream) (buf : Bytes) (fmt csid pos n : ℕ)
    → ((s : ChunkStream) → stream ≡ some s → IsBounded s)
    → refusal (previous_of stream) fmt csid n ≡ none
    → Advances pos (length (held_by stream)) (parse_header fmt buf pos (previous_of stream))
unfolding refusal parse_header
parse_header-Advances none buf fmt csid pos n h e = elim (Bool-cases (eqb fmt 0)) [
  | inl zeroth ↦ rw zeroth (format_0-Advances buf pos)
  | inr other ↦ absurd (ground arith)
]
parse_header-Advances (some s) buf fmt csid pos n h e = elim (Bool-cases (eqb fmt 0)) [
  | inl f0 ↦ rw (f0, no_held (ground arith)) (format_0-Advances buf pos)
  | inr n0 ↦ elim (Bool-cases (eqb fmt 1)) [
    | inl f1 ↦ rw (n0, f1, no_held (ground arith)) (format_1_2-Advances 1 buf pos s.state)
    | inr n1 ↦ elim (Bool-cases (eqb fmt 2)) [
      | inl f2 ↦ rw (n0, n1, f2, no_held (ground arith)) (format_1_2-Advances 2 buf pos s.state)
      | inr n2 ↦
          rw (n0, n1, n2) (format_3-Advances buf pos s.state (length s.payload) (h s refl).held)
    ]
  ]
]
  where
    no_held : eqb fmt 3 ≡ false → length s.payload ≡ 0
    no_held f = ground arith
