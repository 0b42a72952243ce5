-- ===== src/Rtmp/Chunk/Opening.antt =====
-- The first header of a message: what `write` puts is what `read_chunk` parses.
use relaybay.Base.{ℕ, ◌+◌, ◌-◌, ◌<◌, ◌≡◌, refl, ◌∙◌, subst, not, ◌&&◌, ◌||◌}
use relaybay.Base.{eqb, leb, Option, none, some, [], ◌++◌, Bytes}
use relaybay.Base.{length, arith, Bool-cases, inl, inr}
use mathlib.Core.Path.{ap₂}
use mathlib.Core.Option
use relaybay.Rtmp.Chunk.Types.{
  Message, State, ChunkStream, same_kind, same_kind→eq, extended_timestamp, max_chunk_streams,
}
use relaybay.Rtmp.Chunk.Reader.{ready, refusal, parse_header, repeated, previous_of}
use relaybay.Rtmp.Chunk.Writer.{choose_format, put_fields, state_of}
use relaybay.Rtmp.Chunk.Fields.{IsWritable, format_0-put, format_1-put, format_2-put, format_3-put}

-- A chunk stream between two messages.
abbrev pub idle : State → ChunkStream
idle s = record { state = s; payload = [] }

-- What each format says about the message and the state before it.
pub data Chosen (p : State) (m : Message) : ℕ → ℕ → Type 0 where
  full : Chosen p m 0 m.timestamp
  changed : {d : ℕ} → p.stream_id ≡ m.stream_id → p.timestamp + d ≡ m.timestamp → Chosen p m 1 d
  alike :
      {d : ℕ}
      → p.stream_id ≡ m.stream_id
      → p.timestamp + d ≡ m.timestamp
      → p.length ≡ length m.payload
      → p.kind ≡ m.kind
      → Chosen p m 2 d
  again :
      p.stream_id ≡ m.stream_id
      → p.timestamp + p.delta ≡ m.timestamp
      → p.length ≡ length m.payload
      → p.kind ≡ m.kind
      → Chosen p m 3 p.delta

pub choose_format-Chosen :
    (p : State) (m : Message) → Chosen p m (choose_format (some p) m).0 (choose_format (some p) m).1
unfolding choose_format
choose_format-Chosen p m =
    elim (Bool-cases (eqb p.stream_id m.stream_id && leb p.timestamp m.timestamp)) [
      | inr fresh ↦ rw fresh full
      | inl same ↦
          let ids : p.stream_id ≡ m.stream_id = ground arith in
          let later : p.timestamp + (m.timestamp - p.timestamp) ≡ m.timestamp = ground arith in
          rw same
            (elim (Bool-cases
              (not (eqb p.length (length m.payload)) || not (same_kind p.kind m.kind))) [
                | inl differs ↦ rw differs (changed ids later)
                | inr equal ↦
                    let lengths : p.length ≡ length m.payload = ground arith in
                    let kinds : p.kind ≡ m.kind = same_kind→eq _ _ (ground arith) in
                    rw equal (elim (Bool-cases (eqb p.delta (m.timestamp - p.timestamp))) [
                      | inr step ↦ rw step (alike ids later lengths kinds)
                      | inl same_step ↦
                          let step : p.delta ≡ m.timestamp - p.timestamp = ground arith in
                          rw same_step
                            (subst (Chosen p m 3) step (again ids (rw step later) lengths kinds))
                    ])
              ])
    ]

-- Format 3 is what a continuation looks like too, so the reader takes the four bytes behind it from
-- the stream's last header. It reads the writer's bytes where the two agree on them.
abbrev pub IsRepeatable : Option State → Message → Type 0
IsRepeatable none m = Unit {0}
IsRepeatable (some p) m =
    (choose_format (some p) m).0 ≡ 3 → p.extended ≡ leb extended_timestamp p.delta

pub refusal-idle :
    (p : Option State) (m : Message) (csid n : ℕ)
    → (p ≡ none → n < max_chunk_streams)
    → refusal (previous_of (Option.map idle p)) (choose_format p m).0 csid n ≡ none
unfolding refusal choose_format
refusal-idle none m csid n h = ground (arith, h refl)
refusal-idle (some p) m csid n h = ground arith

module _ (head rest : Bytes) (m : Message) (ok : IsWritable m) where
  parse_chosen :
      (p : State) (fmt written : ℕ)
      → Chosen p m fmt written
      → (fmt ≡ 3 → p.extended ≡ leb extended_timestamp p.delta)
      → parse_header fmt
          (head ++ (put_fields fmt written m ++ rest))
          (length head)
          (previous_of (some (idle p)))
        ≡ ready (state_of fmt written m) (length head + length (put_fields fmt written m))
  unfolding parse_header
  parse_chosen p fmt written full h = format_0-put head rest m ok m.timestamp ok.timestamp_fits refl
  parse_chosen p fmt written (changed es et) h =
      format_1-put head rest m ok _ (omega (arith, ok.timestamp_fits)) p et es
  parse_chosen p fmt written (alike es et el ek) h =
      format_2-put head rest m ok _ (omega (arith, ok.timestamp_fits)) p et es el ek
  parse_chosen p fmt written (again es et el ek) h =
      unfold put_fields in
      format_3-put head rest p p.delta 0 (omega (arith, ok.timestamp_fits)) (h refl)
      ∙ ap₂ ready (unfold repeated in ground (arith, h refl, ok.timestamp_fits)) refl

  pub parse_opening :
      (p : Option State)
      → IsRepeatable p m
      → parse_header
          (choose_format p m).0
          (head ++ (put_fields (choose_format p m).0 (choose_format p m).1 m ++ rest))
          (length head)
          (previous_of (Option.map idle p))
        ≡ ready
            (state_of (choose_format p m).0 (choose_format p m).1 m)
            (length head + length (put_fields (choose_format p m).0 (choose_format p m).1 m))
  parse_opening none h =
      unfold choose_format parse_header in
      format_0-put head rest m ok m.timestamp ok.timestamp_fits refl
  parse_opening (some p) h = parse_chosen p _ _ (choose_format-Chosen p m) h
