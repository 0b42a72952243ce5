-- ===== src/Rtmp/Chunk/Fields.antt =====
-- The fields of a chunk header read back: each format of `put_fields` through `parse_header`.
use relaybay.Base.{ℕ, ◌+◌, ◌%◌, ◌^◌, ◌<◌, ◌≤◌, ◌≡◌, refl, sym, ap, ◌∙◌}
use relaybay.Base.{eqb, leb, if◌then◌else◌, some, [], ◌∷◌, ◌++◌, Bytes}
use relaybay.Base.{length, slice, from_be, from_le, to_be, to_le, take_at, take_at_of_eq, arith}
use mathlib.Core.Path.{ap₂}
use relaybay.Base.{Bool-cases, inl, inr, length-append, append_assoc, from_be-to_be, length-to_be}
use relaybay.Rtmp.Chunk.Types.{
  Message, State, from_id, id, extended_timestamp, max_assembled_length,
}
use relaybay.Rtmp.Chunk.Header.{take_u32, put_u24}
use relaybay.Rtmp.Chunk.Reader.{
  ready, read_time, format_0, format_1_2, format_3, state_0, state_1_2, repeated,
}
use relaybay.Rtmp.Chunk.Writer.{time_field, extension, put_fields, state_of}

-- A message whose parts fit their fields, with a type that has one number.
pub record IsWritable (m : Message) : Type 0 where
  pub timestamp_fits : m.timestamp < 2 ^ 32
  pub stream_id_fits : m.stream_id < 2 ^ 32
  pub kind_fits : id m.kind < 256
  pub kind_known : from_id (id m.kind) ≡ m.kind
  pub payload_fits : length m.payload ≤ max_assembled_length

take_u32-put :
    (bs front rest : Bytes) (v pos : ℕ)
    → bs ≡ front ++ (to_be 4 v ++ rest)
    → pos ≡ length front
    → v < 2 ^ 32
    → take_u32 bs pos ≡ some (v, pos + 4)
unfolding take_u32
take_u32-put bs front rest v pos e hp hv = rw (
  take_at_of_eq bs front (to_be 4 v) rest pos 4 e hp (sym (length-to_be 4 v)),
  from_be-to_be 4 v hv,
)

u24_value : (v : ℕ) → v < 2 ^ 24 → from_be (put_u24 v) ≡ v
unfolding from_be put_u24
u24_value v h = omega arith

time_field-eq :
    (written : ℕ) → eqb (time_field written) extended_timestamp ≡ leb extended_timestamp written
time_field-eq written = ground arith

read_time-put :
    (bs front rest : Bytes) (written pos : ℕ)
    → bs ≡ front ++ (extension written ++ rest)
    → pos ≡ length front
    → written < 2 ^ 32
    → read_time bs (time_field written) pos ≡ some (written, pos + length (extension written))
unfolding read_time extension
read_time-put bs front rest written pos e hp hw =
    elim (Bool-cases (leb extended_timestamp written)) [
      | inl long ↦
          rw (time_field-eq written, long, length-to_be)
            (take_u32-put bs front rest written pos (rw long at e) hp hw)
      | inr fits ↦ rw (time_field-eq written, fits) (ap (λ n. some (written, n)) (omega arith))
    ]

abbrev fields_0 : ℕ → Message → Bytes
fields_0 written m =
    put_u24 (time_field written) ++ (put_u24 (length m.payload) ++ id m.kind ∷ to_le 4 m.stream_id)

abbrev fields_1 : ℕ → Message → Bytes
fields_1 written m = put_u24 (time_field written) ++ (put_u24 (length m.payload) ++ id m.kind ∷ [])

put_fields_0 :
    (written : ℕ) (m : Message) (rest : Bytes)
    → put_fields 0 written m ++ rest ≡ fields_0 written m ++ (extension written ++ rest)
unfolding put_fields
put_fields_0 written m rest = simp append_assoc

put_fields_1 :
    (written : ℕ) (m : Message) (rest : Bytes)
    → put_fields 1 written m ++ rest ≡ fields_1 written m ++ (extension written ++ rest)
unfolding put_fields
put_fields_1 written m rest = simp append_assoc

put_fields_2 :
    (written : ℕ) (m : Message) (rest : Bytes)
    → put_fields 2 written m ++ rest ≡ put_u24 (time_field written) ++ (extension written ++ rest)
unfolding put_fields
put_fields_2 written m rest = simp append_assoc

time_field-lt : (written : ℕ) → time_field written < 2 ^ 24
time_field-lt written = ground arith

-- What the slices of the eleven fixed bytes stand for.
fields_0_values :
    (written : ℕ) (m : Message)
    → length m.payload < 2 ^ 24
    → m.stream_id < 2 ^ 32
    → (length (fields_0 written m) ≡ 11)
      × (from_be (slice 0 3 (fields_0 written m)) ≡ time_field written)
      × (from_be (slice 3 6 (fields_0 written m)) ≡ length m.payload)
      × (from_be (slice 6 7 (fields_0 written m)) ≡ id m.kind)
      × (from_le (slice 7 11 (fields_0 written m)) ≡ m.stream_id)
unfolding put_u24 from_be from_le to_le
fields_0_values written m hl hs = (
  refl,
  u24_value (time_field written) (time_field-lt written),
  u24_value (length m.payload) hl,
  omega arith,
  omega arith,
)

fields_1_values :
    (written : ℕ) (m : Message)
    → length m.payload < 2 ^ 24
    → (length (fields_1 written m) ≡ 7)
      × (from_be (slice 0 3 (fields_1 written m)) ≡ time_field written)
      × (from_be (slice 3 6 (fields_1 written m)) ≡ length m.payload)
      × (from_be (slice 6 7 (fields_1 written m)) ≡ id m.kind)
unfolding put_u24 from_be
fields_1_values written m hl = (
  refl,
  u24_value (time_field written) (time_field-lt written),
  u24_value (length m.payload) hl,
  omega arith,
)

-- The two reads of a header: its fixed fields, then its time.
format_0_eq :
    (bs fields : Bytes) (pos end time : ℕ)
    → take_at bs pos 11 ≡ some (fields, pos + 11)
    → read_time bs (from_be (slice 0 3 fields)) (pos + 11) ≡ some (time, end)
    → format_0 bs pos ≡ state_0 fields (some (time, end))
unfolding format_0
format_0_eq bs fields pos end time e e' = ground arith

format_1_2_eq :
    (fmt count : ℕ) (bs fields : Bytes) (previous : State) (pos end time : ℕ)
    → count ≡ (if eqb fmt 1 then 7 else 3)
    → take_at bs pos count ≡ some (fields, pos + count)
    → read_time bs (from_be (slice 0 3 fields)) (pos + count) ≡ some (time, end)
    → format_1_2 fmt bs pos previous ≡ state_1_2 fmt previous fields (some (time, end))
unfolding format_1_2
format_1_2_eq fmt count bs fields previous pos end time ec e e' = ground arith

length-put_fields_0 :
    (written : ℕ) (m : Message) → length (put_fields 0 written m) ≡ 11 + length (extension written)
unfolding put_fields put_u24 to_be to_le
length-put_fields_0 written m = omega arith

length-put_fields_1 :
    (written : ℕ) (m : Message) → length (put_fields 1 written m) ≡ 7 + length (extension written)
unfolding put_fields put_u24 to_be to_le
length-put_fields_1 written m = omega arith

length-put_fields_2 :
    (written : ℕ) (m : Message) → length (put_fields 2 written m) ≡ 3 + length (extension written)
unfolding put_fields put_u24 to_be to_le
length-put_fields_2 written m = omega arith

module _ (head rest : Bytes) (m : Message) (ok : IsWritable m) (written : ℕ)
    (fits : written < 2 ^ 32) where
  pub format_0-put :
      m.timestamp ≡ written
      → format_0 (head ++ (put_fields 0 written m ++ rest)) (length head)
        ≡ ready (state_of 0 written m) (length head + length (put_fields 0 written m))
  format_0-put et =
      let bs = head ++ (put_fields 0 written m ++ rest) in
      let fields = fields_0 written m in
      let e : bs ≡ head ++ (fields ++ (extension written ++ rest)) =
        ap (λ t. head ++ t) (put_fields_0 written m rest) in
      let v = fields_0_values written m (omega (arith, ok.payload_fits)) ok.stream_id_fits in
      format_0_eq bs fields (length head) (length head + 11 + length (extension written)) written
        (take_at_of_eq bs head fields (extension written ++ rest) (length head) 11 e refl (sym v.0))
        (rw v.1 (
          read_time-put bs (head ++ fields) rest written (length head + 11)
            (e ∙ sym (append_assoc head fields (extension written ++ rest)))
            (omega (arith, length-append head fields, v.0)) fits))
      ∙ unfold state_0 in
        rw (v.1, v.2, v.3, v.4, ok.kind_known, time_field-eq written)
          (ap₂ ready (λ i. record (state_of 0 written m) { timestamp = sym et i })
            (omega (arith, length-put_fields_0 written m)))

  pub format_1-put :
      (p : State)
      → p.timestamp + written ≡ m.timestamp
      → p.stream_id ≡ m.stream_id
      → format_1_2 1 (head ++ (put_fields 1 written m ++ rest)) (length head) p
        ≡ ready (state_of 1 written m) (length head + length (put_fields 1 written m))
  format_1-put p et es =
      let bs = head ++ (put_fields 1 written m ++ rest) in
      let fields = fields_1 written m in
      let e : bs ≡ head ++ (fields ++ (extension written ++ rest)) =
        ap (λ t. head ++ t) (put_fields_1 written m rest) in
      let v = fields_1_values written m (omega (arith, ok.payload_fits)) in
      format_1_2_eq 1 7 bs fields p (length head) (length head + 7 + length (extension written))
        written refl
        (take_at_of_eq bs head fields (extension written ++ rest) (length head) 7 e refl (sym v.0))
        (rw v.1 (
          read_time-put bs (head ++ fields) rest written (length head + 7)
            (e ∙ sym (append_assoc head fields (extension written ++ rest)))
            (omega (arith, length-append head fields, v.0)) fits))
      ∙ unfold state_1_2 in
        rw (v.1, v.2, v.3, ok.kind_known, time_field-eq written, es)
          (ap₂ ready (λ i. record (state_of 1 written m) { timestamp = wraps p et i })
            (omega (arith, length-put_fields_1 written m)))
    where
      wraps :
          (p : State)
          → p.timestamp + written ≡ m.timestamp
          → (p.timestamp + written) % 2 ^ 32 ≡ m.timestamp
      wraps p et = omega (arith, ok.timestamp_fits)

  pub format_2-put :
      (p : State)
      → p.timestamp + written ≡ m.timestamp
      → p.stream_id ≡ m.stream_id
      → p.length ≡ length m.payload
      → p.kind ≡ m.kind
      → format_1_2 2 (head ++ (put_fields 2 written m ++ rest)) (length head) p
        ≡ ready (state_of 2 written m) (length head + length (put_fields 2 written m))
  format_2-put p et es el ek =
      let bs = head ++ (put_fields 2 written m ++ rest) in
      let fields = put_u24 (time_field written) in
      let e : bs ≡ head ++ (fields ++ (extension written ++ rest)) =
        ap (λ t. head ++ t) (put_fields_2 written m rest) in
      let value : from_be (slice 0 3 fields) ≡ time_field written =
        unfold put_u24 to_be in u24_value (time_field written) (time_field-lt written) in
      format_1_2_eq 2 3 bs fields p (length head) (length head + 3 + length (extension written))
        written refl
        (take_at_of_eq bs head fields (extension written ++ rest) (length head) 3 e refl
          (unfold put_u24 to_be in refl))
        (rw value (
          read_time-put bs (head ++ fields) rest written (length head + 3)
            (e ∙ sym (append_assoc head fields (extension written ++ rest)))
            (unfold put_u24 to_be in omega (arith, length-append head fields)) fits))
      ∙ unfold state_1_2 in
        rw (value, time_field-eq written, es, el, ek)
          (ap₂ ready (λ i. record (state_of 2 written m) { timestamp = wraps p et i })
            (omega (arith, length-put_fields_2 written m)))
    where
      wraps :
          (p : State)
          → p.timestamp + written ≡ m.timestamp
          → (p.timestamp + written) % 2 ^ 32 ≡ m.timestamp
      wraps p et = omega (arith, ok.timestamp_fits)

-- The four bytes behind a repeated header, read past where the stream's last header had them.
pub format_3-put :
    (head rest : Bytes) (p : State) (written pending : ℕ)
    → written < 2 ^ 32
    → p.extended ≡ leb extended_timestamp written
    → format_3 (head ++ (extension written ++ rest)) (length head) p pending
      ≡ ready (repeated p pending) (length head + length (extension written))
unfolding format_3 extension
format_3-put head rest p written pending hw he =
    elim (Bool-cases (leb extended_timestamp written)) [
      | inl long ↦ simp (
        he,
        long,
        length-to_be,
        take_u32-put (head ++ (to_be 4 written ++ rest)) head rest written (length head) refl refl
            hw,
      )
      | inr fits ↦ simp (he, fits) (ap (ready (repeated p pending)) (omega arith))
    ]
