-- ===== src/Rtmp/Chunk/Safety.antt =====
-- The reader of src/rtmp/chunk.rs on any bytes at all: its invariant, and that no call of it can fail
-- in a way that is not an error it returns.
use relaybay.Base.{ℕ, ◌+◌, ◌-◌, ◌%◌, ◌^◌, ◌<◌, ◌≤◌, ◌≡◌, ◌≢◌, refl}
use relaybay.Base.{eqb, ltb, Option, none, some, [], ◌∷◌, ◌++◌, Bytes}
use relaybay.Base.{length, arith, Bool-cases, inl, inr, length-append, take, drop, min, length-take}
use relaybay.Base.{length-drop, get, get-insert, nat_eq, Option-cases, length-insert_new}
use relaybay.Base.{length-insert_old, subst, is_empty, ◌&&◌, ge→ltb, some_inj, ◌||◌}
use Prim.Native.String.{String}
use relaybay.Rtmp.Chunk.Types.{
  MessageType, Message, State, ChunkStream, Outcome, ok, err, panic, spent, max_assembled_length,
  max_chunk_streams, max_chunk_size, set_chunk_size, abort,
}
use relaybay.Rtmp.Chunk.Header.{read_basic_header}
use relaybay.Rtmp.Chunk.Reader.{
  Reader, Step, absorbed, need_more, Parsed, ready, short, unexpected, refusal, apply,
  apply_chunk_size, apply_abort, control_u32, deliver, delivered, assemble, accept, read_body,
  after_header, read_chunk, previous_of, held_by,
}
use relaybay.Rtmp.Chunk.Chunks.{with_stream}
use relaybay.Rtmp.Chunk.Advance.{IsBounded, Advances, parse_header-Advances}

pub record IsValid (r : Reader) : Type 0 where
  pub moves : 0 < r.chunk_size
  pub fits : r.chunk_size ≤ max_chunk_size
  pub few : length r.streams ≤ max_chunk_streams
  pub bounded : (i : ℕ) (s : ChunkStream) → get i r.streams ≡ some s → IsBounded s

-- What holds of a call of `read_chunk` and of its parts.
pub record IsSound (r : Reader) (buf : Bytes) (t : Outcome Step × Reader × Bytes) : Type 0 where
  pub valid : IsValid t.1
  pub no_panic : t.0 ≢ panic
  pub ends : t.0 ≢ spent
  pub shrinks : t.0 ≡ ok absorbed → length t.2 < length buf
  pub waits : t.0 ≡ ok need_more → (t.1 ≡ r) × (t.2 ≡ buf)

with_stream-IsValid :
    (r : Reader) (csid : ℕ) (state : State) (held : Bytes)
    → IsValid r
    → (get csid r.streams ≡ none → length r.streams < max_chunk_streams)
    → state.length ≤ max_assembled_length
    → length held ≤ state.length
    → IsValid (with_stream r csid state held)
with_stream-IsValid r csid state held v room h1 h2 = record {
  moves = v.moves;
  fits = v.fits;
  few = elim (Option-cases (get csid r.streams)) [
    | inl new ↦ omega (arith, length-insert_new csid stream r.streams new, room new)
    | inr (old, e) ↦ omega (arith, length-insert_old csid stream old r.streams e, v.few)
  ];
  bounded = λ i s e. elim (Bool-cases (eqb csid i)) [
    | inl same ↦
        let e' : stream ≡ s = some_inj (rw (get-insert i csid stream r.streams, same) at e) in
        subst IsBounded e' (record { within = h1; held = h2 })
    | inr other ↦ v.bounded i s (rw (get-insert i csid stream r.streams, other) at e)
  ];
}
  where
    stream : ChunkStream
    stream = record { state = state; payload = held }

-- Acting on a message fails with an error or keeps the reader valid; it neither panics nor loops.
abbrev Applied : Outcome (Unit {0}) × Reader → Type 0
Applied t = IsValid t.1 × (t.0 ≢ panic) × (t.0 ≢ spent)

control_u32_returns :
    (m : Message) (k : String) → (control_u32 m k ≢ panic) × (control_u32 m k ≢ spent)
unfolding control_u32
control_u32_returns m k = elim (Bool-cases (eqb (length m.payload) 4)) [
  | inl four ↦ rw four ((λ e. cc), λ e. cc)
  | inr other ↦ rw other ((λ e. cc), λ e. cc)
]

apply_chunk_size-Applied :
    (r : Reader) (c : Outcome ℕ)
    → IsValid r
    → (c ≢ panic) × (c ≢ spent)
    → Applied (apply_chunk_size r c)
unfolding apply_chunk_size
apply_chunk_size-Applied r (ok stated) v h =
    elim (Bool-cases (eqb (stated % 2 ^ 31) 0 || ltb max_chunk_size (stated % 2 ^ 31))) [
      | inl bad ↦ rw bad (v, (λ e. cc), λ e. cc)
      | inr good ↦ rw good (
        record { moves = ground arith; fits = ground arith; few = v.few; bounded = v.bounded },
        (λ e. cc),
        λ e. cc,
      )
    ]
apply_chunk_size-Applied r (err e) v h = (v, (λ e. cc), λ e. cc)
apply_chunk_size-Applied r panic v h = absurd (h.0 refl)
apply_chunk_size-Applied r spent v h = absurd (h.1 refl)

apply_abort-Applied :
    (r : Reader) (c : Outcome ℕ) → IsValid r → (c ≢ panic) × (c ≢ spent) → Applied (apply_abort r c)
unfolding apply_abort
apply_abort-Applied r (ok csid) v h = elim (Option-cases (get csid r.streams)) [
  | inl e ↦ rw (e, apply_abort) (v, (λ e. cc), λ e. cc)
  | inr (s, e) ↦
      rw (e, apply_abort)
        (
          with_stream-IsValid r csid s.state [] v (λ e'. absurd (ground arith))
              (v.bounded csid s e).within (omega arith),
          (λ e. cc),
          λ e. cc,
        )
]
apply_abort-Applied r (err e) v h = (v, (λ e. cc), λ e. cc)
apply_abort-Applied r panic v h = absurd (h.0 refl)
apply_abort-Applied r spent v h = absurd (h.1 refl)

apply-Applied : (r : Reader) (k : MessageType) (m : Message) → IsValid r → Applied (apply r k m)
unfolding apply
apply-Applied r set_chunk_size m v = apply_chunk_size-Applied r _ v (control_u32_returns m _)
apply-Applied r abort m v = apply_abort-Applied r _ v (control_u32_returns m _)
apply-Applied r _ m v = (v, (λ e. cc), λ e. cc)

-- A result other than `absorbed` and `need_more`, with a valid reader.
settled :
    {r r' : Reader} {buf buf' : Bytes} {c : Outcome Step}
    → IsValid r'
    → (c ≢ panic) × (c ≢ spent) × (c ≢ ok absorbed) × (c ≢ ok need_more)
    → IsSound r buf (c, r', buf')
settled v h = record {
  valid = v;
  no_panic = h.0;
  ends = h.1;
  shrinks = λ x. absurd (h.2 x);
  waits = λ x. absurd (h.3 x);
}

delivered-IsSound :
    (t : Outcome (Unit {0}) × Reader) (r : Reader) (m : Message) (buf rest : Bytes)
    → Applied t
    → IsSound r buf (delivered t m rest)
unfolding delivered
delivered-IsSound (ok u, r') r m buf rest a = settled a.0 ((λ x. cc), (λ x. cc), (λ x. cc), λ x. cc)
delivered-IsSound (err u, r') r m buf rest a =
    settled a.0 ((λ x. cc), (λ x. cc), (λ x. cc), λ x. cc)
delivered-IsSound (panic, r') r m buf rest a = absurd (a.1 refl)
delivered-IsSound (spent, r') r m buf rest a = absurd (a.2 refl)

deliver-IsSound :
    (r r₀ : Reader) (m : Message) (buf rest : Bytes) → IsValid r → IsSound r₀ buf (deliver r m rest)
unfolding deliver
deliver-IsSound r r₀ m buf rest v =
    delivered-IsSound (apply r m.kind m) r₀ m buf rest (apply-Applied r m.kind m v)

assemble-IsSound :
    (r : Reader) (csid : ℕ) (state : State) (held chunk buf rest : Bytes)
    → IsValid r
    → (get csid r.streams ≡ none → length r.streams < max_chunk_streams)
    → state.length ≤ max_assembled_length
    → length held + length chunk ≤ state.length
    → length rest < length buf
    → IsSound r buf (assemble r csid state held chunk rest)
unfolding assemble
assemble-IsSound r csid state held chunk buf rest v room h1 h2 h3 =
    let empty = with_stream-IsValid r csid state [] v room h1 (omega arith) in
    elim (Bool-cases (is_empty held && eqb (length chunk) state.length)) [
      | inl one ↦ rw one (deliver-IsSound _ r _ buf rest empty)
      | inr several ↦ rw several (elim (Bool-cases (eqb (length (held ++ chunk)) state.length)) [
        | inl last ↦ rw last (deliver-IsSound _ r _ buf rest empty)
        | inr more ↦ rw more (record {
          valid =
              with_stream-IsValid r csid state (held ++ chunk) v room h1
                (omega (arith, length-append held chunk));
          no_panic = λ x. cc;
          ends = λ x. cc;
          shrinks = λ x. h3;
          waits = λ x. cc;
        })
      ])
    ]

accept-IsSound :
    (r : Reader) (buf : Bytes) (csid : ℕ) (state : State) (pos : ℕ) (held : Bytes)
    → IsValid r
    → (get csid r.streams ≡ none → length r.streams < max_chunk_streams)
    → length held ≤ state.length
    → 0 < pos
    → IsSound r buf (accept r buf csid state pos held)
unfolding accept
accept-IsSound r buf csid state pos held v room h hp =
    elim (Bool-cases (ltb max_assembled_length state.length)) [
      | inl over ↦ rw over (settled v ((λ x. cc), (λ x. cc), (λ x. cc), λ x. cc))
      | inr under ↦
          let wanted = min (state.length - length held) r.chunk_size in
          rw (under, ge→ltb state.length (length held) h)
            (elim (Bool-cases (ltb (length buf) (pos + wanted))) [
              | inl missing ↦ rw missing (record {
                valid = v;
                no_panic = λ x. cc;
                ends = λ x. cc;
                shrinks = λ x. cc;
                waits = λ x. (refl, refl);
              })
              | inr there ↦
                  let inside : pos + wanted ≤ length buf = ground arith in
                  rw there (
                    assemble-IsSound r csid state held (take wanted (drop pos buf)) buf
                      (drop wanted (drop pos buf)) v room (ground arith)
                      (omega (arith, length-take wanted (drop pos buf)))
                      (omega
                        (arith, inside, length-drop pos buf, length-drop wanted (drop pos buf))))
            ])
    ]

-- A refusal of the guard apart, room for a new chunk stream is what the guard has checked.
refusal-room :
    (stream : Option ChunkStream) (fmt csid n : ℕ)
    → refusal (previous_of stream) fmt csid n ≡ none
    → stream ≡ none
    → n < max_chunk_streams
unfolding refusal
refusal-room none fmt csid n e h = ground arith
refusal-room (some s) fmt csid n e h = cc

after_header-IsSound :
    (r : Reader) (buf : Bytes) (csid pos : ℕ) (p : Parsed)
    → IsValid r
    → 0 < pos
    → (get csid r.streams ≡ none → length r.streams < max_chunk_streams)
    → Advances pos (length (held_by (get csid r.streams))) p
    → IsSound r buf (after_header r buf csid (get csid r.streams) p)
unfolding after_header
after_header-IsSound r buf csid pos (ready state end) v hp room a =
    accept-IsSound r buf csid state end (held_by (get csid r.streams)) v room a.1
      (omega (arith, a.0))
after_header-IsSound r buf csid pos short v hp room a = record {
  valid = v;
  no_panic = λ x. cc;
  ends = λ x. cc;
  shrinks = λ x. cc;
  waits = λ x. (refl, refl);
}
after_header-IsSound r buf csid pos unexpected v hp room a = absurd a

read_body-IsSound :
    (r : Reader) (buf : Bytes) (fmt csid pos : ℕ)
    → IsValid r
    → 0 < pos
    → IsSound r buf (read_body r buf fmt csid pos (get csid r.streams))
unfolding read_body
read_body-IsSound r buf fmt csid pos v hp =
    let stream = get csid r.streams in
    elim (Option-cases (refusal (previous_of stream) fmt csid (length r.streams))) [
      | inr (u, e) ↦ rw (e, read_body) (settled v ((λ x. cc), (λ x. cc), (λ x. cc), λ x. cc))
      | inl e ↦
          rw (e, read_body)
            (after_header-IsSound r buf csid pos _ v hp
              (refusal-room stream fmt csid (length r.streams) e)
              (parse_header-Advances stream buf fmt csid pos (length r.streams) (v.bounded csid) e))
    ]

read_basic_header-pos :
    (buf : Bytes) {fmt csid pos : ℕ} → read_basic_header buf ≡ some (fmt, csid, pos) → 0 < pos
unfolding read_basic_header
read_basic_header-pos [] e = cc
read_basic_header-pos (a ∷ []) e = ground arith
read_basic_header-pos (a ∷ b ∷ []) e = ground arith
read_basic_header-pos (a ∷ b ∷ c ∷ buf) e = ground arith

pub read_chunk-IsSound : (r : Reader) (buf : Bytes) → IsValid r → IsSound r buf (read_chunk r buf)
unfolding read_chunk
read_chunk-IsSound r buf v = elim (Option-cases (read_basic_header buf)) [
  | inl e ↦
      rw (e, read_chunk)
        (record {
          valid = v;
          no_panic = λ x. cc;
          ends = λ x. cc;
          shrinks = λ x. cc;
          waits = λ x. (refl, refl);
        })
  | inr ((fmt, csid, pos), e) ↦
      rw (e, read_chunk) (read_body-IsSound r buf fmt csid pos v (read_basic_header-pos buf e))
]
