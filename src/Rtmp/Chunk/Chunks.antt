-- ===== src/Rtmp/Chunk/Chunks.antt =====
-- The chunks of one message put back together: `put_chunks` through `read_loop`.
use relaybay.Base.{ℕ, zero, suc, ◌+◌, ◌-◌, ◌^◌, ◌<◌, ◌≤◌, ◌≡◌, refl, sym, ap, ◌∙◌}
use relaybay.Base.{leb, Option, none, some, [], ◌∷◌, ◌++◌, Bytes}
use relaybay.Base.{
  length, arith, Bool-cases, inl, inr, length-append, append_assoc, take, drop, min,
}
use relaybay.Base.{take-append, drop-append, length-take, length-drop, take-append-drop, is_empty}
use relaybay.Base.{
  get, insert, get-insert_self, insert-insert, nat_eq, ge→ltb, ne→eqb, eqb_iff, ◌⊎◌, take_all,
  is_empty→length, is_empty→pos, Option-cases, subst,
}
use mathlib.Core.Path.{ap₂}
use relaybay.Rtmp.Chunk.Types.{
  Message, State, ChunkStream, ok, extended_timestamp, max_assembled_length,
}
use relaybay.Rtmp.Chunk.Header.{put_basic_header, read_basic_header, read_basic_header-put}
use relaybay.Rtmp.Chunk.Reader.{
  Reader, absorbed, ready, refusal, parse_header, repeated, apply, deliver, delivered, assemble,
  accept, read_body, after_header, read_chunk, read_loop, message_of, previous_of, held_by,
}
use relaybay.Rtmp.Chunk.Writer.{extension, put_chunks}
use relaybay.Rtmp.Chunk.Fields.{format_3-put}

abbrev pub with_stream : Reader → ℕ → State → Bytes → Reader
with_stream r csid state held = record r {
  streams = insert csid (record { state = state; payload = held }) r.streams;
}

-- A chunk that is all there is cut off the buffer and assembled.
pub accept-append :
    (r : Reader) (csid : ℕ) (state : State) (held front chunk rest : Bytes)
    → state.length ≤ max_assembled_length
    → length held ≤ state.length
    → length chunk ≡ min (state.length - length held) r.chunk_size
    → accept r (front ++ (chunk ++ rest)) csid state (length front) held
      ≡ assemble r csid state held chunk rest
unfolding accept
accept-append r csid state held front chunk rest h1 h2 h3 =
    let total = length-append front (chunk ++ rest) in
    rw (
      ge→ltb max_assembled_length state.length h1,
      ge→ltb state.length (length held) h2,
      ← h3,
      ge→ltb (length (front ++ (chunk ++ rest))) (length front + length chunk)
          (omega (arith, total, length-append chunk rest)),
      drop-append (length front) front (chunk ++ rest) refl,
      take-append (length chunk) chunk rest refl,
      drop-append (length chunk) chunk rest refl,
    )

-- One call of `read_chunk`, by what its parts return.
pub read_chunk-after_header :
    (r : Reader) (buf : Bytes) (fmt csid pos : ℕ) (stream : Option ChunkStream)
    → read_basic_header buf ≡ some (fmt, csid, pos)
    → get csid r.streams ≡ stream
    → refusal (previous_of stream) fmt csid (length r.streams) ≡ none
    → read_chunk r buf
      ≡ after_header r buf csid stream (parse_header fmt buf pos (previous_of stream))
read_chunk-after_header r buf fmt csid pos stream e1 e2 e3 = read_chunk-body ∙ body-after
  where
    read_chunk-body : read_chunk r buf ≡ read_body r buf fmt csid pos stream
    read_chunk-body =
        unfold read_chunk in rw (e1, read_chunk) (ap (read_body r buf fmt csid pos) e2)

    body-after :
        read_body r buf fmt csid pos stream
        ≡ after_header r buf csid stream (parse_header fmt buf pos (previous_of stream))
    body-after = unfold read_body in rw (e3, read_body)

pub read_chunk_eq :
    (r : Reader) (buf : Bytes) (fmt csid pos end : ℕ) (stream : Option ChunkStream) (state : State)
    → read_basic_header buf ≡ some (fmt, csid, pos)
    → get csid r.streams ≡ stream
    → refusal (previous_of stream) fmt csid (length r.streams) ≡ none
    → parse_header fmt buf pos (previous_of stream) ≡ ready state end
    → read_chunk r buf ≡ accept r buf csid state end (held_by stream)
unfolding after_header
read_chunk_eq r buf fmt csid pos end stream state e1 e2 e3 e4 =
    read_chunk-after_header r buf fmt csid pos stream e1 e2 e3
    ∙ ap (after_header r buf csid stream) e4

-- A continuation header: the chunk goes to the message that its chunk stream holds.
pub read_chunk-continue :
    (r : Reader) (csid written : ℕ) (state : State) (held rest : Bytes)
    → 2 ≤ csid
    → csid ≤ 65599
    → written < 2 ^ 32
    → state.extended ≡ leb extended_timestamp written
    → 0 < length held
    → get csid r.streams ≡ some (record { state = state; payload = held })
    → let between = put_basic_header 3 csid ++ extension written in
      read_chunk r (between ++ rest) ≡ accept r (between ++ rest) csid state (length between) held
read_chunk-continue r csid written state held rest lo hi hw he hh hg =
    let h = put_basic_header 3 csid in
    let buf = (h ++ extension written) ++ rest in
    let e = append_assoc h (extension written) rest in
    read_chunk_eq r buf 3 csid (length h) (length (h ++ extension written))
      (some (record { state = state; payload = held })) state
      (rw e (read_basic_header-put 3 csid (extension written ++ rest) (omega arith) lo hi)) hg
      (unfold refusal in refl)
      (unfold parse_header in
        rw e (
          format_3-put h rest state written (length held) hw he
          ∙ ap₂ ready (unfold repeated in ground arith)
              (sym (length-append h (extension written)))))

-- The last chunk of a message delivers it.
assemble_last :
    (r : Reader) (csid : ℕ) (state : State) (held chunk rest : Bytes)
    → length held + length chunk ≡ state.length
    → assemble r csid state held chunk rest
      ≡ deliver (with_stream r csid state []) (message_of state (held ++ chunk)) rest
unfolding assemble
assemble_last r csid state [] chunk rest h =
    rw ((eqb_iff (length chunk) state.length).1 (omega arith))
assemble_last r csid state (b ∷ held) chunk rest h = rw (
    (eqb_iff (length ((b ∷ held) ++ chunk)) state.length).1
      (omega (arith, length-append (b ∷ held) chunk)))

-- Any other is kept.
assemble_more :
    (r : Reader) (csid : ℕ) (state : State) (held chunk rest : Bytes)
    → length held + length chunk < state.length
    → assemble r csid state held chunk rest
      ≡ (ok absorbed, with_stream r csid state (held ++ chunk), rest)
unfolding assemble
assemble_more r csid state [] chunk rest h = rw (ne→eqb (length chunk) state.length (omega arith))
assemble_more r csid state (b ∷ held) chunk rest h = rw (
    ne→eqb (length ((b ∷ held) ++ chunk)) state.length
      (omega (arith, length-append (b ∷ held) chunk)))

read_loop_absorbed :
    (fuel : ℕ) (r r' : Reader) (buf buf' : Bytes)
    → read_chunk r buf ≡ (ok absorbed, r', buf')
    → read_loop (suc fuel) r buf ≡ read_loop fuel r' buf'
unfolding read_loop
read_loop_absorbed fuel r r' buf buf' e = ground arith

read_loop_delivered :
    (fuel : ℕ) (r r₁ r' : Reader) (m : Message) (buf rest : Bytes)
    → read_chunk r buf ≡ deliver r₁ m rest
    → apply r₁ m.kind m ≡ (ok tt, r')
    → read_loop (suc fuel) r buf ≡ (ok (some m), r', rest)
unfolding read_loop deliver delivered
read_loop_delivered fuel r r₁ r' m buf rest e done = ground arith

-- The two ways in which a round of the writer's loop ends.
put_chunks-cases :
    (fuel size : ℕ) (between payload bytes : Bytes)
    → put_chunks (suc fuel) size between payload ≡ some bytes
    → ((length payload ≤ size) × (bytes ≡ payload))
      ⊎ ((more : Bytes) × (size < length payload)
          × (put_chunks fuel size between (drop size payload) ≡ some more)
          × (bytes ≡ take size payload ++ (between ++ more)))
unfolding put_chunks
put_chunks-cases fuel size between payload bytes e =
    elim (Bool-cases (is_empty (drop size payload))) [
      | inl done ↦
          let short : length payload ≤ size =
            omega (arith, length-drop size payload, is_empty→length (drop size payload) done) in
          inl (short, ground (arith, take_all size payload))
      | inr more ↦ inr (elim (Option-cases (put_chunks fuel size between (drop size payload))) [
        | inl stuck ↦ absurd (ground arith)
        | inr (bytes', e') ↦ (
          bytes',
          omega (arith, length-drop size payload, is_empty→pos (drop size payload) more),
          e',
          ground arith,
        )
      ])
    ]

-- What stands between two chunks of a message.
unfoldable pub between : ℕ → ℕ → Bytes
between csid written = put_basic_header 3 csid ++ extension written

-- The rest of a message whose first chunks are held already, or of one that is just beginning.
module _ (csid written : ℕ) (state : State) (size : ℕ) (lo : 2 ≤ csid) (hi : csid ≤ 65599)
    (fits : written < 2 ^ 32) (ext : state.extended ≡ leb extended_timestamp written)
    (short : state.length ≤ max_assembled_length) (moves : 0 < size) where
  -- What has come before, for the next `read_chunk` to go on from.
  abbrev pub Continues : Reader → Bytes → Bytes → Bytes → Type 0
  Continues r buf held bytes =
      (front : Bytes) × (read_chunk r buf
        ≡ accept r (front ++ bytes) csid state (length front) held)

  pub read_loop-put_chunks :
      (fuel spare : ℕ) (payload held bytes rest buf : Bytes) (r r' : Reader)
      → put_chunks fuel size (between csid written) payload ≡ some bytes
      → r.chunk_size ≡ size
      → state.length ≡ length held + length payload
      → fuel ≤ spare
      → Continues r buf held (bytes ++ rest)
      → apply (with_stream r csid state []) state.kind (message_of state (held ++ payload))
        ≡ (ok tt, r')
      → read_loop spare r buf ≡ (ok (some (message_of state (held ++ payload))), r', rest)
  unfolding between put_chunks
  read_loop-put_chunks zero spare payload held bytes rest buf r r' e hs hl hf c done = cc
  read_loop-put_chunks (suc fuel) zero payload held bytes rest buf r r' e hs hl hf c done =
      absurd (omega arith)
  read_loop-put_chunks (suc fuel) (suc spare) payload held bytes rest buf r r' e hs hl hf c done =
      elim (put_chunks-cases fuel size (between csid written) payload bytes e) [
        | inl (all, eb) ↦
            read_loop_delivered spare r _ r' (message_of state (held ++ payload)) buf rest
              (c.1
                ∙ rw eb (
                    accept-append r csid state held c.0 payload rest short (omega arith)
                      (omega arith))
                ∙ assemble_last r csid state held payload rest (omega arith))
              done
        | inr (more, long, em, eb) ↦
            let chunk = take size payload in
            let cut = length-take size payload in
            let left = length-drop size payload in
            let whole : (held ++ chunk) ++ drop size payload ≡ held ++ payload =
              append_assoc held chunk (drop size payload)
              ∙ ap (λ t. held ++ t) (take-append-drop size payload) in
            let r₂ = with_stream r csid state (held ++ chunk) in
            let buf₂ = between csid written ++ (more ++ rest) in
            let step : read_chunk r buf ≡ (ok absorbed, r₂, buf₂) =
              c.1
              ∙ rw
                  (
                    eb,
                    append_assoc chunk (between csid written ++ more) rest,
                    append_assoc (between csid written) more rest,
                  )
                  (accept-append r csid state held c.0 chunk buf₂ short (omega arith) (omega arith))
              ∙ assemble_more r csid state held chunk buf₂ (omega arith) in
            read_loop_absorbed spare r r₂ buf buf₂ step
            ∙ subst (λ t. read_loop spare r₂ buf₂ ≡ (ok (some (message_of state t)), r', rest))
                whole
                (read_loop-put_chunks fuel spare (drop size payload) (held ++ chunk) more rest buf₂
                  r₂ r' em hs (omega (arith, length-append held chunk)) (omega arith)
                  (
                    between csid written,
                    read_chunk-continue r₂ csid written state (held ++ chunk) (more ++ rest) lo hi
                        fits ext (omega (arith, length-append held chunk))
                        (get-insert_self csid _ r.streams),
                  )
                  (rw (whole, insert-insert csid _ _ r.streams) done))
      ]
