-- ===== src/Rtmp/Chunk/RoundTrip.antt =====
-- What a `Writer` of src/rtmp/chunk.rs writes, a `Reader` in step with it reads back.
use relaybay.Base.{ℕ, zero, suc, ◌+◌, ◌<◌, ◌≤◌, ◌≡◌, refl, sym, ap, ◌∙◌}
use relaybay.Base.{eqb, Option, none, some, List, [], ◌++◌, Bytes, arith}
use relaybay.Base.{length, Bool-cases, inl, inr, length-append, append_assoc, take, drop, is_empty}
use relaybay.Base.{get, insert, get-insert, nat_eq, ge→ltb, length-insert_new, length-insert_old}
use relaybay.Base.{length-drop, length-take, is_empty→pos, is_empty→length, Option-cases}
use mathlib.Core.Option
use relaybay.Rtmp.Chunk.Types.{
  Message, State, ChunkStream, ok, max_message_length, max_chunk_streams,
}
use relaybay.Rtmp.Chunk.Header.{put_basic_header, read_basic_header-put}
use relaybay.Rtmp.Chunk.Reader.{Reader, apply, accept, read_chunk, read, held_by}
use relaybay.Rtmp.Chunk.Writer.{
  Writer, choose_format, extension, put_fields, put_chunks, state_of, write_as, write,
}
use relaybay.Rtmp.Chunk.Fields.{IsWritable}
use relaybay.Rtmp.Chunk.Opening.{idle, IsRepeatable, refusal-idle, parse_opening}
use relaybay.Rtmp.Chunk.Chunks.{with_stream, read_chunk_eq, between, read_loop-put_chunks}

-- The ids that `ChunkStreamId::new` admits.
abbrev pub IsChunkStreamId : ℕ → Type 0
IsChunkStreamId i = (2 ≤ i) × (i ≤ 65599)

-- Both ends know the same of every chunk stream, and the reader holds no part of a message.
pub record IsInStep (w : Writer) (r : Reader) : Type 0 where
  pub sizes : r.chunk_size ≡ w.chunk_size
  pub moves : 0 < w.chunk_size
  pub streams : (i : ℕ) → get i r.streams ≡ Option.map idle (get i w.streams)
  pub counts : length r.streams ≡ length w.streams

-- The writer's loop ends: a round takes a byte at least.
pub put_chunks_total :
    (fuel size : ℕ) (b payload : Bytes)
    → 0 < size
    → length payload < fuel
    → (bytes : Bytes) × (put_chunks fuel size b payload ≡ some bytes)
      × (length payload ≤ length bytes)
unfolding put_chunks
put_chunks_total zero size b payload hs h = absurd (omega arith)
put_chunks_total (suc fuel) size b payload hs h =
    let cut = length-take size payload in
    let left = length-drop size payload in
    elim (Bool-cases (is_empty (drop size payload))) [
      | inl done ↦
          (take size payload, rw done, omega (arith, is_empty→length (drop size payload) done))
      | inr more ↦
          let (bytes, e, longer) =
            put_chunks_total fuel size b (drop size payload) hs
              (omega (arith, is_empty→pos (drop size payload) more)) in
          (
            take size payload ++ (b ++ bytes),
            rw (more, e),
            omega (arith, length-append (take size payload) (b ++ bytes), length-append b bytes),
          )
    ]

-- The bytes of one message.
unfoldable pub message_bytes : ℕ → Message → ℕ × ℕ → Bytes → Bytes
message_bytes csid m (fmt, written) chunks =
    put_basic_header fmt csid ++ (put_fields fmt written m ++ chunks)

pub write_eq :
    (w : Writer) (out : Bytes) (csid : ℕ) (m : Message) (chunks : Bytes)
    → length m.payload ≤ max_message_length
    → let (fmt, written) = choose_format (get csid w.streams) m in
      put_chunks
          (length m.payload + 1)
          w.chunk_size
          (put_basic_header 3 csid ++ extension written)
          m.payload
        ≡ some chunks
      → write w out csid m ≡ (
        ok tt,
        record w { streams = insert csid (state_of fmt written m) w.streams },
        out ++ message_bytes csid m (choose_format (get csid w.streams) m) chunks,
      )
unfolding write write_as message_bytes
write_eq w out csid m chunks h e =
    rw (ge→ltb max_message_length (length m.payload) h) (rw (e, write_as))

choose_format_bounds :
    (p : Option State) (m : Message)
    → ((choose_format p m).0 < 4) × ((choose_format p m).1 ≤ m.timestamp)
unfolding choose_format
choose_format_bounds none m = omega arith
choose_format_bounds (some p) m = ground arith

held_by-idle : (p : Option State) → held_by (Option.map idle p) ≡ []
held_by-idle none = refl
held_by-idle (some p) = refl

-- The first chunk of a message that `write` put.
read_chunk-opening :
    (r : Reader) (csid : ℕ) (m : Message) (p : Option State) (chunks rest : Bytes)
    → IsChunkStreamId csid
    → IsWritable m
    → IsRepeatable p m
    → get csid r.streams ≡ Option.map idle p
    → (p ≡ none → length r.streams < max_chunk_streams)
    → let (fmt, written) = choose_format p m in
      let front = put_basic_header fmt csid ++ put_fields fmt written m in
      read_chunk r (message_bytes csid m (fmt, written) chunks ++ rest)
      ≡ accept r (front ++ (chunks ++ rest)) csid (state_of fmt written m) (length front) []
unfolding message_bytes
read_chunk-opening r csid m p chunks rest hc hm hr hg room =
    let (fmt, written) = choose_format p m in
    let h = put_basic_header fmt csid in
    let fields = put_fields fmt written m in
    let after = chunks ++ rest in
    let e₁ : (h ++ (fields ++ chunks)) ++ rest ≡ h ++ (fields ++ after) = simp append_assoc in
    let e₂ : (h ++ fields) ++ after ≡ h ++ (fields ++ after) = append_assoc h fields after in
    rw (e₁, e₂, length-append h fields, ← held_by-idle p)
      (read_chunk_eq r (h ++ (fields ++ after)) fmt csid (length h) (length h + length fields)
        (Option.map idle p) (state_of fmt written m)
        (read_basic_header-put fmt csid (fields ++ after) (choose_format_bounds p m).0 hc.0 hc.1) hg
        (refusal-idle p m csid (length r.streams) room) (parse_opening h after m hm p hr))

length-message_bytes :
    (csid : ℕ) (m : Message) (c : ℕ × ℕ) (chunks : Bytes)
    → length chunks ≤ length (message_bytes csid m c chunks)
unfolding message_bytes
length-message_bytes csid m (fmt, written) chunks =
    let h = put_basic_header fmt csid in
    let fields = put_fields fmt written m in
    omega (arith, length-append h (fields ++ chunks), length-append fields chunks)

-- The same insertion at both ends keeps them alike.
insert-idle :
    (csid i : ℕ) (p : State) (ws : List (ℕ × State)) (rs : List (ℕ × ChunkStream))
    → get i rs ≡ Option.map idle (get i ws)
    → get i (insert csid (idle p) rs) ≡ Option.map idle (get i (insert csid p ws))
insert-idle csid i p ws rs h =
    rw (get-insert i csid (idle p) rs, get-insert i csid p ws)
      (elim (Bool-cases (eqb csid i)) [ inl same ↦ rw same | inr other ↦ rw other h ])

insert-counts :
    (csid : ℕ) (p : State) (ws : List (ℕ × State)) (rs : List (ℕ × ChunkStream))
    → get csid rs ≡ Option.map idle (get csid ws)
    → length rs ≡ length ws
    → length (insert csid (idle p) rs) ≡ length (insert csid p ws)
insert-counts csid p ws rs h hl = elim (Option-cases (get csid ws)) [
  | inl new ↦
      length-insert_new csid (idle p) rs (rw new at h)
      ∙ ap suc hl
      ∙ sym (length-insert_new csid p ws new)
  | inr (old, e) ↦
      length-insert_old csid (idle p) (idle old) rs (rw e at h)
      ∙ hl
      ∙ sym (length-insert_old csid p old ws e)
]

abbrev pub format_of : Writer → ℕ → Message → ℕ × ℕ
format_of w csid m = choose_format (get csid w.streams) m

abbrev pub sent : Writer → ℕ → Message → State
sent w csid m = state_of (format_of w csid m).0 (format_of w csid m).1 m

-- The two ends behind a message.
abbrev pub writer_after : Writer → ℕ → Message → Writer
writer_after w csid m = record w { streams = insert csid (sent w csid m) w.streams }

abbrev pub reader_after : Writer → Reader → ℕ → Message → Reader
reader_after w r csid m = with_stream r csid (sent w csid m) []

module _ (w : Writer) (r : Reader) (csid : ℕ) (m : Message) (hc : IsChunkStreamId csid)
    (hm : IsWritable m) (s : IsInStep w r) (hr : IsRepeatable (get csid w.streams) m)
    (room : get csid w.streams ≡ none → length w.streams < max_chunk_streams) where
  pub read_written :
      (chunks rest : Bytes) (r' : Reader)
      → put_chunks
          (length m.payload + 1)
          w.chunk_size
          (put_basic_header 3 csid ++ extension (format_of w csid m).1)
          m.payload
        ≡ some chunks
      → length m.payload ≤ length chunks
      → apply (reader_after w r csid m) m.kind m ≡ (ok tt, r')
      → read r (message_bytes csid m (format_of w csid m) chunks ++ rest) ≡ (ok (some m), r', rest)
  unfolding read between message_bytes
  read_written chunks rest r' e longer done =
      let front =
        put_basic_header (format_of w csid m).0 csid
        ++ put_fields (format_of w csid m).0 (format_of w csid m).1 m in
      read_loop-put_chunks csid (format_of w csid m).1 (sent w csid m) w.chunk_size hc.0 hc.1
        (omega (arith, hm.timestamp_fits, (choose_format_bounds (get csid w.streams) m).1)) refl
        hm.payload_fits s.moves (length m.payload + 1) _ m.payload [] chunks rest _ r r' e s.sizes
        (omega arith)
        (omega (
          arith,
          length-append (message_bytes csid m (format_of w csid m) chunks) rest,
          length-message_bytes csid m (format_of w csid m) chunks,
        ))
        (
          front,
          read_chunk-opening r csid m (get csid w.streams) chunks rest hc hm hr (s.streams csid)
              (λ e. omega (arith, s.counts, room e)),
        )
        done

  pub IsInStep-after : IsInStep (writer_after w csid m) (reader_after w r csid m)
  IsInStep-after = record {
    sizes = s.sizes;
    moves = s.moves;
    streams = λ i. insert-idle csid i (sent w csid m) w.streams r.streams (s.streams i);
    counts = insert-counts csid (sent w csid m) w.streams r.streams (s.streams csid) s.counts;
  }
