-- ===== src/Rtmp/Chunk/Desync.antt =====
-- Where the writer and the reader of src/rtmp/chunk.rs disagree: a message that repeats everything,
-- the time too, of one whose absolute timestamp stood behind its header.
use relaybay.Base.{ℕ, suc, ◌+◌, ◌-◌, ◌<◌, ◌≤◌, ◌≡◌, refl, ap, ◌∙◌, true}
use relaybay.Base.{
  leb, none, some, [], ◌++◌, Bytes, length, arith, get, nat_eq, min, Bool-cases, inl, inr, ◌⊎◌,
}
use relaybay.Base.{gt→leb, lt→ltb, ge→ltb, take_at, drop_all, take_all, length-append}
use mathlib.Core.Option
use native.Mathlib.Numerals.{add-one}
use relaybay.Rtmp.Chunk.Types.{Message, State, ok, extended_timestamp, max_assembled_length}
use relaybay.Rtmp.Chunk.Header.{put_basic_header, read_basic_header-put, take_u32}
use relaybay.Rtmp.Chunk.Reader.{
  Reader, need_more, ready, short, refusal, parse_header, format_3, repeated, accept, after_header,
  read_chunk, read,
}
use relaybay.Rtmp.Chunk.Writer.{Writer, choose_format, extension, put_fields, put_chunks, write}
use relaybay.Rtmp.Chunk.Opening.{idle, Chosen, full, changed, alike, again, choose_format-Chosen}
use relaybay.Rtmp.Chunk.Advance.{length-repeated}
use relaybay.Rtmp.Chunk.Chunks.{read_chunk-after_header}
use relaybay.Rtmp.Chunk.RoundTrip.{
  IsChunkStreamId, IsInStep, message_bytes, write_eq, format_of, writer_after,
}
use relaybay.Rtmp.Chunk.Total.{read_need_more}

-- A header that states nothing says that the time and the length are the last ones.
repeats :
    (p : State) (m : Message) {fmt written : ℕ}
    → Chosen p m fmt written
    → fmt ≡ 3
    → (written ≡ p.delta) × (p.length ≡ length m.payload)
repeats p m full e = absurd (omega arith)
repeats p m (changed es et) e = absurd (omega arith)
repeats p m (alike es et el ek) e = absurd (omega arith)
repeats p m (again es et el ek) e = (refl, el)

-- The reader looks for four bytes that are not there.
format_3-long :
    (bs : Bytes) (pos held : ℕ) (p : State)
    → p.extended ≡ true
    → (format_3 bs pos p held ≡ short)
      ⊎ (format_3 bs pos p held ≡ ready (repeated p held) (pos + 4))
unfolding format_3 take_u32 take_at
format_3-long bs pos held p h = elim (Bool-cases (leb (pos + 4) (length bs))) [
  | inl enough ↦ inr (simp (h, enough))
  | inr missing ↦ inl (simp (h, missing))
]

accept_waits :
    (r : Reader) (buf : Bytes) (csid : ℕ) (state : State) (pos : ℕ)
    → state.length ≤ max_assembled_length
    → length buf < pos + min state.length r.chunk_size
    → accept r buf csid state pos [] ≡ (ok need_more, r, buf)
unfolding accept
accept_waits r buf csid state pos h1 h2 =
    let whole : state.length - 0 ≡ state.length = omega arith in
    rw (
      ge→ltb max_assembled_length state.length h1,
      ge→ltb state.length 0 (omega arith),
      whole,
      lt→ltb (length buf) (pos + min state.length r.chunk_size) h2,
    )

waits :
    (r : Reader) (csid : ℕ) (p : State) (payload : Bytes)
    → IsChunkStreamId csid
    → get csid r.streams ≡ some (idle p)
    → p.extended ≡ true
    → p.length ≡ length payload
    → length payload ≤ r.chunk_size
    → length payload ≤ max_assembled_length
    → let buf = put_basic_header 3 csid ++ payload in read_chunk r buf ≡ (ok need_more, r, buf)
waits r csid p payload hc hg he hl hs hm =
    let h = put_basic_header 3 csid in
    read_chunk-after_header r (h ++ payload) 3 csid (length h) (some (idle p))
      (read_basic_header-put 3 csid payload (omega arith) hc.0 hc.1) hg (unfold refusal in refl)
    ∙ unfold parse_header in
      elim (format_3-long (h ++ payload) (length h) 0 p he) [
        | inl e ↦ rw e (unfold after_header in refl)
        | inr e ↦ rw e (
            unfold after_header in
            accept_waits r (h ++ payload) csid (repeated p 0) (length h + 4)
              (omega (arith, length-repeated p 0))
              (omega (arith, length-repeated p 0, length-append h payload)))
      ]

put_chunks_one :
    (fuel size : ℕ) (between payload : Bytes)
    → length payload ≤ size
    → put_chunks (suc fuel) size between payload ≡ some payload
unfolding put_chunks
put_chunks_one fuel size between payload h = rw (drop_all size payload h, take_all size payload h)

bare_bytes :
    (csid : ℕ) (m : Message) (c : ℕ × ℕ)
    → c.0 ≡ 3
    → c.1 < extended_timestamp
    → message_bytes csid m c m.payload ≡ put_basic_header 3 csid ++ m.payload
unfolding message_bytes put_fields extension
bare_bytes csid m (fmt, written) e h = rw (e, gt→leb extended_timestamp written h)

-- A message that fits a chunk, on a chunk stream whose last header had four bytes behind it and whose
-- delta does not: if the writer chooses the header that states nothing, then all that it writes is
-- not enough for the reader, which returns nothing and waits.
pub write_unread :
    (w : Writer) (r : Reader) (csid : ℕ) (m : Message) (p : State)
    → IsChunkStreamId csid
    → IsInStep w r
    → length m.payload ≤ w.chunk_size
    → length m.payload ≤ max_assembled_length
    → get csid w.streams ≡ some p
    → p.extended ≡ true
    → p.delta < extended_timestamp
    → (choose_format (some p) m).0 ≡ 3
    → (w' : Writer) × (bytes : Bytes) × (write w [] csid m ≡ (ok tt, w', bytes))
      × (read r bytes ≡ (ok none, r, bytes))
write_unread w r csid m p hc s hs hm hp he hd h3 =
    let same = repeats p m (choose_format-Chosen p m) h3 in
    let bare : message_bytes csid m (format_of w csid m) m.payload
        ≡ put_basic_header 3 csid ++ m.payload =
      bare_bytes csid m (format_of w csid m) (rw hp h3) (rw hp (omega (arith, same.0))) in
    let bytes = put_basic_header 3 csid ++ m.payload in
    let gap = put_basic_header 3 csid ++ extension (format_of w csid m).1 in
    let one = put_chunks_one (length m.payload) w.chunk_size gap m.payload hs in
    (
      writer_after w csid m,
      bytes,
      rw (← bare) (
          write_eq w [] csid m m.payload (omega arith)
            (ap (λ n. put_chunks n w.chunk_size gap m.payload) (add-one (length m.payload)) ∙ one)),
      read_need_more r r bytes bytes (
          waits r csid p m.payload hc (s.streams csid ∙ ap (Option.map idle) hp) he same.1
            (omega (arith, s.sizes)) hm),
    )
