-- ===== src/Rtmp/Chunk/Delivery.antt =====
-- Messages sent over a connection of src/rtmp/chunk.rs: one, a whole run, a change of chunk size.
use relaybay.Base.{ℕ, ◌+◌, ◌<◌, ◌≡◌, ◌≢◌, refl, sym, ap, ◌∙◌, subst, none, some, List, []}
use relaybay.Base.{◌∷◌, ◌++◌, Bytes, length, get, nat_eq, arith, append_assoc, map}
use relaybay.Rtmp.Chunk.Types.{MessageType, Message, ok, max_chunk_streams, set_chunk_size, abort}
use relaybay.Rtmp.Chunk.Reader.{Reader, apply, read}
use relaybay.Rtmp.Chunk.Writer.{Writer, write, extension}
use relaybay.Rtmp.Chunk.Header.{put_basic_header}
use relaybay.Rtmp.Chunk.Fields.{IsWritable}
use relaybay.Rtmp.Chunk.Opening.{IsRepeatable}
use relaybay.Rtmp.Chunk.RoundTrip.{
  IsChunkStreamId, IsInStep, IsInStep-after, put_chunks_total, message_bytes, write_eq,
  read_written, writer_after, reader_after, format_of,
}

-- Every message but the two that reconfigure the chunk stream.
abbrev pub IsPlain : MessageType → Type 0
IsPlain k = (k ≢ set_chunk_size) × (k ≢ abort)

apply_plain : (r : Reader) (k : MessageType) (m : Message) → IsPlain k → apply r k m ≡ (ok tt, r)
unfolding apply
apply_plain r set_chunk_size m h = absurd (h.0 refl)
apply_plain r abort m h = absurd (h.1 refl)
apply_plain r _ m h = refl

-- A message that may be sent on a chunk stream.
pub record IsSendable (w : Writer) (csid : ℕ) (m : Message) : Type 0 where
  pub numbered : IsChunkStreamId csid
  pub writable : IsWritable m
  pub repeatable : IsRepeatable (get csid w.streams) m
  pub room : get csid w.streams ≡ none → length w.streams < max_chunk_streams

module _ (w : Writer) (r : Reader) (csid : ℕ) (m : Message) (f : IsSendable w csid m)
    (s : IsInStep w r) where
  -- One message: it is written, and a reader that acts on it returns it and leaves what follows.
  pub send :
      (out rest : Bytes) (r' : Reader)
      → apply (reader_after w r csid m) m.kind m ≡ (ok tt, r')
      → (bytes : Bytes) × (write w out csid m ≡ (ok tt, writer_after w csid m, out ++ bytes))
        × (read r (bytes ++ rest) ≡ (ok (some m), r', rest))
  send out rest r' done =
      let (chunks, e, longer) =
        put_chunks_total (length m.payload + 1) w.chunk_size
          (put_basic_header 3 csid ++ extension (format_of w csid m).1) m.payload s.moves
          (omega arith) in
      (
        message_bytes csid m (format_of w csid m) chunks,
        write_eq w out csid m chunks (omega (arith, f.writable.payload_fits)) e,
        read_written w r csid m f.numbered f.writable s f.repeatable f.room chunks rest r' e longer
            done,
      )

-- A run of messages: each is sendable when its turn comes, and its bytes follow the last one's.
pub data Sends : Writer → List (ℕ × Message) → Writer → Bytes → Type 0 where
  quiet : {w : Writer} → Sends w [] w []
  sending :
      {w w₁ w' : Writer} {csid : ℕ} {m : Message} {ms : List (ℕ × Message)} {bytes more : Bytes}
      → IsSendable w csid m
      → IsPlain m.kind
      → write w [] csid m ≡ (ok tt, w₁, bytes)
      → Sends w₁ ms w' more
      → Sends w ((csid, m) ∷ ms) w' (bytes ++ more)

-- `read` called on one buffer again and again.
pub data Receives : Reader → Bytes → List Message → Reader → Bytes → Type 0 where
  quiet : {r : Reader} {buf : Bytes} → Receives r buf [] r buf
  receiving :
      {r r₁ r' : Reader} {buf buf₁ rest : Bytes} {m : Message} {ms : List Message}
      → read r buf ≡ (ok (some m), r₁, buf₁)
      → Receives r₁ buf₁ ms r' rest
      → Receives r buf (m ∷ ms) r' rest

-- A run of messages that a writer sends, each sendable when its turn comes and none of them a change of
-- the chunk size or an abort: a reader in step with the writer receives the same messages in the same
-- order, with nothing lost, and both are in step again. A message is sendable whose numbers have their
-- widths and whose payload is at most the 8 MiB that the reader puts together (the writer takes more),
-- on a chunk stream of 2 to 65599 and of 64 in all at most (the reader refuses more), if it is not the
-- message behind an extended timestamp whose header repeats the one before.
pub Sends-Receives :
    {w w' : Writer} {ms : List (ℕ × Message)} {bytes : Bytes} (r : Reader) (rest : Bytes)
    → Sends w ms w' bytes
    → IsInStep w r
    → (r' : Reader) × Receives r (bytes ++ rest) (map (λ p. p.1) ms) r' rest × IsInStep w' r'
Sends-Receives r rest quiet s = (r, quiet, s)
Sends-Receives r rest (sending {w} {w₁} {csid = csid} {m} {ms} {bytes} {more} f plain e sends) s =
    let r₁ = reader_after w r csid m in
    let (bytes', e', got) =
      send w r csid m f s [] (more ++ rest) r₁ (apply_plain r₁ m.kind m plain) in
    let same = sym e' ∙ e in
    let in_step : IsInStep w₁ r₁ =
      subst (λ v. IsInStep v r₁) (ap (λ t. t.1) same)
        (IsInStep-after w r csid m f.numbered f.writable s f.repeatable f.room) in
    let (r', later, s') = Sends-Receives r₁ rest sends in_step in
    (r', receiving (rw (append_assoc, ← ap (λ t. t.2) same) got) later, s')
