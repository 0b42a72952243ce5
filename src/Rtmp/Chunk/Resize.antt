-- ===== src/Rtmp/Chunk/Resize.antt =====
-- `SetChunkSize` over a connection of src/rtmp/chunk.rs: both ends change their size at one message.
use relaybay.Base.{ℕ, ◌%◌, ◌^◌, ◌<◌, ◌≤◌, ◌≡◌, refl, ap, ◌∙◌, some, Bytes, ◌++◌, arith}
use relaybay.Base.{ge→ltb, ne→eqb, to_be, from_be-to_be, length-to_be}
use relaybay.Rtmp.Chunk.Types.{Message, ok, max_chunk_size, set_chunk_size}
use relaybay.Rtmp.Chunk.Reader.{Reader, apply, apply_chunk_size, control_u32, read}
use relaybay.Rtmp.Chunk.Writer
use relaybay.Rtmp.Chunk.Writer.{Writer, write}
use relaybay.Rtmp.Chunk.RoundTrip.{IsInStep, IsInStep-after, writer_after, reader_after}
use relaybay.Rtmp.Chunk.Delivery.{IsSendable, send}

-- The reader takes the size that the payload states.
apply_size :
    (r : Reader) (m : Message) (n : ℕ)
    → m.kind ≡ set_chunk_size
    → m.payload ≡ to_be 4 n
    → 0 < n
    → n ≤ max_chunk_size
    → apply r m.kind m ≡ (ok tt, record r { chunk_size = n })
unfolding apply apply_chunk_size control_u32
apply_size r m n ek ep lo hi =
    let small : n % 2 ^ 31 ≡ n = omega arith in
    ap (λ k. apply r k m) ek
    ∙ simp (
      ep,
      length-to_be,
      from_be-to_be 4 n (omega arith),
      small,
      ne→eqb n 0 (omega arith),
      ge→ltb max_chunk_size n hi,
    )

writer_takes :
    (w : Writer) (n : ℕ)
    → 0 < n
    → n ≤ max_chunk_size
    → Writer.set_chunk_size w n ≡ (ok tt, record w { chunk_size = n })
unfolding Writer.set_chunk_size
writer_takes w n lo hi = ground arith

-- A `SetChunkSize` message of a size in range is written and read like any other; the reader has
-- applied it when `read` returns, and once the writer has set the same size, both ends are in step.
pub read-write_chunk_size :
    (w : Writer) (r : Reader) (csid n : ℕ) (m : Message) (out rest : Bytes)
    → IsSendable w csid m
    → m.kind ≡ set_chunk_size
    → m.payload ≡ to_be 4 n
    → 0 < n
    → n ≤ max_chunk_size
    → IsInStep w r
    → (w' w'' : Writer) × (r' : Reader) × (bytes : Bytes) × (write w out csid m
        ≡ (ok tt, w', out ++ bytes))
      × (Writer.set_chunk_size w' n ≡ (ok tt, w''))
      × (read r (bytes ++ rest) ≡ (ok (some m), r', rest))
      × (r'.chunk_size ≡ n)
      × IsInStep w'' r'
read-write_chunk_size w r csid n m out rest f ek ep lo hi s =
    let r₁ = reader_after w r csid m in
    let w₁ = writer_after w csid m in
    let (bytes, e, e') = send w r csid m f s out rest _ (apply_size r₁ m n ek ep lo hi) in
    let after = IsInStep-after w r csid m f.numbered f.writable s f.repeatable f.room in
    (
      w₁,
      record w₁ { chunk_size = n },
      record r₁ { chunk_size = n },
      bytes,
      e,
      writer_takes w₁ n lo hi,
      e',
      refl,
      record { sizes = refl; moves = lo; streams = after.streams; counts = after.counts },
    )
