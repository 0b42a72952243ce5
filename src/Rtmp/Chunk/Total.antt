-- ===== src/Rtmp/Chunk/Total.antt =====
-- `Reader::read` of src/rtmp/chunk.rs on any bytes: it returns, and never by a panic.
use relaybay.Base.{ℕ, zero, suc, ◌+◌, ◌<◌, ◌≡◌, ◌≢◌, refl, ap, ◌∙◌, Option, none, some, Bytes}
use relaybay.Base.{length, arith}
use relaybay.Rtmp.Chunk.Types.{Message, Outcome, ok, err, panic, spent}
use relaybay.Rtmp.Chunk.Reader.{
  Reader, Step, message, absorbed, need_more, read_chunk, read_loop, read,
}
use relaybay.Rtmp.Chunk.Safety.{IsValid, IsSound, read_chunk-IsSound}

-- What `read` comes to: a valid reader, no panic, no loop; and if it found no message, then calling it
-- again on what it left finds none either and changes nothing.
pub record IsSafe (t : Outcome (Option Message) × Reader × Bytes) : Type 0 where
  pub valid : IsValid t.1
  pub no_panic : t.0 ≢ panic
  pub ends : t.0 ≢ spent
  pub stable : t.0 ≡ ok none → read t.1 t.2 ≡ (ok none, t.1, t.2)

-- One round of the loop, by what `read_chunk` came to.
follow : ℕ → Outcome Step × Reader × Bytes → Outcome (Option Message) × Reader × Bytes
follow fuel (ok (message m), r, buf) = (ok (some m), r, buf)
follow fuel (ok absorbed, r, buf) = read_loop fuel r buf
follow fuel (ok need_more, r, buf) = (ok none, r, buf)
follow fuel (err e, r, buf) = (err e, r, buf)
follow fuel (panic, r, buf) = (panic, r, buf)
follow fuel (spent, r, buf) = (spent, r, buf)

read_loop-follow :
    (fuel : ℕ) (r : Reader) (buf : Bytes)
    → read_loop (suc fuel) r buf ≡ follow fuel (read_chunk r buf)
unfolding read_loop follow
read_loop-follow fuel r buf = ground arith

pub read_need_more :
    (r r' : Reader) (buf buf' : Bytes)
    → read_chunk r buf ≡ (ok need_more, r', buf')
    → read r buf ≡ (ok none, r', buf')
unfolding read follow
read_need_more r r' buf buf' e =
    ap (λ n. read_loop n r buf) (omega arith)
    ∙ read_loop-follow (length buf) r buf
    ∙ ap (follow _) e

follow-IsSafe :
    (fuel : ℕ) (r : Reader) (buf : Bytes) (t : Outcome Step × Reader × Bytes)
    → read_chunk r buf ≡ t
    → IsSound r buf t
    → ((r' : Reader) (buf' : Bytes)
        → IsValid r'
        → length buf' < length buf
        → IsSafe (read_loop fuel r' buf'))
    → IsSafe (follow fuel t)
unfolding follow
follow-IsSafe fuel r buf (ok (message m), r', buf') e s ih = record {
  valid = s.valid;
  no_panic = λ x. cc;
  ends = λ x. cc;
  stable = λ x. absurd (ground arith);
}
follow-IsSafe fuel r buf (ok absorbed, r', buf') e s ih = ih r' buf' s.valid (s.shrinks refl)
follow-IsSafe fuel r buf (ok need_more, r', buf') e s ih = record {
  valid = s.valid;
  no_panic = λ x. cc;
  ends = λ x. cc;
  stable = λ x.
      read_need_more r' r' buf' buf'
        (rw ((s.waits refl).0, (s.waits refl).1) (rw ((s.waits refl).0, (s.waits refl).1) at e));
}
follow-IsSafe fuel r buf (err u, r', buf') e s ih = record {
  valid = s.valid;
  no_panic = λ x. cc;
  ends = λ x. cc;
  stable = λ x. cc;
}
follow-IsSafe fuel r buf (panic, r', buf') e s ih = absurd (s.no_panic refl)
follow-IsSafe fuel r buf (spent, r', buf') e s ih = absurd (s.ends refl)

read_loop-IsSafe :
    (fuel : ℕ) (r : Reader) (buf : Bytes)
    → IsValid r
    → length buf < fuel
    → IsSafe (read_loop fuel r buf)
read_loop-IsSafe zero r buf v h = absurd (omega arith)
read_loop-IsSafe (suc fuel) r buf v h = rw (read_loop-follow fuel r buf) (
    follow-IsSafe fuel r buf (read_chunk r buf) refl (read_chunk-IsSound r buf v)
      (λ r' buf' v' shorter. read_loop-IsSafe fuel r' buf' v' (omega arith)))

-- On a valid reader, whatever the bytes: `read` returns a message, nothing, or one of its errors; it
-- does not panic and its loop ends; the reader stays valid. Where it returned nothing, a second call
-- on the reader and the buffer that it left returns nothing too and leaves both as they are.
pub read-IsSafe : (r : Reader) (buf : Bytes) → IsValid r → IsSafe (read r buf)
unfolding read
read-IsSafe r buf v = read_loop-IsSafe (length buf + 1) r buf v (omega arith)
