-- ===== src/Rtsp/Incoming/RoundTrip.antt =====
-- What is written for an RTSP connection, `read` of src/rtsp/message.rs reads back.
use relaybay.Base.{ℕ, ◌+◌, ◌-◌, ◌*◌, ◌/◌, ◌%◌, ◌^◌, ◌<◌, ◌≡◌, refl, arith}
use relaybay.Base.{some, ◌∷◌, ◌++◌, Bytes, length}
use relaybay.Base.{take-append, drop-append, length-append, ge→ltb, from_be, to_be}
use relaybay.Base.Outcome.{ok}
use relaybay.Rtsp.Incoming.{interleaved, read_interleaved, read, interleave}

-- A frame of at most 65535 bytes is read back, and what is behind it is left.
pub read-interleave :
    (channel : ℕ) (packet rest : Bytes)
    → length packet < 2 ^ 16
    → (frame : Bytes) × (interleave channel packet ≡ ok frame)
      × (read (frame ++ rest) ≡ ok (some (interleaved channel packet), rest))
unfolding interleave read read_interleaved from_be to_be
read-interleave channel packet rest h =
    let counted : (0 + length packet / 256 % 256) * 256 + length packet % 256 ≡ length packet =
      omega arith in
    (
      b'$' ∷ channel ∷ (to_be 2 (length packet) ++ packet),
      rw (ge→ltb (2 ^ 16 - 1) (length packet) (omega arith)) refl,
      rw
          (
            counted,
            ge→ltb (length (b'$' ∷ channel ∷ 0 ∷ 0 ∷ (packet ++ rest))) (4 + length packet)
                (omega (arith, length-append packet rest)),
            take-append (length packet) packet rest refl,
            drop-append (length packet) packet rest refl,
          )
          refl,
    )
