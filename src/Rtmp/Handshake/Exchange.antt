-- ===== src/Rtmp/Handshake/Exchange.antt =====
-- The handshake of src/rtmp/handshake.rs as the connection of src/rtmp/server.rs drives it, on bytes that
-- arrive in pieces.
use relaybay.Base.{ℕ, zero, suc, ◌+◌, ◌<◌, ◌≤◌, ◌≡◌, refl, sym, ap, ◌∙◌, false, if◌then◌else◌}
use relaybay.Base.{
  List, [], ◌∷◌, ◌++◌, Bytes, length, take, drop, slice, from_be, arith, All, length-append,
  append_assoc, append-nil, drop-append, take-append,
}
use relaybay.Base.{lt→ltb, ge→ltb, le_or_lt, inl, inr, is_empty}
use relaybay.Base.Outcome
use relaybay.Base.Outcome.{Outcome, ok, err, spent}
use relaybay.Rtmp.Handshake.{
  Step, need_more, send, finished, HandshakeError, echo, done, Handshake, new, is_done, read,
  read_in, read_hello, read_echo, answer_hello, reply, handshake_size, version,
}
use relaybay.Rtp.Pieces.{concat}

-- What was sent, the handshake, what is in the buffer and what has not arrived.
abbrev pub Driven : Type 0
Driven = Bytes × Handshake × Bytes × List Bytes

abbrev sent_first : Bytes → Driven → Outcome HandshakeError Driven
sent_first out (more, h, buf, coming) = ok (out ++ more, h, buf, coming)

-- What a round of `connection` does after a step, where `again` is the next round. A read of nothing is
-- the end of the connection.
unfoldable pub drive_step :
    (Handshake → Bytes → List Bytes → Outcome HandshakeError Driven)
    → Step
    → Handshake
    → Bytes
    → List Bytes
    → Outcome HandshakeError Driven
drive_step again (send out) h buf coming = Outcome.◌>>=◌ (again h buf coming) (sent_first out)
drive_step again finished h buf coming = again h buf coming
drive_step again need_more h buf [] = ok ([], h, buf, [])
drive_step again need_more h buf (piece ∷ coming) =
    if is_empty piece then ok ([], h, buf, coming) else again h (buf ++ piece) coming

-- The loop of `connection` while the handshake is not done.
unfoldable pub drive : ℕ → Handshake → Bytes → List Bytes → Outcome HandshakeError Driven
drive zero h buf coming = spent
drive (suc fuel) h buf coming =
    let next =
      Outcome.◌>>=◌ (read h buf)
        (λ (step, h', buf'). drive_step (drive fuel) step h' buf' coming) in
    if is_done h then ok ([], h, buf, coming) else next

drop-prefix : (n : ℕ) (xs ys : Bytes) → n ≤ length xs → drop n (xs ++ ys) ≡ drop n xs ++ ys
drop-prefix zero xs ys h = refl
drop-prefix (suc n) [] ys h = absurd (omega arith)
drop-prefix (suc n) (x ∷ xs) ys h = drop-prefix n xs ys (omega arith)

take-prefix : (n : ℕ) (xs ys : Bytes) → n ≤ length xs → take n (xs ++ ys) ≡ take n xs
take-prefix zero xs ys h = refl
take-prefix (suc n) [] ys h = absurd (omega arith)
take-prefix (suc n) (x ∷ xs) ys h = ap (λ t. x ∷ t) (take-prefix n xs ys (omega arith))

-- Where the handshake is over, and what is left.
abbrev pub IsOver : ℕ → Bytes → Bytes → Outcome HandshakeError Driven → Type 0
IsOver client out rest m =
    (buf : Bytes) × (coming : List Bytes) × (m
      ≡ ok (out, record { state = done; client_version = client }, buf, coming))
    × (buf ++ concat coming ≡ rest)

abbrev echoing : ℕ → Handshake
echoing client = record { state = echo; client_version = client }

abbrev pub AllThere : List Bytes → Type 0
AllThere coming = All (λ piece. is_empty piece ≡ false) coming

drive-echoed :
    (fuel client : ℕ) (buf : Bytes) (coming : List Bytes) (answer rest : Bytes)
    → 1 < fuel
    → length answer ≡ handshake_size
    → buf ++ concat coming ≡ answer ++ rest
    → handshake_size ≤ length buf
    → IsOver client [] rest (drive fuel (echoing client) buf coming)
unfolding drive drive_step is_done read read_in read_echo
drive-echoed zero client buf coming answer rest enough size e all = absurd (omega arith)
drive-echoed (suc zero) client buf coming answer rest enough size e all = absurd (omega arith)
drive-echoed (suc (suc fuel)) client buf coming answer rest enough size e all = (
  drop handshake_size buf,
  coming,
  rw (ge→ltb (length buf) handshake_size all) refl,
  sym (drop-prefix handshake_size buf (concat coming) all)
      ∙ ap (drop handshake_size) e
      ∙ drop-append handshake_size answer rest (sym size),
)

-- Behind the hello: the echo is counted and dropped, and what follows it is left.
drive-echo :
    (fuel client : ℕ) (coming : List Bytes) (buf answer rest : Bytes)
    → length coming + 1 < fuel
    → AllThere coming
    → length answer ≡ handshake_size
    → buf ++ concat coming ≡ answer ++ rest
    → IsOver client [] rest (drive fuel (echoing client) buf coming)
unfolding drive drive_step is_done read read_in read_echo concat
drive-echo zero client coming buf answer rest enough there size e = absurd (omega arith)
drive-echo (suc fuel) client [] buf answer rest enough there size e =
    drive-echoed (suc fuel) client buf [] answer rest (omega arith) size e
      (omega (arith, ap length e, length-append buf [], length-append answer rest))
drive-echo (suc fuel) client (piece ∷ coming) buf answer rest enough (h, hs) size e =
    let more =
      drive-echo fuel client coming (buf ++ piece) answer rest (omega arith) hs size
        (append_assoc buf piece (concat coming) ∙ e) in
    elim (le_or_lt handshake_size (length buf)) [
      | inl all ↦
          drive-echoed (suc fuel) client buf (piece ∷ coming) answer rest (omega arith) size e all
      | inr part ↦ rw (lt→ltb (length buf) handshake_size part, h) more
    ]

-- Behind the whole hello, which is answered.
drive-answered :
    (fuel : ℕ) (buf : Bytes) (coming : List Bytes) (sent answer rest : Bytes)
    → length coming + 2 < fuel
    → AllThere coming
    → length sent ≡ handshake_size
    → length answer ≡ handshake_size
    → buf ++ concat coming ≡ version ∷ sent ++ (answer ++ rest)
    → handshake_size < length buf
    → IsOver (from_be (slice 4 8 sent)) (reply sent) rest (drive fuel new buf coming)
unfolding drive drive_step is_done read read_in read_hello answer_hello
drive-answered zero buf coming sent answer rest enough there size size' e all = absurd (omega arith)
drive-answered (suc fuel) [] coming sent answer rest enough there size size' e all =
    absurd (omega arith)
drive-answered (suc fuel) (b ∷ bs) coming sent answer rest enough there size size' e all =
    let first : b ≡ version = cc in
    let behind : bs ++ concat coming ≡ sent ++ (answer ++ rest) = cc in
    let room : handshake_size ≤ length bs = omega arith in
    let taken : take handshake_size bs ≡ sent =
      sym (take-prefix handshake_size bs (concat coming) room)
      ∙ ap (take handshake_size) behind
      ∙ take-append handshake_size sent (answer ++ rest) (sym size) in
    let left =
      sym (drop-prefix handshake_size bs (concat coming) room)
      ∙ ap (drop handshake_size) behind
      ∙ drop-append handshake_size sent (answer ++ rest) (sym size) in
    let (buf', coming', f, e') =
      drive-echo fuel (from_be (slice 4 8 sent)) coming (drop handshake_size bs) answer rest
        (omega arith) there size' left in
    (
      buf',
      coming',
      rw
          (
            first,
            ge→ltb (length (b ∷ bs)) (1 + handshake_size) (omega arith),
            taken,
            f,
            append-nil (reply sent),
          )
          refl,
      e',
    )

read_hello-short :
    (h : Handshake) (buf : Bytes)
    → length buf < 1 + handshake_size
    → read_hello h buf ≡ ok (need_more, h, buf)
unfolding read_hello
read_hello-short h [] part = refl
read_hello-short h (b ∷ bs) part = rw (lt→ltb (length (b ∷ bs)) (1 + handshake_size) part) refl

-- However the client's bytes are cut into pieces, once its hello and its echo have all come the
-- handshake is done and has sent its one reply, and what follows the echo is left for the chunk stream,
-- every byte of it.
pub drive-IsOver :
    (fuel : ℕ) (coming : List Bytes) (buf sent answer rest : Bytes)
    → length coming + 2 < fuel
    → AllThere coming
    → length sent ≡ handshake_size
    → length answer ≡ handshake_size
    → buf ++ concat coming ≡ version ∷ sent ++ (answer ++ rest)
    → IsOver (from_be (slice 4 8 sent)) (reply sent) rest (drive fuel new buf coming)
unfolding drive drive_step is_done read read_in concat
drive-IsOver zero coming buf sent answer rest enough there size size' e = absurd (omega arith)
drive-IsOver (suc fuel) [] buf sent answer rest enough there size size' e =
    drive-answered (suc fuel) buf [] sent answer rest enough there size size' e (
      omega (
        arith,
        ap length e,
        length-append buf [],
        length-append sent (answer ++ rest),
        length-append answer rest,
      ))
drive-IsOver (suc fuel) (piece ∷ coming) buf sent answer rest enough (h, hs) size size' e =
    let more =
      drive-IsOver fuel coming (buf ++ piece) sent answer rest (omega arith) hs size size'
        (append_assoc buf piece (concat coming) ∙ e) in
    elim (le_or_lt (1 + handshake_size) (length buf)) [
      | inl all ↦
          drive-answered (suc fuel) buf (piece ∷ coming) sent answer rest enough (h, hs) size size'
            e (omega arith)
      | inr part ↦ rw (read_hello-short new buf part, h) more
    ]
