-- ===== src/Rtsp/Incoming/Settled.antt =====
-- Which part of the stream `read` of src/rtsp/message.rs looks at: more bytes behind a message do not
-- change it.
use relaybay.Base.{ℕ, ◌+◌, ◌≤◌, ◌≡◌, ◌≢◌, refl, subst, arith}
use relaybay.Base.{ltb, eqb, none, some, [], ◌∷◌, ◌++◌, Bytes, length}
use relaybay.Base.{take, drop, take-more, drop-more, length-append, length-drop, le_or_lt, inl, inr}
use relaybay.Base.{lt→ltb, ge→ltb, from_be, Option-cases, Bool-cases}
use relaybay.Base.Outcome.{Outcome, ok, err, panic, spent, ◌>>=◌}
use relaybay.Text.{find, find-le, find-more}
use relaybay.Rtsp.Incoming.{
  Incoming, Taken, RtspError, Head, malformed_request_line, malformed_header, unsupported_version,
  malformed_content_length, too_long, not_rtsp, request_head, request_body, interleaved_frame,
  read_interleaved, read_request, take_request, take_body, parse_head, read, max_head,
  is_alphabetic, blank_line,
}

-- What was taken out of a buffer is taken out of the longer one too, of which more is left; and what
-- was wrong is still wrong, but for a head that seemed too long.
unfoldable IsSettled : Bytes → Taken → Taken → Type 0
IsSettled more longer (ok (some found, rest)) = longer ≡ ok (some found, rest ++ more)
IsSettled more longer (ok (none, rest)) = Unit {0}
IsSettled more longer panic = Unit {0}
IsSettled more longer spent = Unit {0}
IsSettled more longer (err (too_long request_head limit)) = Unit {0}
IsSettled more longer (err (too_long request_body limit)) =
    longer ≡ err (too_long request_body limit)
IsSettled more longer (err (too_long interleaved_frame limit)) =
    longer ≡ err (too_long interleaved_frame limit)
IsSettled more longer (err (malformed_request_line line)) =
    longer ≡ err (malformed_request_line line)
IsSettled more longer (err (malformed_header line)) = longer ≡ err (malformed_header line)
IsSettled more longer (err (unsupported_version version)) =
    longer ≡ err (unsupported_version version)
IsSettled more longer (err (malformed_content_length stated)) =
    longer ≡ err (malformed_content_length stated)
IsSettled more longer (err not_rtsp) = longer ≡ err not_rtsp

err-IsSettled : (more : Bytes) (why : RtspError) → IsSettled more (err why) (err why)
unfolding IsSettled
err-IsSettled more (too_long request_head limit) = tt
err-IsSettled more (too_long request_body limit) = refl
err-IsSettled more (too_long interleaved_frame limit) = refl
err-IsSettled more (malformed_request_line line) = refl
err-IsSettled more (malformed_header line) = refl
err-IsSettled more (unsupported_version version) = refl
err-IsSettled more (malformed_content_length stated) = refl
err-IsSettled more not_rtsp = refl

IsSettled-err :
    (more : Bytes) (longer : Taken) (why : RtspError)
    → ((limit : ℕ) → why ≢ too_long request_head limit)
    → IsSettled more longer (err why)
    → longer ≡ err why
unfolding IsSettled
IsSettled-err more longer (too_long request_head limit) h e = absurd (h limit refl)
IsSettled-err more longer (too_long request_body limit) h e = e
IsSettled-err more longer (too_long interleaved_frame limit) h e = e
IsSettled-err more longer (malformed_request_line line) h e = e
IsSettled-err more longer (malformed_header line) h e = e
IsSettled-err more longer (unsupported_version version) h e = e
IsSettled-err more longer (malformed_content_length stated) h e = e
IsSettled-err more longer not_rtsp h e = e

take_body-IsSettled :
    (head_len : ℕ) (buf more : Bytes) (head : Head)
    → head_len ≤ length buf
    → IsSettled more (take_body head_len (buf ++ more) head) (take_body head_len buf head)
unfolding take_body IsSettled
take_body-IsSettled head_len buf more head h =
    elim (le_or_lt (head_len + head.count) (length buf)) [
      | inl whole ↦
          rw
            (
              ge→ltb (length buf) (head_len + head.count) whole,
              ge→ltb (length (buf ++ more)) (head_len + head.count)
                  (omega (arith, length-append buf more)),
              drop-more head_len buf more h,
              take-more head.count (drop head_len buf) more
                  (omega (arith, length-drop head_len buf)),
              drop-more head.count (drop head_len buf) more
                  (omega (arith, length-drop head_len buf)),
            )
            refl
      | inr short ↦ rw (lt→ltb (length buf) (head_len + head.count) short) tt
    ]

parsed-IsSettled :
    (more : Bytes) (parsed : Outcome RtspError Head) (longer shorter : Head → Taken)
    → ((head : Head) → IsSettled more (longer head) (shorter head))
    → IsSettled more (parsed >>= longer) (parsed >>= shorter)
unfolding IsSettled
parsed-IsSettled more (ok head) longer shorter h = h head
parsed-IsSettled more (err why) longer shorter h = err-IsSettled more why
parsed-IsSettled more panic longer shorter h = tt
parsed-IsSettled more spent longer shorter h = tt

none-IsSettled : (buf more : Bytes) (longer : Taken) → IsSettled more longer (take_request buf none)
unfolding take_request IsSettled
none-IsSettled buf more longer = elim (Bool-cases (ltb max_head (length buf))) [
  | inl over ↦ rw over tt
  | inr under ↦ rw under tt
]

read_request-IsSettled :
    (buf more : Bytes) → IsSettled more (read_request (buf ++ more)) (read_request buf)
unfolding read_request take_request
read_request-IsSettled buf more = elim (Option-cases (find blank_line buf)) [
  | inl nothing ↦ rw nothing (none-IsSettled buf more (read_request (buf ++ more)))
  | inr (end, at) ↦
      let h : end + 4 ≤ length buf = find-le blank_line buf end at in
      rw (at, find-more blank_line buf more end at, take-more end buf more (omega arith))
        (parsed-IsSettled more (parse_head (take end buf)) _ _
          λ head. take_body-IsSettled (end + 4) buf more head h)
]

read_interleaved-IsSettled :
    (buf more : Bytes) → IsSettled more (read_interleaved (buf ++ more)) (read_interleaved buf)
unfolding read_interleaved IsSettled
read_interleaved-IsSettled [] more = tt
read_interleaved-IsSettled (a ∷ []) more = tt
read_interleaved-IsSettled (a ∷ b ∷ []) more = tt
read_interleaved-IsSettled (a ∷ b ∷ c ∷ []) more = tt
read_interleaved-IsSettled (a ∷ b ∷ c ∷ d ∷ rest) more =
    let count = from_be (c ∷ d ∷ []) in
    elim (le_or_lt (4 + count) (length (a ∷ b ∷ c ∷ d ∷ rest))) [
      | inl whole ↦
          rw
            (
              ge→ltb (length (a ∷ b ∷ c ∷ d ∷ rest)) (4 + count) whole,
              ge→ltb (length (a ∷ b ∷ c ∷ d ∷ rest ++ more)) (4 + count)
                  (omega (arith, length-append rest more)),
              take-more count rest more (omega arith),
              drop-more count rest more (omega arith),
            )
            refl
      | inr short ↦ rw (lt→ltb (length (a ∷ b ∷ c ∷ d ∷ rest)) (4 + count) short) tt
    ]

read-IsSettled : (buf more : Bytes) → IsSettled more (read (buf ++ more)) (read buf)
unfolding read IsSettled
read-IsSettled [] more = tt
read-IsSettled (first ∷ bytes) more = elim (Bool-cases (eqb first b'$')) [
  | inl dollar ↦ rw dollar (read_interleaved-IsSettled (first ∷ bytes) more)
  | inr other ↦ elim (Bool-cases (is_alphabetic first)) [
    | inl letter ↦ rw (other, letter) (read_request-IsSettled (first ∷ bytes) more)
    | inr neither ↦ rw (other, neither) refl
  ]
]

-- What is read off a buffer is read off it with any bytes more behind it, which then are left.
pub read-more :
    (buf more rest : Bytes) (found : Incoming)
    → read buf ≡ ok (some found, rest)
    → read (buf ++ more) ≡ ok (some found, rest ++ more)
unfolding IsSettled
read-more buf more rest found e =
    subst (IsSettled more (read (buf ++ more))) e (read-IsSettled buf more)

-- Nor do bytes behind it mend what cannot be read, but for a head that goes on past the limit.
pub read-more_err :
    (buf more : Bytes) (why : RtspError)
    → read buf ≡ err why
    → ((limit : ℕ) → why ≢ too_long request_head limit)
    → read (buf ++ more) ≡ err why
read-more_err buf more why e h =
    IsSettled-err more (read (buf ++ more)) why h
      (subst (IsSettled more (read (buf ++ more))) e (read-IsSettled buf more))
