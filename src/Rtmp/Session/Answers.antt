-- ===== src/Rtmp/Session/Answers.antt =====
-- Commands to src/rtmp/session.rs are answered without a panic, and by replies only.
use relaybay.Base.{ℕ, ◌<◌, ◌^◌, refl, Bool, true}
use relaybay.Base.{List, [], ◌∷◌, Bytes, length, arith}
use relaybay.Base.Outcome.{Ensures, returns, Ensures->>=}
use relaybay.Rtmp.Amf0.Fits.{FitsValue, FitsValues, FitsProperties}
use relaybay.Rtmp.Amf0.RoundTrip.{read_all-write_all}
use relaybay.Rtmp.Amf0.Types.{Value, Values, Properties, number, string, no_properties, property}
use relaybay.Rtmp.Amf0.Writer.{write_all}
use relaybay.Rtmp.Session.Protocol.{Follows, nothing, sends, resizes}
use relaybay.Rtmp.Session.Replies.{
  expect_written, result, on_status, status, connect_replies, create_stream_replies,
  publish_replies, send,
}
use relaybay.Rtmp.Session.Words.{
  connect_code, connect_text, object_encoding_key, publish_code, publish_text, details_key,
}
use relaybay.Rtmp.Session.Types.{Action}

-- Writing asks nothing of a text but its length.
abbrev any_text : Bytes → Bool
any_text bs = true

abbrev IsReplies : List Action → Type 0
IsReplies actions = (b : Bool) → Follows b actions b

abbrev IsReply : Action → Type 0
IsReply a = (b : Bool) (todo : List Action) → Follows b todo b → Follows b (a ∷ todo) b

expect_written-Ensures :
    (vs : Values)
    → FitsValues any_text 0 vs
    → Ensures (λ out. Unit {0}) (expect_written (write_all vs))
unfolding expect_written
expect_written-Ensures vs h =
    let (out, e, back) = read_all-write_all any_text vs h in rw e (returns tt)

result-IsReply :
    (transaction : ℕ) (vs : Values)
    → transaction < 2 ^ 64
    → FitsValues any_text 0 vs
    → Ensures IsReply (result transaction vs)
unfolding result send FitsValue
result-IsReply transaction vs h hs =
    Ensures->>= (expect_written-Ensures _ ((refl, omega arith), (h, hs)))
      (λ out t. returns (λ b todo f. sends f))

on_status-IsReply : (v : Value) → FitsValue any_text 0 v → Ensures IsReply (on_status v)
unfolding on_status send FitsValue
on_status-IsReply v h =
    Ensures->>= (expect_written-Ensures _ ((refl, omega arith), (omega arith, (tt, (h, tt)))))
      (λ out t. returns (λ b todo f. sends f))

status-FitsValue :
    (code description : Bytes) (extra : Properties)
    → length code < 2 ^ 32
    → length description < 2 ^ 32
    → FitsProperties any_text 1 extra
    → FitsValue any_text 0 (status code description extra)
unfolding status FitsValue
status-FitsValue code description extra h h' hs = (
  omega arith,
  (
    refl,
    omega arith,
    omega arith,
    (refl, omega arith),
    (refl, omega arith, omega arith, (refl, h), (refl, omega arith, omega arith, (refl, h'), hs)),
  ),
)

pub connect_replies-IsReplies :
    (transaction : ℕ) → transaction < 2 ^ 64 → Ensures IsReplies (connect_replies transaction)
unfolding connect_replies FitsValue
connect_replies-IsReplies transaction h =
    let told =
      status-FitsValue connect_code connect_text
        (property object_encoding_key (number 0) no_properties) (omega arith) (omega arith)
        (refl, omega arith, omega arith, omega arith, tt) in
    Ensures->>=
      (result-IsReply transaction _ h (
        (
          omega arith,
          (
            refl,
            omega arith,
            omega arith,
            (refl, omega arith),
            (refl, omega arith, omega arith, omega arith, tt),
          ),
        ),
        (told, tt),
      ))
      (λ a f. returns (λ b. sends (sends (sends (resizes (f b [] nothing))))))

pub create_stream_replies-IsReplies :
    (transaction : ℕ) → transaction < 2 ^ 64 → Ensures IsReplies (create_stream_replies transaction)
unfolding create_stream_replies FitsValue
create_stream_replies-IsReplies transaction h =
    Ensures->>= (result-IsReply transaction _ h (tt, (omega arith, tt)))
      (λ a f. returns (λ b. f b [] nothing))

pub publish_replies-IsReplies :
    (key : Bytes) → length key < 2 ^ 32 → Ensures IsReplies (publish_replies key)
unfolding publish_replies FitsValue
publish_replies-IsReplies key h =
    Ensures->>=
      (on_status-IsReply _ (
        status-FitsValue publish_code publish_text (property details_key (string key) no_properties)
          (omega arith) (omega arith) (refl, omega arith, omega arith, (refl, h), tt)))
      (λ a f. returns (λ b. sends (f b [] nothing)))
