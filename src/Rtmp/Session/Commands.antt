-- ===== src/Rtmp/Session/Commands.antt =====
-- The commands of src/rtmp/session.rs: `command` and what it calls.
use relaybay.Base.{ℕ, Bool, eqb, if◌then◌else◌, Option, none, some, ◌>>=◌}
use relaybay.Base.{List, [], ◌∷◌, ◌++◌, Bytes, is_empty, ◌&&◌, ◌||◌, zero, suc}
use relaybay.Base.Outcome
use relaybay.Base.Outcome.{Outcome, ok, err, panic, spent}
use relaybay.Rtmp.Amf0.Types.{
  Value, Values, no_values, item, Amf0Error, as_str, as_f64, get, same_bytes,
}
use relaybay.Rtmp.Amf0.Reader.{read_all}
use relaybay.Rtmp.Session.Words.{
  app_key, connect_name, create_stream_name, publish_name, delete_stream_name, close_stream_name,
  fc_unpublish_name,
}
use relaybay.Rtmp.Session.Types.{
  Action, SessionError, Session, State, no_app, no_stream, nameless, unpublish, is_publishing,
}
use relaybay.Rtmp.Session.Replies.{connect_replies, create_stream_replies, publish_replies}

-- `values.get(index)`.
unfoldable pub value_at : Values → ℕ → Option Value
value_at no_values index = none
value_at (item v vs) zero = some v
value_at (item v vs) (suc index) = value_at vs index

-- `trim_matches`, at both ends. A slash is one byte of UTF-8, and so is a question mark.
unfoldable pub trim_start : ℕ → Bytes → Bytes
trim_start mark [] = []
trim_start mark (b ∷ bs) = let rest = trim_start mark bs in if eqb b mark then rest else b ∷ bs

unfoldable pub trim_end : ℕ → Bytes → Bytes
trim_end mark [] = []
trim_end mark (b ∷ bs) =
    let rest = trim_end mark bs in if is_empty rest && eqb b mark then [] else b ∷ rest

unfoldable pub trim_matches : ℕ → Bytes → Bytes
trim_matches mark bs = trim_end mark (trim_start mark bs)

-- `split(mark).next()`.
unfoldable pub before_mark : ℕ → Bytes → Bytes
before_mark mark [] = []
before_mark mark (b ∷ bs) = let rest = before_mark mark bs in if eqb b mark then [] else b ∷ rest

abbrev pub transaction_or_zero : Option ℕ → ℕ
transaction_or_zero none = 0
transaction_or_zero (some transaction) = transaction

unfoldable pub connect_to :
    Session → ℕ → Option Bytes → Outcome SessionError (List Action × Session)
connect_to s transaction none = err no_app
connect_to s transaction (some app) =
    Outcome.◌>>=◌ (connect_replies transaction)
      (λ actions. ok (actions, record s { app = trim_matches b'/' app; state = State.connected }))

unfoldable pub connect : Session → Values → ℕ → Outcome SessionError (List Action × Session)
connect s vs transaction =
    connect_to s transaction (value_at vs 2 >>= λ v. get v app_key >>= as_str)

-- The name in front of the query, without slashes around it.
unfoldable pub stream_key : Bytes → Bytes
stream_key text = trim_matches b'/' (before_mark b'?' text)

unfoldable pub publish_key : Session → Bytes → Outcome SessionError (List Action × Session)
publish_key s key =
    if is_empty key
    then err no_stream
    else Outcome.◌>>=◌ (publish_replies key)
        (λ actions. ok (actions, record s { path = s.app ++ b'/' ∷ key; state = State.publishing }))

unfoldable pub publish_to : Session → Option Bytes → Outcome SessionError (List Action × Session)
publish_to s none = err no_stream
publish_to s (some text) = publish_key s (stream_key text)

unfoldable pub publish : Session → Values → Outcome SessionError (List Action × Session)
publish s vs = publish_to s (value_at vs 3 >>= as_str)

unfoldable pub close : Session → List Action × Session
close s =
    ((if is_publishing s.state then unpublish ∷ [] else []), record s { state = State.connected })

unfoldable pub run_command :
    Session → Bytes → ℕ → Values → Outcome SessionError (List Action × Session)
run_command s name transaction vs =
    if same_bytes name connect_name
    then connect s vs transaction
    else if same_bytes name create_stream_name
    then Outcome.◌>>=◌ (create_stream_replies transaction) (λ actions. ok (actions, s))
    else if same_bytes name publish_name
    then publish s vs
    else if same_bytes name delete_stream_name
        || same_bytes name close_stream_name
        || same_bytes name fc_unpublish_name
    then ok (close s)
    else ok ([], s)

unfoldable pub named_command :
    Session → Values → Option Bytes → Outcome SessionError (List Action × Session)
named_command s vs none = err nameless
named_command s vs (some name) =
    run_command s name (transaction_or_zero (value_at vs 1 >>= as_f64)) vs

abbrev pub of_amf0 {ℓ} : {R : Type ℓ} → Outcome Amf0Error R → Outcome SessionError R
of_amf0 (ok r) = ok r
of_amf0 (err why) = err (SessionError.amf0 why)
of_amf0 panic = panic
of_amf0 spent = spent

unfoldable pub command :
    (Bytes → Bool) → Session → Bytes → Outcome SessionError (List Action × Session)
command is_utf8 s payload =
    Outcome.◌>>=◌ (of_amf0 (read_all is_utf8 payload))
      (λ vs. named_command s vs (value_at vs 0 >>= as_str))
