-- ===== src/Rtsp/Server/Serving.antt =====
-- The loop of src/rtsp/server.rs over its buffer, without the fuel, and how the stream is cut up.
use relaybay.Base.{ℕ, ◌≡◌, refl, sym, ap, ◌∙◌, subst}
use relaybay.Base.{Option, none, some, List, [], ◌∷◌, ◌++◌, Bytes}
use relaybay.Base.Outcome.{ok, Ensures-ok}
use relaybay.Rtsp.Message.{Request}
use relaybay.Rtsp.Incoming.{Incoming, read}
use relaybay.Rtsp.Incoming.Settled.{read-more}
use relaybay.Rtsp.Incoming.Advance.{IsTaken, read-IsTaken}
use relaybay.Rtsp.Session.Types.{Action, respond, play, pause, teardown}
use relaybay.Rtsp.Session.Handle.{handle}
use relaybay.Rtsp.Server.{Connection, World, After, Bound, goes_on, closes, begin, act, attach}

-- A connection to which more has come in.
abbrev pub extend : Bytes → Connection → Connection
extend more c = record c { buf = c.buf ++ more }

abbrev pub extend_after : Bytes → After → After
extend_after more (goes_on c) = goes_on (extend more c)
extend_after more (closes out) = closes out

-- What is done about a request does not look at the buffer.
begin-extend :
    (more : Bytes) (next : Connection → After) (c : Connection) (made : Option (List Bound) × ℕ)
    → ((c' : Connection) → next (extend more c') ≡ extend_after more (next c'))
    → begin next (extend more c) made ≡ extend_after more (begin next c made)
unfolding begin
begin-extend more next c (none, counter) h = refl
begin-extend more next c (some bounds, counter) h =
    h (record c { playing = some bounds; counter = counter })

act-extend :
    (w : World) (more : Bytes) (actions : List Action) (c : Connection)
    → act w actions (extend more c) ≡ extend_after more (act w actions c)
unfolding act
act-extend w more [] c = refl
act-extend w more (respond r ∷ actions) c = act-extend w more actions _
act-extend w more (play path setups ∷ actions) c =
    begin-extend more (act w actions) c (attach (w.opened path) setups c.counter)
      (act-extend w more actions)
act-extend w more (pause ∷ actions) c = act-extend w more actions _
act-extend w more (teardown ∷ actions) c = refl

-- The connection behind a request that has been answered, before what is to be done is done.
abbrev pub answered : World → Request → Bytes → Connection → Connection
answered w request rest c = record c { buf = rest; session = (handle w.lookup request c.session).0 }

-- What the loop comes to, message by message.
pub data Serves (w : World) : Connection → After → Type 0 where
  waits :
      {c : Connection} {rest : Bytes}
      → read c.buf ≡ ok (none, rest)
      → Serves w c (goes_on (record c { buf = rest }))
  skips :
      {c : Connection} {channel : ℕ} {report rest : Bytes} {after : After}
      → read c.buf ≡ ok (some (Incoming.interleaved channel report), rest)
      → Serves w (record c { buf = rest }) after
      → Serves w c after
  answers :
      {c c' : Connection} {request : Request} {rest : Bytes} {after : After}
      → read c.buf ≡ ok (some (Incoming.request request), rest)
      → act w (handle w.lookup request c.session).1 (answered w request rest c) ≡ goes_on c'
      → Serves w c' after
      → Serves w c after
  ends :
      {c : Connection} {request : Request} {rest out : Bytes}
      → read c.buf ≡ ok (some (Incoming.request request), rest)
      → act w (handle w.lookup request c.session).1 (answered w request rest c) ≡ closes out
      → Serves w c (closes out)

goes_on_inj : {c c' : Connection} → goes_on c ≡ goes_on c' → c ≡ c'
goes_on_inj e = cc

waits-same : (buf rest : Bytes) → read buf ≡ ok (none, rest) → rest ≡ buf
unfolding IsTaken
waits-same buf rest e = Ensures-ok (read-IsTaken buf) e

-- Serving what has come in, then what comes in later, is serving the whole.
pub Serves-extend :
    (w : World) (more : Bytes) (after : After) {c c' : Connection} {mid : After}
    → Serves w c mid
    → mid ≡ goes_on c'
    → Serves w (extend more c') after
    → Serves w (extend more c) after
Serves-extend w more after {c} (waits {rest = rest} e) same later =
    let whole : rest ≡ c.buf = waits-same c.buf rest e in
    subst (λ x. Serves w (extend more x) after)
      (sym (goes_on_inj same) ∙ ap (λ buf. record c { buf = buf }) whole) later
Serves-extend w more after {c} (skips {report = report} {rest = rest} e first) same later =
    skips (read-more c.buf more rest _ e) (Serves-extend w more after first same later)
Serves-extend w more after {c} (answers {request = request} {rest = rest} e done first) same later =
    answers (read-more c.buf more rest _ e)
      (act-extend w more _ (answered w request rest c) ∙ ap (extend_after more) done)
      (Serves-extend w more after first same later)
Serves-extend w more after (ends e done) same later = cc
