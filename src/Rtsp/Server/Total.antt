-- ===== src/Rtsp/Server/Total.antt =====
-- The loop of src/rtsp/server.rs ends, with more fuel than there are bytes, as it serves message by message.
use relaybay.Base.{ℕ, zero, suc, ◌≤◌, ◌<◌, ◌≡◌, refl, ap, subst, arith}
use relaybay.Base.{Option, none, some, List, [], ◌∷◌, ◌++◌, Bytes, length}
use relaybay.Base.Outcome.{Outcome, ok, ◌>>=◌, Ensures, Ensures-ok, returns, fails, Ensures-weaken}
use relaybay.Rtsp.Message.{Request, response_bytes}
use relaybay.Rtsp.Incoming.{Incoming, RtspError, read}
use relaybay.Rtsp.Incoming.Advance.{IsTaken, read-IsTaken}
use relaybay.Rtsp.Session.Types.{Action, respond, play, pause, teardown}
use relaybay.Rtsp.Session.Handle.{handle}
use relaybay.Rtsp.Server.{
  Connection, World, After, Bound, goes_on, closes, begin, act, go_on, serve_one, serve, Served,
  attach,
}
use relaybay.Rtsp.Server.Serving.{
  Serves, waits, skips, answers, ends, answered, extend, Serves-extend,
}

-- What is done about a request leaves the buffer.
HasBuf : Bytes → After → Type 0
HasBuf buf (goes_on c) = c.buf ≡ buf
HasBuf buf (closes out) = Unit {0}

begin-HasBuf :
    (next : Connection → After) (c : Connection) (made : Option (List Bound) × ℕ)
    → ((c' : Connection) → HasBuf c'.buf (next c'))
    → HasBuf c.buf (begin next c made)
unfolding begin HasBuf
begin-HasBuf next c (none, counter) h = tt
begin-HasBuf next c (some bounds, counter) h =
    h (record c { playing = some bounds; counter = counter })

act-HasBuf : (w : World) (actions : List Action) (c : Connection) → HasBuf c.buf (act w actions c)
unfolding act HasBuf
act-HasBuf w [] c = refl
act-HasBuf w (respond r ∷ actions) c =
    act-HasBuf w actions (record c { out = c.out ++ response_bytes r })
act-HasBuf w (play path setups ∷ actions) c =
    begin-HasBuf (act w actions) c (attach (w.opened path) setups c.counter) (act-HasBuf w actions)
act-HasBuf w (pause ∷ actions) c = act-HasBuf w actions (record c { playing = none })
act-HasBuf w (teardown ∷ actions) c = tt

module _ (w : World) (fuel : ℕ)
    (again : (c' : Connection)
      → length c'.buf < fuel
      → Ensures (Serves w c') (serve fuel w c')) where
  request-Serves :
      (c : Connection) (request : Request) (rest : Bytes) (after : After)
      → read c.buf ≡ ok (some (Incoming.request request), rest)
      → length rest < fuel
      → act w (handle w.lookup request c.session).1 (answered w request rest c) ≡ after
      → HasBuf rest after
      → Ensures (Serves w c) (go_on (serve fuel w) after)
  unfolding go_on HasBuf
  request-Serves c request rest (closes out) e h done has = returns (ends e done)
  request-Serves c request rest (goes_on c') e h done has =
      Ensures-weaken (again c' (omega (arith, ap length has))) λ after first. answers e done first

  taken-Serves :
      (c : Connection) (taken : Option Incoming × Bytes)
      → read c.buf ≡ ok taken
      → length c.buf ≤ fuel
      → IsTaken c.buf taken
      → Ensures (Serves w c) (serve_one (serve fuel w) w c taken)
  unfolding serve_one IsTaken
  taken-Serves c (none, rest) e h less = returns (waits e)
  taken-Serves c (some (Incoming.interleaved channel report), rest) e h less =
      Ensures-weaken (again (record c { buf = rest }) (omega arith)) λ after first. skips e first
  taken-Serves c (some (Incoming.request request), rest) e h less =
      request-Serves c request rest _ e (omega arith) refl
        (act-HasBuf w (handle w.lookup request c.session).1 (answered w request rest c))

read_and :
    (m : Outcome RtspError (Option Incoming × Bytes)) (P : After → Type 0)
    (next : Option Incoming × Bytes → Served) (Q : Option Incoming × Bytes → Type 0)
    → Ensures Q m
    → ((taken : Option Incoming × Bytes) → m ≡ ok taken → Q taken → Ensures P (next taken))
    → Ensures P (m >>= next)
read_and _ P next Q (returns {result} q) h = h result refl q
read_and _ P next Q fails h = fails

-- With more fuel than there are bytes, the loop ends: it serves message by message, or the connection
-- ends with what is wrong.
pub serve-Serves :
    (fuel : ℕ) (w : World) (c : Connection)
    → length c.buf < fuel
    → Ensures (Serves w c) (serve fuel w c)
unfolding serve
serve-Serves zero w c h = absurd (omega arith)
serve-Serves (suc fuel) w c h =
    read_and (read c.buf) (Serves w c) _ (IsTaken c.buf) (read-IsTaken c.buf)
      λ taken e less. taken-Serves w fuel (serve-Serves fuel w) c taken e (omega arith) less

taken-less :
    (buf rest : Bytes) (found : Incoming)
    → read buf ≡ ok (some found, rest)
    → length rest < length buf
unfolding IsTaken
taken-less buf rest found e = Ensures-ok (read-IsTaken buf) e

acted-buf :
    (w : World) (actions : List Action) (c c' : Connection)
    → act w actions c ≡ goes_on c'
    → c'.buf ≡ c.buf
unfolding HasBuf
acted-buf w actions c c' e = subst (HasBuf c.buf) e (act-HasBuf w actions c)

-- And what is served message by message, the loop comes to.
pub Serves-serve :
    (w : World) (fuel : ℕ) {c : Connection} {after : After}
    → Serves w c after
    → length c.buf < fuel
    → serve fuel w c ≡ ok after
unfolding serve serve_one go_on
Serves-serve w zero served h = absurd (omega arith)
Serves-serve w (suc fuel) (waits e) h = rw e refl
Serves-serve w (suc fuel) {c} (skips {rest = rest} e first) h =
    rw e (Serves-serve w fuel first (omega (arith, taken-less c.buf rest _ e)))
Serves-serve w (suc fuel) {c} (answers {c' = c'} {request = request} {rest = rest} e done first) h =
    rw (e, done)
      (Serves-serve w fuel first (
        omega (
          arith,
          taken-less c.buf rest _ e,
          ap length (
              acted-buf w (handle w.lookup request c.session).1 (answered w request rest c) c'
                done),
        )))
Serves-serve w (suc fuel) (ends e done) h = rw (e, done) refl

-- Where the loop stops to wait, and more comes in, and it comes to something then: it comes to the same
-- where all has come in at once. Each run has more fuel than it has bytes.
pub serve-extend :
    (w : World) (more : Bytes) (c c' : Connection) (after : After) (first later whole : ℕ)
    → length c.buf < first
    → serve first w c ≡ ok (goes_on c')
    → length (c'.buf ++ more) < later
    → serve later w (extend more c') ≡ ok after
    → length (c.buf ++ more) < whole
    → serve whole w (extend more c) ≡ ok after
serve-extend w more c c' after first later whole h e h' e' h'' =
    Serves-serve w whole
      (Serves-extend w more after (Ensures-ok (serve-Serves first w c h) e) refl
        (Ensures-ok (serve-Serves later w (extend more c') h') e'))
      h''
