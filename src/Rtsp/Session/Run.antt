-- ===== src/Rtsp/Session/Run.antt =====
-- The requests of one connection of src/rtsp/session.rs, one behind another.
use relaybay.Base.{
  ℕ, Bool, true, false, if◌then◌else◌, Option, none, some, List, [], ◌∷◌, ◌++◌, Bytes,
}
use relaybay.Base.{All, All-append, is_empty, ◌≡◌, ◌≢◌, refl, ◌∙◌, subst}
use relaybay.Track.{Description, Track}
use relaybay.Rtsp.Message.{Request, sequence}
use relaybay.Rtsp.Message
use relaybay.Rtsp.Transport.{Transport}
use relaybay.Rtsp.Session.Types.{
  Session, Setup, Action, State, init, ready, playing, respond, play, pause, teardown, new,
  accepting_udp,
}
use relaybay.Rtsp.Session.Handle.{
  Lookup, Handled, handle, dispatch, described, set_up_in, set_up, set_described, set_track, agreed,
  start, stop, sequence_or_zero,
}
use relaybay.Rtsp.Session.Setups.{AreDistinct, IsSendable}
use relaybay.Rtsp.Session.Invariant.{IsBegun, waits, sends, IsValid, handle-IsValid, new-IsValid}

-- What is done behind requests in a row, each with what the registry says at the time.
unfoldable pub run : List (Lookup × Request) → Session → List Action
run [] s = []
run ((lookup, request) ∷ steps) s =
    let after = handle lookup request s in after.1 ++ run steps after.0

-- What is asked to be sent is a track at least, no track twice, and each where the server can send.
unfoldable pub IsFit : Bool → Action → Type 0
IsFit over_udp (respond r) = Unit {0}
IsFit over_udp pause = Unit {0}
IsFit over_udp teardown = Unit {0}
IsFit over_udp (play path tracks) =
    (is_empty tracks ≡ false) × AreDistinct tracks × All (IsSendable over_udp) tracks

-- What a request does not change, and what it asks for.
record IsKept (s : Session) (after : Handled) : Type 0 where
  same_udp : after.0.udp ≡ s.udp
  same_id : after.0.id ≡ s.id
  fit : All (IsFit s.udp) after.1

module _ (s : Session) (valid : IsValid s) (lookup : Lookup) (request : Request)
    (number : Bytes) where
  unchanged : (r : Message.Response) → IsKept s (s, respond r ∷ [])
  unfolding IsFit
  unchanged r = record { same_udp = refl; same_id = refl; fit = (tt, tt) }

  described-IsKept :
      (path : Bytes) (found : Option Description) → IsKept s (described request number s path found)
  unfolding described IsFit
  described-IsKept path none = unchanged _
  described-IsKept path (some description) = record {
    same_udp = refl;
    same_id = refl;
    fit = (tt, tt);
  }

  agreed-IsKept :
      (path : Bytes) (track : ℕ) (chosen : Option Transport)
      → IsKept s (agreed number s path track chosen)
  unfolding agreed IsFit
  agreed-IsKept path track none = unchanged _
  agreed-IsKept path track (some transport) = record {
    same_udp = refl;
    same_id = refl;
    fit = (tt, tt);
  }

  set_track-IsKept :
      (path : Bytes) (found : Option Track) → IsKept s (set_track request number s path found)
  unfolding set_track IsFit
  set_track-IsKept path none = unchanged _
  set_track-IsKept path (some track) = agreed-IsKept path track.id _

  set_described-IsKept :
      (path : Bytes) (index : Option ℕ) (found : Option Description)
      → IsKept s (set_described request number s path index found)
  unfolding set_described IsFit
  set_described-IsKept path index none = unchanged _
  set_described-IsKept path index (some description) = set_track-IsKept path _

  either-IsKept :
      (b : Bool) (x y : Handled) → IsKept s x → IsKept s y → IsKept s (if b then x else y)
  either-IsKept true x y hx hy = hx
  either-IsKept false x y hx hy = hy

  set_up-IsKept : (named : Bytes × Option ℕ) → IsKept s (set_up lookup request number s named)
  unfolding set_up
  set_up-IsKept (path, index) =
      either-IsKept _ _ _ (unchanged _) (set_described-IsKept path index (lookup path))

  set_up_in-IsKept : (state : State) → IsKept s (set_up_in lookup request number s state)
  unfolding set_up_in
  set_up_in-IsKept playing = unchanged _
  set_up_in-IsKept init = set_up-IsKept _
  set_up_in-IsKept ready = set_up-IsKept _

  IsBegun→some :
      (state : State) (path : Option Bytes) (setups : List Setup)
      → IsBegun state path setups
      → state ≢ init
      → is_empty setups ≡ false
  IsBegun→some _ _ _ waits h = refl
  IsBegun→some _ _ _ sends h = refl
  IsBegun→some _ _ _ IsBegun.nothing_yet h = absurd (h refl)

  start-IsKept :
      (state : State) (path : Option Bytes)
      → IsBegun state s.path s.tracks
      → IsKept s (start number s state path)
  unfolding start IsFit
  start-IsKept init path b = unchanged _
  start-IsKept ready none b = unchanged _
  start-IsKept playing none b = unchanged _
  start-IsKept ready (some path) b = record {
    same_udp = refl;
    same_id = refl;
    fit = (tt, ((IsBegun→some _ _ _ b (cc), valid.distinct, valid.sendable), tt));
  }
  start-IsKept playing (some path) b = record {
    same_udp = refl;
    same_id = refl;
    fit = (tt, ((IsBegun→some _ _ _ b (cc), valid.distinct, valid.sendable), tt));
  }

  stop-IsKept : (state : State) → IsKept s (stop number s state)
  unfolding stop IsFit
  stop-IsKept init = unchanged _
  stop-IsKept ready = unchanged _
  stop-IsKept playing = record { same_udp = refl; same_id = refl; fit = (tt, (tt, tt)) }

  dispatch-IsKept : (method : Message.Method) → IsKept s (dispatch lookup request number s method)
  unfolding dispatch IsFit
  dispatch-IsKept Message.options = unchanged _
  dispatch-IsKept Message.describe = described-IsKept _ _
  dispatch-IsKept Message.setup = set_up_in-IsKept s.state
  dispatch-IsKept Message.play = start-IsKept s.state s.path valid.begun
  dispatch-IsKept Message.pause = stop-IsKept s.state
  dispatch-IsKept Message.teardown = record {
    same_udp = refl;
    same_id = refl;
    fit = (tt, (tt, tt));
  }
  dispatch-IsKept Message.get_parameter = unchanged _
  dispatch-IsKept Message.announce = unchanged _
  dispatch-IsKept Message.record_method = unchanged _
  dispatch-IsKept Message.set_parameter = unchanged _
  dispatch-IsKept (Message.other name) = unchanged _

run-IsFit_from :
    (steps : List (Lookup × Request)) (s : Session) (over_udp : Bool)
    → IsValid s
    → s.udp ≡ over_udp
    → All (IsFit over_udp) (run steps s)
unfolding run handle
run-IsFit_from [] s over_udp valid e = tt
run-IsFit_from ((lookup, request) ∷ steps) s over_udp valid e =
    let kept =
      dispatch-IsKept s valid lookup request (sequence_or_zero (sequence request)) request.method in
    let after = handle lookup request s in
    All-append (IsFit over_udp) after.1 (run steps after.0)
      (subst (λ u. All (IsFit u) after.1) e kept.fit)
      (run-IsFit_from steps after.0 over_udp (handle-IsValid lookup request s valid)
        (kept.same_udp ∙ e))

-- Whatever a new connection requests, and whatever the registry says: what it is to be sent is one
-- track at least, no track twice, and over UDP only where the server can.
pub run-IsFit :
    (steps : List (Lookup × Request)) (counter : ℕ) (over_udp : Bool)
    → All (IsFit over_udp) (run steps (accepting_udp over_udp (new counter)))
unfolding accepting_udp
run-IsFit steps counter over_udp =
    run-IsFit_from steps (accepting_udp over_udp (new counter)) over_udp
      (new-IsValid counter over_udp) refl
