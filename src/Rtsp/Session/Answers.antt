-- ===== src/Rtsp/Session/Answers.antt =====
-- Every request of src/rtsp/session.rs is answered.
use relaybay.Base.{
  ℕ, Bool, true, false, if◌then◌else◌, Option, none, some, List, [], ◌∷◌, Bytes, ◌≡◌, refl,
}
use relaybay.Text.{codes}
use relaybay.Track.{Description, Track}
use relaybay.Rtsp.Status
use relaybay.Rtsp.Message.{Request, get_header, sequence}
use relaybay.Rtsp.Message
use relaybay.Rtsp.Transport.{Transport}
use relaybay.Rtsp.Session.Types.{
  Session, Setup, Action, State, init, ready, playing, respond, play, pause, teardown,
}
use relaybay.Rtsp.Session.Handle.{
  Lookup, handle, dispatch, described, set_up_in, set_up, set_described, set_track, agreed, start,
  stop, sequence_or_zero,
}

-- One answer, which comes first and repeats the number. What else is to be done follows an answer
-- that says OK, and is no answer.
pub data IsAnswered (number : Bytes) : List Action → Type 0 where
  told :
      {r : Message.Response}
      → get_header (codes "CSeq") r.headers ≡ some number
      → IsAnswered number (respond r ∷ [])
  starts :
      {r : Message.Response} {path : Bytes} {tracks : List Setup}
      → get_header (codes "CSeq") r.headers ≡ some number
      → r.status ≡ Status.ok
      → IsAnswered number (respond r ∷ play path tracks ∷ [])
  pauses :
      {r : Message.Response}
      → get_header (codes "CSeq") r.headers ≡ some number
      → r.status ≡ Status.ok
      → IsAnswered number (respond r ∷ pause ∷ [])
  ends :
      {r : Message.Response}
      → get_header (codes "CSeq") r.headers ≡ some number
      → r.status ≡ Status.ok
      → IsAnswered number (respond r ∷ teardown ∷ [])

module _ (request : Request) (number : Bytes) (s : Session) where
  described-IsAnswered :
      (path : Bytes) (found : Option Description)
      → IsAnswered number (described request number s path found).1
  unfolding described get_header
  described-IsAnswered path none = told refl
  described-IsAnswered path (some description) = told refl

  agreed-IsAnswered :
      (path : Bytes) (track : ℕ) (chosen : Option Transport)
      → IsAnswered number (agreed number s path track chosen).1
  unfolding agreed get_header
  agreed-IsAnswered path track none = told refl
  agreed-IsAnswered path track (some transport) = told refl

  set_track-IsAnswered :
      (path : Bytes) (found : Option Track)
      → IsAnswered number (set_track request number s path found).1
  unfolding set_track get_header
  set_track-IsAnswered path none = told refl
  set_track-IsAnswered path (some track) = agreed-IsAnswered path track.id _

  set_described-IsAnswered :
      (path : Bytes) (index : Option ℕ) (found : Option Description)
      → IsAnswered number (set_described request number s path index found).1
  unfolding set_described get_header
  set_described-IsAnswered path index none = told refl
  set_described-IsAnswered path index (some description) = set_track-IsAnswered path _

  either-IsAnswered :
      (b : Bool) (x y : Session × List Action)
      → IsAnswered number x.1
      → IsAnswered number y.1
      → IsAnswered number (if b then x else y).1
  either-IsAnswered true x y hx hy = hx
  either-IsAnswered false x y hx hy = hy

  set_up-IsAnswered :
      (lookup : Lookup) (named : Bytes × Option ℕ)
      → IsAnswered number (set_up lookup request number s named).1
  unfolding set_up get_header
  set_up-IsAnswered lookup (path, index) =
      either-IsAnswered _ _ _ (told refl) (set_described-IsAnswered path index (lookup path))

  set_up_in-IsAnswered :
      (lookup : Lookup) (state : State)
      → IsAnswered number (set_up_in lookup request number s state).1
  unfolding set_up_in get_header
  set_up_in-IsAnswered lookup playing = told refl
  set_up_in-IsAnswered lookup init = set_up-IsAnswered lookup _
  set_up_in-IsAnswered lookup ready = set_up-IsAnswered lookup _

  start-IsAnswered :
      (state : State) (path : Option Bytes) → IsAnswered number (start number s state path).1
  unfolding start get_header
  start-IsAnswered init path = told refl
  start-IsAnswered ready none = told refl
  start-IsAnswered playing none = told refl
  start-IsAnswered ready (some path) = starts refl refl
  start-IsAnswered playing (some path) = starts refl refl

  stop-IsAnswered : (state : State) → IsAnswered number (stop number s state).1
  unfolding stop get_header
  stop-IsAnswered init = told refl
  stop-IsAnswered ready = told refl
  stop-IsAnswered playing = pauses refl refl

  dispatch-IsAnswered :
      (lookup : Lookup) (method : Message.Method)
      → IsAnswered number (dispatch lookup request number s method).1
  unfolding dispatch get_header
  dispatch-IsAnswered lookup Message.options = told refl
  dispatch-IsAnswered lookup Message.describe = described-IsAnswered _ _
  dispatch-IsAnswered lookup Message.setup = set_up_in-IsAnswered lookup s.state
  dispatch-IsAnswered lookup Message.play = start-IsAnswered s.state s.path
  dispatch-IsAnswered lookup Message.pause = stop-IsAnswered s.state
  dispatch-IsAnswered lookup Message.teardown = ends refl refl
  dispatch-IsAnswered lookup Message.get_parameter = told refl
  dispatch-IsAnswered lookup Message.announce = told refl
  dispatch-IsAnswered lookup Message.record_method = told refl
  dispatch-IsAnswered lookup Message.set_parameter = told refl
  dispatch-IsAnswered lookup (Message.other name) = told refl

-- Every request gets one answer, before anything else is done, with the request's sequence number,
-- or 0 where it has none; and a stream starts or stops, or the session ends, only behind an answer
-- of 200.
pub handle-IsAnswered :
    (lookup : Lookup) (request : Request) (s : Session)
    → IsAnswered (sequence_or_zero (sequence request)) (handle lookup request s).1
unfolding handle
handle-IsAnswered lookup request s = dispatch-IsAnswered request _ s lookup request.method
