-- ===== src/Rtmp/Session/Protocol.antt =====
-- The order in which src/rtmp/session.rs asks for things, and what holds of a session all the time.
use relaybay.Base.{ℕ, ◌+◌, ◌<◌, ◌≤◌, Bool, true, false, Option, none, some, List, [], ◌∷◌, ◌++◌}
use relaybay.Codec.H264.Usable.{IsUsable}
use relaybay.Rtmp.Session.Settle.{is_some}
use relaybay.Rtmp.Session.Types.{Action, Session, Published, window_size}

-- Whether a stream has been announced, some actions, and whether one has been then: it is announced
-- once at most, and no unit comes before that.
pub data Follows : Bool → List Action → Bool → Type 0 where
  nothing : {b : Bool} → Follows b [] b
  sends :
      {b b' : Bool} {csid : ℕ} {m : _} {todo : List Action}
      → Follows b todo b'
      → Follows b (Action.send csid m ∷ todo) b'
  resizes :
      {b b' : Bool} {n : ℕ} {todo : List Action}
      → Follows b todo b'
      → Follows b (Action.set_chunk_size n ∷ todo) b'
  announces :
      {b' : Bool} {path : _} {d : _} {todo : List Action}
      → Follows true todo b'
      → Follows false (Action.publish path d ∷ todo) b'
  delivers :
      {b' : Bool} {u : _} {todo : List Action}
      → Follows true todo b'
      → Follows true (Action.unit u ∷ todo) b'
  ends :
      {b b' : Bool} {todo : List Action}
      → Follows b todo b'
      → Follows b (Action.unpublish ∷ todo) b'

pub Follows-append :
    {b b' b'' : Bool} {todo cs : List Action}
    → Follows b todo b'
    → Follows b' cs b''
    → Follows b (todo ++ cs) b''
Follows-append nothing k = k
Follows-append (sends h) k = sends (Follows-append h k)
Follows-append (resizes h) k = resizes (Follows-append h k)
Follows-append (announces h) k = announces (Follows-append h k)
Follows-append (delivers h) k = delivers (Follows-append h k)
Follows-append (ends h) k = ends (Follows-append h k)

-- Whether the session has announced its stream.
unfoldable pub announced : Session → Bool
announced s = is_some s.published

abbrev pub OptAll {ℓ} : {A : Type ℓ} → (A → Type 0) → Option A → Type 0
OptAll P none = Unit
OptAll P (some a) = P a

-- Length prefixes of one to four bytes.
abbrev pub HasWidth : ℕ × ℕ → Type 0
HasWidth (track, width) = (1 ≤ width) × (width ≤ 4)

abbrev pub IsSettled : Published → Type 0
IsSettled published = OptAll HasWidth published.video

-- What is kept of a sequence header is usable, the widths of a settled stream are those of a header, and
-- less than a window has come in since the last acknowledgement.
pub record IsValid (s : Session) : Type 0 where
  pub usable : OptAll IsUsable s.pending.video
  pub settled : OptAll IsSettled s.published
  pub counted : s.acknowledged ≤ s.received
  pub owed : s.received < s.acknowledged + window_size
