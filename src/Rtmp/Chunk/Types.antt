-- ===== src/Rtmp/Chunk/Types.antt =====
-- The data of src/rtmp/chunk.rs: message types, messages, what a chunk stream remembers, and the
-- outcomes of an operation.
use relaybay.Base.{ℕ, ◌+◌, ◌-◌, ◌*◌, ◌≡◌, refl, ap, sym, ◌∙◌, Bool, true, eqb}
use Prim.Native.String.{String}
use relaybay.Base.{arith, eqb_iff, if◌then◌else◌, ◌&&◌, leb, Option, none, some, Bytes}

abbrev pub default_chunk_size : ℕ
default_chunk_size = 128

abbrev pub max_chunk_size : ℕ
max_chunk_size = 0xff_ffff

abbrev pub max_message_length : ℕ
max_message_length = 0xff_ffff

abbrev pub max_assembled_length : ℕ
max_assembled_length = 8 * 1024 * 1024

abbrev pub max_chunk_streams : ℕ
max_chunk_streams = 64

abbrev pub extended_timestamp : ℕ
extended_timestamp = 0xff_ffff

pub data MessageType : Type 0 where
  set_chunk_size abort acknowledgement user_control window_ack_size set_peer_bandwidth : MessageType
  audio video amf3_data amf3_command amf0_data amf0_command aggregate : MessageType
  other : ℕ → MessageType

unfoldable pub from_id : ℕ → MessageType
from_id i =
    if eqb i 1
    then set_chunk_size
    else if eqb i 2
    then abort
    else if eqb i 3
    then acknowledgement
    else if eqb i 4
    then user_control
    else if eqb i 5
    then window_ack_size
    else if eqb i 6
    then set_peer_bandwidth
    else if eqb i 8
    then audio
    else if eqb i 9
    then video
    else if eqb i 15
    then amf3_data
    else if eqb i 17
    then amf3_command
    else if eqb i 18
    then amf0_data
    else if eqb i 20
    then amf0_command
    else if eqb i 22
    then aggregate
    else other i

unfoldable pub id : MessageType → ℕ
id set_chunk_size = 1
id abort = 2
id acknowledgement = 3
id user_control = 4
id window_ack_size = 5
id set_peer_bandwidth = 6
id audio = 8
id video = 9
id amf3_data = 15
id amf3_command = 17
id amf0_data = 18
id amf0_command = 20
id aggregate = 22
id (other i) = i

-- The derived comparison: the variants by number, `Other` behind all of them by its contents.
unfoldable pub variant : MessageType → ℕ
variant set_chunk_size = 0
variant abort = 1
variant acknowledgement = 2
variant user_control = 3
variant window_ack_size = 4
variant set_peer_bandwidth = 5
variant audio = 6
variant video = 7
variant amf3_data = 8
variant amf3_command = 9
variant amf0_data = 10
variant amf0_command = 11
variant aggregate = 12
variant (other i) = 13 + i

unfoldable pub same_kind : MessageType → MessageType → Bool
unfolding variant
same_kind a b = eqb (variant a) (variant b)

pub record Message : Type 0 where
  pub timestamp : ℕ
  pub kind : MessageType
  pub stream_id : ℕ
  pub payload : Bytes

-- `ChunkStreamId::new`: the ids that a basic header can state.
unfoldable pub new_chunk_stream_id : ℕ → Option ℕ
new_chunk_stream_id i = if leb 2 i && leb i 65599 then some i else none

pub data ChunkError : Type 0 where
  nothing_to_inherit : ℕ → ℕ → ChunkError
  interleaved : ℕ → ℕ → ChunkError
  message_too_long : ℕ → ℕ → ChunkError
  too_many_chunk_streams : ChunkError
  invalid_chunk_size : ℕ → ChunkError
  malformed_control : String → ℕ → ChunkError

-- What a chunk stream remembers of the message it is carrying.
pub record State : Type 0 where
  pub timestamp : ℕ
  pub delta : ℕ
  pub length : ℕ
  pub kind : MessageType
  pub stream_id : ℕ
  pub extended : Bool

pub record ChunkStream : Type 0 where
  pub state : State
  pub payload : Bytes

-- A `Result`, with the two ways in which the code could fail to return one: a panic (an `expect` on
-- nothing, a subtraction below zero), and a loop that has used up the model's fuel.
pub data Outcome {ℓ} (A : Type ℓ) : Type ℓ where
  ok : A → Outcome A
  err : ChunkError → Outcome A
  panic : Outcome A
  spent : Outcome A

-- `decode_variant` is the inverse that shows the comparison to be equality.
decode_variant : ℕ → MessageType
decode_variant n =
    if eqb n 0
    then set_chunk_size
    else if eqb n 1
    then abort
    else if eqb n 2
    then acknowledgement
    else if eqb n 3
    then user_control
    else if eqb n 4
    then window_ack_size
    else if eqb n 5
    then set_peer_bandwidth
    else if eqb n 6
    then audio
    else if eqb n 7
    then video
    else if eqb n 8
    then amf3_data
    else if eqb n 9
    then amf3_command
    else if eqb n 10
    then amf0_data
    else if eqb n 11
    then amf0_command
    else if eqb n 12
    then aggregate
    else other (n - 13)

decode_variant-variant : (k : MessageType) → decode_variant (variant k) ≡ k
unfolding decode_variant variant
decode_variant-variant (other i) = ground arith
decode_variant-variant _ = refl

pub same_kind→eq : (a b : MessageType) → same_kind a b ≡ true → a ≡ b
unfolding same_kind
same_kind→eq a b h =
    sym (decode_variant-variant a)
    ∙ ap decode_variant ((eqb_iff (variant a) (variant b)).0 h)
    ∙ decode_variant-variant b

pub same_kind_refl : (a : MessageType) → same_kind a a ≡ true
unfolding same_kind
same_kind_refl a = (eqb_iff (variant a) (variant a)).1 refl
