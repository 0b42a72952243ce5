-- ===== src/Rtmp/Chunk/Reader.antt =====
-- `Reader` of src/rtmp/chunk.rs: chunks in, messages out.
-- A method returns its result, the reader and the buffer as the call leaves them, also when it fails.
use relaybay.Base.{ℕ, zero, suc, ◌+◌, ◌-◌, ◌%◌, ◌^◌, eqb, leb, ltb, ◌&&◌, ◌||◌}
use relaybay.Base.{if◌then◌else◌, Option, none, some, List, [], ◌++◌, Bytes, length, take, drop}
use relaybay.Base.{min, slice, is_empty, get, insert, nat_eq, from_be, from_le, take_at, not}
use relaybay.Rtmp.Chunk.Types.{
  MessageType, Message, State, ChunkStream, ChunkError, Outcome, from_id, set_chunk_size, abort, ok,
  err, panic, spent, nothing_to_inherit, interleaved, message_too_long, too_many_chunk_streams,
  invalid_chunk_size, malformed_control, default_chunk_size, max_chunk_size, max_assembled_length,
  max_chunk_streams, extended_timestamp,
}
use relaybay.Rtmp.Chunk.Header.{read_basic_header, take_u32}
use Prim.Native.String.{String}

pub record Reader : Type 0 where
  pub streams : List (ℕ × ChunkStream)
  pub chunk_size : ℕ

unfoldable pub new : Reader
new = record { streams = []; chunk_size = default_chunk_size }

-- What reading one chunk came to.
pub data Step : Type 0 where
  message : Message → Step
  absorbed : Step
  need_more : Step

-- A header read in part: the chunk stream's new state and the position behind it.
pub data Parsed : Type 0 where
  ready : State → ℕ → Parsed
  short : Parsed
  unexpected : Parsed

-- `previous`: the state of the chunk stream and how much of a message it holds.
abbrev pub Previous : Type 0
Previous = Option (State × ℕ)

-- The first `match previous`: the reasons to refuse a chunk that show before its header is read.
unfoldable pub refusal : Previous → ℕ → ℕ → ℕ → Option ChunkError
refusal none fmt csid open_streams =
    if not (eqb fmt 0)
    then some (nothing_to_inherit csid fmt)
    else if leb max_chunk_streams open_streams
    then some too_many_chunk_streams
    else none
refusal (some (_, pending)) fmt csid open_streams =
    if not (eqb fmt 3) && ltb 0 pending then some (interleaved csid pending) else none

-- The timestamp field, or the four bytes after the header where it is all ones.
unfoldable pub read_time : Bytes → ℕ → ℕ → Option (ℕ × ℕ)
read_time bs written pos =
    if eqb written extended_timestamp then take_u32 bs pos else some (written, pos)

-- The state that a full header states. There is no delta yet for a later chunk to repeat.
unfoldable pub state_0 : Bytes → Option (ℕ × ℕ) → Parsed
state_0 fields none = short
state_0 fields (some (timestamp, end)) =
    ready
      (record {
        timestamp = timestamp;
        delta = 0;
        length = from_be (slice 3 6 fields);
        kind = from_id (from_be (slice 6 7 fields));
        stream_id = from_le (slice 7 11 fields);
        extended = eqb (from_be (slice 0 3 fields)) extended_timestamp;
      })
      end

unfoldable pub format_0 : Bytes → ℕ → Parsed
format_0 bs pos = elim (take_at bs pos 11) [
  | none ↦ short
  | some (fields, pos') ↦ state_0 fields (read_time bs (from_be (slice 0 3 fields)) pos')
]

-- A header that states a delta. The counter wraps.
unfoldable pub state_1_2 : ℕ → State → Bytes → Option (ℕ × ℕ) → Parsed
state_1_2 fmt previous fields none = short
state_1_2 fmt previous fields (some (delta, end)) =
    ready
      (record {
        timestamp = (previous.timestamp + delta) % 2 ^ 32;
        delta = delta;
        length = if eqb fmt 1 then from_be (slice 3 6 fields) else previous.length;
        kind = if eqb fmt 1 then from_id (from_be (slice 6 7 fields)) else previous.kind;
        stream_id = previous.stream_id;
        extended = eqb (from_be (slice 0 3 fields)) extended_timestamp;
      })
      end

unfoldable pub format_1_2 : ℕ → Bytes → ℕ → State → Parsed
format_1_2 fmt bs pos previous = elim (take_at bs pos (if eqb fmt 1 then 7 else 3)) [
  | none ↦ short
  | some (fields, pos') ↦
      state_1_2 fmt previous fields (read_time bs (from_be (slice 0 3 fields)) pos')
]

-- Nothing changes in the middle of a message; a new one is a delta later.
unfoldable pub repeated : State → ℕ → State
repeated previous pending =
    if ltb 0 pending
    then previous
    else record previous { timestamp = (previous.timestamp + previous.delta) % 2 ^ 32 }

unfoldable pub format_3 : Bytes → ℕ → State → ℕ → Parsed
format_3 bs pos previous pending =
    if previous.extended
    then elim (take_u32 bs pos) [
      | none ↦ short
      | some (_, end) ↦ ready (repeated previous pending) end
    ]
    else ready (repeated previous pending) pos

-- `match fmt`. `unexpected` is the `expect` of the formats that inherit.
unfoldable pub parse_header : ℕ → Bytes → ℕ → Previous → Parsed
parse_header fmt bs pos previous = if eqb fmt 0 then format_0 bs pos else elim previous [
  | none ↦ unexpected
  | some (state, pending) ↦
      if eqb fmt 1
      then format_1_2 1 bs pos state
      else if eqb fmt 2
      then format_1_2 2 bs pos state
      else format_3 bs pos state pending
]

unfoldable pub control_u32 : Message → String → Outcome ℕ
control_u32 m kind =
    if eqb (length m.payload) 4
    then ok (from_be m.payload)
    else err (malformed_control kind (length m.payload))

-- `value & 0x7fff_ffff` is `value % 2 ^ 31`.
unfoldable pub apply_chunk_size : Reader → Outcome ℕ → Outcome (Unit {0}) × Reader
apply_chunk_size r (ok stated) =
    let value = stated % 2 ^ 31 in
    if eqb value 0 || ltb max_chunk_size value
    then (err (invalid_chunk_size value), r)
    else (ok tt, record r { chunk_size = value })
apply_chunk_size r (err e) = (err e, r)
apply_chunk_size r panic = (panic, r)
apply_chunk_size r spent = (spent, r)

unfoldable pub apply_abort : Reader → Outcome ℕ → Outcome (Unit {0}) × Reader
apply_abort r (ok csid) = elim (get csid r.streams) [
  | none ↦ (ok tt, r)
  | some stream ↦
      (ok tt, record r { streams = insert csid (record stream { payload = [] }) r.streams })
]
apply_abort r (err e) = (err e, r)
apply_abort r panic = (panic, r)
apply_abort r spent = (spent, r)

-- Acts on the two messages that reconfigure the chunk stream itself.
unfoldable pub apply : Reader → MessageType → Message → Outcome (Unit {0}) × Reader
apply r set_chunk_size m = apply_chunk_size r (control_u32 m "set chunk size")
apply r abort m = apply_abort r (control_u32 m "abort")
apply r _ m = (ok tt, r)

-- `self.apply(&message)?` and the message, with what is left of the buffer.
unfoldable pub delivered :
    Outcome (Unit {0}) × Reader → Message → Bytes → Outcome Step × Reader × Bytes
delivered (ok _, r) m rest = (ok (message m), r, rest)
delivered (err e, r) m rest = (err e, r, rest)
delivered (panic, r) m rest = (panic, r, rest)
delivered (spent, r) m rest = (spent, r, rest)

unfoldable pub deliver : Reader → Message → Bytes → Outcome Step × Reader × Bytes
deliver r m rest = delivered (apply r m.kind m) m rest

abbrev pub message_of : State → Bytes → Message
message_of state payload = record {
  timestamp = state.timestamp;
  kind = state.kind;
  stream_id = state.stream_id;
  payload = payload;
}

-- The payload of one chunk joins what the stream holds: `held` is that, `chunk` the new bytes.
unfoldable pub assemble : Reader → ℕ → State → Bytes → Bytes → Bytes → Outcome Step × Reader × Bytes
assemble r csid state held chunk rest =
    let held_after = λ (payload : Bytes). record r {
      streams = insert csid (record { state = state; payload = payload }) r.streams;
    } in
    if is_empty held && eqb (length chunk) state.length
    then deliver (held_after []) (message_of state chunk) rest
    else if eqb (length (held ++ chunk)) state.length
    then deliver (held_after []) (message_of state (held ++ chunk)) rest
    else (ok absorbed, held_after (held ++ chunk), rest)

-- From the length check on. `state.length - have` is the subtraction that could underflow.
unfoldable pub accept : Reader → Bytes → ℕ → State → ℕ → Bytes → Outcome Step × Reader × Bytes
accept r buf csid state pos held =
    if ltb max_assembled_length state.length
    then (err (message_too_long state.length max_assembled_length), r, buf)
    else if ltb state.length (length held)
    then (panic, r, buf)
    else let wanted = min (state.length - length held) r.chunk_size in
      if ltb (length buf) (pos + wanted)
      then (ok need_more, r, buf)
      else let rest = drop pos buf in
        assemble r csid state held (take wanted rest) (drop wanted rest)

abbrev pub held_by : Option ChunkStream → Bytes
held_by none = []
held_by (some stream) = stream.payload

abbrev pub previous_of : Option ChunkStream → Previous
previous_of none = none
previous_of (some stream) = some (stream.state, length stream.payload)

unfoldable pub after_header :
    Reader → Bytes → ℕ → Option ChunkStream → Parsed → Outcome Step × Reader × Bytes
after_header r buf csid stream (ready state end) = accept r buf csid state end (held_by stream)
after_header r buf csid stream short = (ok need_more, r, buf)
after_header r buf csid stream unexpected = (panic, r, buf)

unfoldable pub read_body :
    Reader → Bytes → ℕ → ℕ → ℕ → Option ChunkStream → Outcome Step × Reader × Bytes
read_body r buf fmt csid pos stream =
    elim (refusal (previous_of stream) fmt csid (length r.streams)) [
      | some e ↦ (err e, r, buf)
      | none ↦ after_header r buf csid stream (parse_header fmt buf pos (previous_of stream))
    ]

unfoldable pub read_chunk : Reader → Bytes → Outcome Step × Reader × Bytes
read_chunk r buf = elim (read_basic_header buf) [
  | none ↦ (ok need_more, r, buf)
  | some (fmt, csid, pos) ↦ read_body r buf fmt csid pos (get csid r.streams)
]

-- The loop of `read`. A chunk that is absorbed took a byte at least, so `length buf + 1` rounds
-- are enough.
unfoldable pub read_loop : ℕ → Reader → Bytes → Outcome (Option Message) × Reader × Bytes
read_loop zero r buf = (spent, r, buf)
read_loop (suc fuel) r buf =
    let (result, r', buf') = read_chunk r buf in
    elim result [
      | ok (message m) ↦ (ok (some m), r', buf')
      | ok absorbed ↦ read_loop fuel r' buf'
      | ok need_more ↦ (ok none, r', buf')
      | err e ↦ (err e, r', buf')
      | panic ↦ (panic, r', buf')
      | spent ↦ (spent, r', buf')
    ]

unfoldable pub read : Reader → Bytes → Outcome (Option Message) × Reader × Bytes
read r buf = read_loop (length buf + 1) r buf
