-- ===== src/Rtmp/Chunk/Writer.antt =====
-- `Writer` of src/rtmp/chunk.rs: messages in, chunks out.
use relaybay.Base.{ℕ, zero, suc, ◌+◌, ◌-◌, ◌^◌, eqb, leb, ltb, ◌&&◌, ◌||◌}
use relaybay.Base.{
  if◌then◌else◌, Option, none, some, List, [], ◌∷◌, ◌++◌, Bytes, length, take, drop,
}
use relaybay.Base.{min, is_empty, get, insert, nat_eq, to_be, to_le, not}
use relaybay.Rtmp.Chunk.Types.{
  Message, State, Outcome, id, same_kind, ok, err, spent, message_too_long, invalid_chunk_size,
  default_chunk_size, max_chunk_size, max_message_length, extended_timestamp,
}
use relaybay.Rtmp.Chunk.Header.{put_basic_header, put_u24}

pub record Writer : Type 0 where
  pub streams : List (ℕ × State)
  pub chunk_size : ℕ

unfoldable pub new : Writer
new = record { streams = []; chunk_size = default_chunk_size }

unfoldable pub set_chunk_size : Writer → ℕ → Outcome (Unit {0}) × Writer
set_chunk_size w size =
    if eqb size 0 || ltb max_chunk_size size
    then (err (invalid_chunk_size (min size (2 ^ 32 - 1))), w)
    else (ok tt, record w { chunk_size = size })

-- The header format, and the time that goes with it: absolute at format 0, else a delta.
unfoldable pub choose_format : Option State → Message → ℕ × ℕ
choose_format none m = (0, m.timestamp)
choose_format (some previous) m =
    if eqb previous.stream_id m.stream_id && leb previous.timestamp m.timestamp
    then (let delta = m.timestamp - previous.timestamp in
        if not (eqb previous.length (length m.payload)) || not (same_kind previous.kind m.kind)
        then (1, delta)
        else if not (eqb previous.delta delta)
        then (2, delta)
        else (3, delta))
    else (0, m.timestamp)

-- The four bytes behind a header whose time does not fit its field.
unfoldable pub extension : ℕ → Bytes
extension written = if leb extended_timestamp written then to_be 4 written else []

-- The 24-bit field: the time, or all ones where it stands behind the header.
abbrev pub time_field : ℕ → ℕ
time_field written = if leb extended_timestamp written then extended_timestamp else written

-- What stands between the basic header and the payload.
unfoldable pub put_fields : ℕ → ℕ → Message → Bytes
put_fields fmt written m =
    (if leb fmt 2 then put_u24 (time_field written) else [])
    ++ ((if leb fmt 1 then put_u24 (length m.payload) ++ id m.kind ∷ [] else [])
        ++ ((if eqb fmt 0 then to_le 4 m.stream_id else []) ++ extension written))

-- The loop that cuts the payload: `payload` is what is left of it, `between` what goes between two
-- chunks. A round takes a byte at least, so `length payload + 1` rounds are enough.
unfoldable pub put_chunks : ℕ → ℕ → Bytes → Bytes → Option Bytes
put_chunks zero size between payload = none
put_chunks (suc fuel) size between payload =
    let more = put_chunks fuel size between (drop size payload) in
    if is_empty (drop size payload)
    then some (take size payload)
    else elim more [ none ↦ none | some bytes ↦ some (take size payload ++ (between ++ bytes)) ]

abbrev pub state_of : ℕ → ℕ → Message → State
state_of fmt written m = record {
  timestamp = m.timestamp;
  delta = if eqb fmt 0 then 0 else written;
  length = length m.payload;
  kind = m.kind;
  stream_id = m.stream_id;
  extended = leb extended_timestamp written;
}

unfoldable pub write_as : Writer → Bytes → ℕ → Message → ℕ × ℕ → Outcome (Unit {0}) × Writer × Bytes
write_as w out csid m (fmt, written) =
    elim (put_chunks (length m.payload + 1) w.chunk_size
      (put_basic_header 3 csid ++ extension written) m.payload) [
        | none ↦ (spent, w, out)
        | some chunks ↦ (
          ok tt,
          record w { streams = insert csid (state_of fmt written m) w.streams },
          out ++ (put_basic_header fmt csid ++ (put_fields fmt written m ++ chunks)),
        )
      ]

unfoldable pub write : Writer → Bytes → ℕ → Message → Outcome (Unit {0}) × Writer × Bytes
write w out csid m =
    if ltb max_message_length (length m.payload)
    then (err (message_too_long (length m.payload) max_message_length), w, out)
    else write_as w out csid m (choose_format (get csid w.streams) m)
