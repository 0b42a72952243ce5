-- ===== src/Examples/Chunks.antt =====
-- Runs of the chunk stream of src/rtmp/chunk.rs.
use relaybay.Base.{◌≡◌, refl, none, some, [], ◌∷◌, ◌++◌, Bytes}
use relaybay.Base.{arith, get, nat_eq, insert, to_be, true, false}
use relaybay.Rtmp.Chunk.Types.{Message, from_id, id, same_kind, ok, audio, set_chunk_size, State}
use relaybay.Rtmp.Chunk.Reader
use relaybay.Rtmp.Chunk.Reader.{Reader, read}
use relaybay.Rtmp.Chunk.Writer
use relaybay.Rtmp.Chunk.Writer.{
  Writer, write, choose_format, put_fields, put_chunks, write_as, extension,
}
use relaybay.Rtmp.Chunk.Header.{put_u24, put_basic_header}
use relaybay.Rtmp.Chunk.Fields.{IsWritable}
use relaybay.Rtmp.Chunk.Opening.{idle}
use relaybay.Rtmp.Chunk.RoundTrip.{IsInStep}
use relaybay.Rtmp.Chunk.Safety.{IsValid}
use relaybay.Rtmp.Chunk.Total.{IsSafe, read-IsSafe}
use relaybay.Rtmp.Chunk.Delivery.{IsSendable, Sends, sending, quiet, Receives, Sends-Receives}
use relaybay.Rtmp.Chunk.Resize.{read-write_chunk_size}
use relaybay.Rtmp.Chunk.Desync.{write_unread}

abbrev sound : Message
sound = record { timestamp = 40; kind = audio; stream_id = 1; payload = 0xaf ∷ 1 ∷ 7 ∷ 9 ∷ [] }

abbrev later_sound : Message
later_sound = record { timestamp = 63; kind = audio; stream_id = 1; payload = 0xaf ∷ 1 ∷ 8 ∷ [] }

abbrev size_message : Message
size_message = record {
  timestamp = 0;
  kind = set_chunk_size;
  stream_id = 0;
  payload = 0 ∷ 0 ∷ 16 ∷ 0 ∷ [];
}

in_step : IsInStep Writer.new Reader.new
unfolding Writer.new Reader.new get
in_step = record { sizes = refl; moves = omega arith; streams = λ i. refl; counts = refl }

sound-IsWritable : IsWritable sound
sound-IsWritable = record {
  timestamp_fits = omega arith;
  stream_id_fits = omega arith;
  kind_fits = unfold id in omega arith;
  kind_known = unfold id from_id in refl;
  payload_fits = omega arith;
}

sound-IsSendable : IsSendable Writer.new 4 sound
unfolding Writer.new get
sound-IsSendable = record {
  numbered = (omega arith, omega arith);
  writable = sound-IsWritable;
  repeatable = tt;
  room = λ e. omega arith;
}

new-IsValid : IsValid Reader.new
unfolding Reader.new get
new-IsValid = record {
  moves = omega arith;
  fits = omega arith;
  few = omega arith;
  bounded = λ i s e. cc;
}

read-IsSafe_example : IsSafe (read Reader.new (0x04 ∷ 0 ∷ 0 ∷ 40 ∷ 0 ∷ []))
read-IsSafe_example = read-IsSafe Reader.new (0x04 ∷ 0 ∷ 0 ∷ 40 ∷ 0 ∷ []) new-IsValid

-- The writer once it has written `sound`.
abbrev writer₁ : Writer
writer₁ = record {
  streams =
      (
        4,
        record {
          timestamp = 40;
          delta = 0;
          length = 4;
          kind = audio;
          stream_id = 1;
          extended = false;
        },
      )
      ∷ [];
  chunk_size = 128;
}

later_sound-IsSendable : IsSendable writer₁ 4 later_sound
unfolding get
later_sound-IsSendable = record {
  numbered = (omega arith, omega arith);
  writable = record {
    timestamp_fits = omega arith;
    stream_id_fits = omega arith;
    kind_fits = unfold id in omega arith;
    kind_known = unfold id from_id in refl;
    payload_fits = omega arith;
  };
  repeatable = λ e. unfold choose_format in refl;
  room = λ e. omega arith;
}

abbrev first_bytes : Bytes
first_bytes = 4 ∷ 0 ∷ 0 ∷ 40 ∷ 0 ∷ 0 ∷ 4 ∷ 8 ∷ 1 ∷ 0 ∷ 0 ∷ 0 ∷ 0xaf ∷ 1 ∷ 7 ∷ 9 ∷ []

abbrev second_bytes : Bytes
second_bytes = 68 ∷ 0 ∷ 0 ∷ 23 ∷ 0 ∷ 0 ∷ 3 ∷ 8 ∷ 0xaf ∷ 1 ∷ 8 ∷ []

writes_first : write Writer.new [] 4 sound ≡ (ok tt, writer₁, first_bytes)
unfolding write Writer.new choose_format put_fields put_chunks write_as put_basic_header extension
    get insert put_u24 id
writes_first = refl

abbrev writer₂ : Writer
writer₂ = record {
  streams =
      (
        4,
        record {
          timestamp = 63;
          delta = 23;
          length = 3;
          kind = audio;
          stream_id = 1;
          extended = false;
        },
      )
      ∷ [];
  chunk_size = 128;
}

writes_second : write writer₁ [] 4 later_sound ≡ (ok tt, writer₂, second_bytes)
unfolding write choose_format put_fields put_chunks write_as put_basic_header extension get insert
    put_u24 id
writes_second = refl

sends :
    Sends Writer.new
      ((4, sound) ∷ (4, later_sound) ∷ [])
      writer₂
      (first_bytes ++ (second_bytes ++ []))
sends =
    sending sound-IsSendable (λ e. cc, λ e. cc) writes_first
      (sending later_sound-IsSendable (λ e. cc, λ e. cc) writes_second quiet)

Sends-Receives_example :
    (r' : Reader) × Receives Reader.new
      ((first_bytes ++ (second_bytes ++ [])) ++ [])
      (sound ∷ later_sound ∷ [])
      r'
      []
    × IsInStep writer₂ r'
Sends-Receives_example = Sends-Receives Reader.new [] sends in_step

size_message-IsSendable : IsSendable Writer.new 2 size_message
unfolding Writer.new get
size_message-IsSendable = record {
  numbered = (omega arith, omega arith);
  writable = record {
    timestamp_fits = omega arith;
    stream_id_fits = omega arith;
    kind_fits = unfold id in omega arith;
    kind_known = unfold id from_id in refl;
    payload_fits = omega arith;
  };
  repeatable = tt;
  room = λ e. omega arith;
}

states_4096 : size_message.payload ≡ to_be 4 4096
unfolding to_be
states_4096 = refl

read-write_chunk_size_example :
    (w' w'' : Writer) × (r' : Reader) × (bytes : Bytes) × (write Writer.new [] 2 size_message
      ≡ (ok tt, w', [] ++ bytes))
    × (Writer.set_chunk_size w' 4096 ≡ (ok tt, w''))
    × (read Reader.new (bytes ++ []) ≡ (ok (some size_message), r', []))
    × (r'.chunk_size ≡ 4096)
    × IsInStep w'' r'
read-write_chunk_size_example =
    read-write_chunk_size Writer.new Reader.new 2 4096 size_message [] [] size_message-IsSendable
      refl states_4096 (omega arith) (omega arith) in_step

-- Four hours and forty minutes in, the time stands behind the header.
abbrev long_ago : State
long_ago = record {
  timestamp = 0x100_0000;
  delta = 0;
  length = 4;
  kind = audio;
  stream_id = 1;
  extended = true;
}

abbrev again : Message
again = record sound { timestamp = 0x100_0000 }

abbrev late_writer : Writer
late_writer = record { streams = (4, long_ago) ∷ []; chunk_size = 128 }

abbrev late_reader : Reader
late_reader = record { streams = (4, idle long_ago) ∷ []; chunk_size = 128 }

late-IsInStep : IsInStep late_writer late_reader
unfolding get
late-IsInStep = record {
  sizes = refl;
  moves = omega arith;
  streams = λ i. ground arith;
  counts = refl;
}

late_found : get 4 late_writer.streams ≡ some long_ago
unfolding get
late_found = refl

repeats_all : (choose_format (some long_ago) again).0 ≡ 3
unfolding choose_format same_kind
repeats_all = refl

write_unread_example :
    (w' : Writer) × (bytes : Bytes) × (write late_writer [] 4 again ≡ (ok tt, w', bytes))
    × (read late_reader bytes ≡ (ok none, late_reader, bytes))
write_unread_example =
    write_unread late_writer late_reader 4 again long_ago (omega arith, omega arith) late-IsInStep
      (omega arith) (omega arith) late_found refl (omega arith) repeats_all
