-- ===== src/Lib.antt =====
-- relaybay: a media relay. An encoder publishes a stream over RTMP, players watch it over RTSP; between
-- the two stands a registry of paths, each with one publisher and any number of readers.
--
-- What is modelled, and where:
--   Base            tests, lists, byte strings as lists of numbers, association lists, integers
--   Rtmp/Chunk      src/rtmp/chunk.rs: messages cut into chunks and put together again. `Types` has the
--                   data, `Header` the basic header, `Reader` and `Writer` the two ends. `read` and
--                   `write` take and return the reader or writer and the buffer; `Fields`, `Opening`,
--                   `Advance`, `Chunks`, `RoundTrip` and `Safety` are the lemmas behind the results.
--   Rtmp/Flv        src/rtmp/flv.rs: the tag bodies of audio and video messages
--   Rtmp/Amf0       src/rtmp/amf0.rs: the values of a command, read and written
--   Rtmp/Handshake  src/rtmp/handshake.rs: the exchange in front of the chunks, and in `Exchange` the loop
--                   of src/rtmp/server.rs that drives it
--   Rtmp/Session    src/rtmp/session.rs: what a publishing connection does. `Commands` has the commands,
--                   `Settle` the sequence headers, `Media` pictures and sound, `Handle` the whole;
--                   `Protocol` is the order in which a session may ask for things.
--   Track           src/track.rs: tracks and descriptions
--   Rtp             src/rtp/mod.rs: a stream of packets; `H264` and `Aac` cut access units into them
--   Codec/H264      src/codec/h264.rs: NAL units and their length-prefixed and Annex-B framings, and the
--                   record of a stream's parameter sets (`Config`)
--   Codec/Aac       src/codec/aac.rs: the record in front of an AAC stream
--   Unit            src/unit.rs: a coded picture or a frame of sound (`Unit` there, `MediaUnit` here)
--   Path/Cache      src/path.rs, `Cache`: what a reader that joins is given at once
--   Path/Registry   src/path.rs, `Registry`, `Publisher` and the state of a `Reader`
--   Text            text as its UTF-8 bytes, with the functions of the standard library that src/rtsp uses
--   Rtsp            src/rtsp/message.rs: `Message` and `Status` have requests and responses, `Incoming` what
--                   `read` takes out of a buffer, `Transport` the header of that name.
--                   src/rtsp/sdp.rs: `Sdp`, with `Base64`
--   Rtsp/Session    src/rtsp/session.rs: what a player's connection does. `Names` has what URIs name, `Handle`
--                   the methods, `Run` requests in a row.
--   Rtsp/Server     src/rtsp/server.rs: the loop of a player's connection over what has come in (`serve`), what
--                   it does about each action (`act`), `attach` and `write`
--   Examples        concrete runs
--
-- How the parts interact: `Reader.read` yields messages, which `Session.handle` takes: their payloads are
-- commands (`Amf0`) or tag bodies (`Flv`), these hold units in the length-prefixed framing (`H264`). What a
-- session asks for is done by the server's task: replies are written, units are pushed into a path
-- (`Registry.push`), which keeps a group of them (`Cache`) for readers to come and sends them to readers
-- that are there. A player's requests (`Rtsp.Incoming.read`) go to `Rtsp.Session`, which asks a lookup what
-- a path is; the packets of `Rtp` are what the player gets of the units, each in a frame of `interleave`.
--
-- Numbers are unbounded; a `u32` or `u64` that wraps in the code has its `% 2 ^ w` written out. A method
-- that changes its object returns the object. `Outcome` is a `Result` with two more cases: `panic`, where
-- the code would panic, and `spent`, where a loop has used up the model's fuel. The fuel is the length of
-- what is left to read or to write, plus one where a loop makes a last empty round: every round takes a
-- byte at least, and the results below say that `spent` is not reached.
--
-- An `Arc<Path>` is an address into a store of paths, so that a path lives on when its name is gone. Each
-- lock is one step on the state. tokio's broadcast channel is the parameter `Broadcast`, with what its
-- documentation promises as laws: a receiver gets each unit sent since it subscribed, in order, while it
-- is not further behind than the channel holds. `Description` is a parameter, which paths hand on only.
--
-- AMF0: a `String` is its bytes and an `f64` its 64 bits. `std::str::from_utf8` is the parameter `is_utf8`.
-- The fuel of `read_value` is twice the length of the payload and one more, as each call reads a byte or is
-- made by one that did.
--
-- Handshake: what arrives is a list of pieces, one for each read of the socket; the fuel of the loop is a
-- number of rounds, and three more than there are pieces is enough.
--
-- RTP: `at` is a number of nanoseconds. What a receiver does is not in the source: `Rtp/H264/Receiver` says it
-- for the single units (types 1 to 23) and FU-A fragments of RFC 6184 and refuses its other packets, and
-- `Rtp/Aac/Delivery` says it after RFC 3640. A subtraction that can go below zero depends on how the
-- program is built: the packetizers' are `less`, with the argument `checks` for a build with overflow
-- checks. Elsewhere a checked operation that fails is the `panic` of such a build.
--
-- RTSP: a `String` is its bytes. `from_utf8` and the white space of `trim` and `split_whitespace` are those
-- of the Unicode standard; `parse` refuses what does not fit. `read` returns the buffer it leaves. The counter
-- behind session ids is an argument. A number's decimal text has a digit for each round of its fuel at most,
-- and the number itself is fuel enough. The loop over a connection's buffer has a round for each message; more
-- fuel than there are bytes is enough. The registry does not change while one burst of input is answered.
--
-- Not modelled: `Reader::next` and `resync` of src/path.rs, which wait on the channel; the reader of Annex-B
-- (src/codec/h264.rs); the rest of the socket servers, which is tokio: sockets, timeouts, and waiting for two
-- things at once.
pub mod Base
pub mod Codec
pub mod Rtsp
pub mod Text
pub mod Unit
pub mod Track
pub mod Rtmp
pub mod Rtp
pub mod Path
pub mod Examples
