-- ===== src/Rtmp/Handshake.antt =====
-- src/rtmp/handshake.rs: the exchange that opens a connection, from the server's side.
use relaybay.Base.{
  ℕ, zero, suc, ◌+◌, ◌-◌, ◌*◌, ◌/◌, ◌%◌, ◌^◌, Bool, true, false, eqb, ltb, not, if◌then◌else◌,
}
use relaybay.Base.{
  Option, none, some, List, [], ◌∷◌, ◌++◌, Bytes, length, take, drop, slice, from_be, to_be,
  get_elem?,
}
use Prim.Native.Nat.{bit_xor}
use relaybay.Base.Outcome.{Outcome, ok, err, panic}
pub mod Exchange

abbrev pub version : ℕ
version = 3

abbrev pub handshake_size : ℕ
handshake_size = 1536

abbrev pub random_size : ℕ
random_size = 1528

pub data Step : Type 0 where
  need_more : Step
  send : Bytes → Step
  finished : Step

pub data HandshakeError : Type 0 where
  unsupported_version : ℕ → HandshakeError

pub data State : Type 0 where
  hello echo done : State

pub record Handshake : Type 0 where
  pub state : State
  pub client_version : ℕ

abbrev pub new : Handshake
new = record { state = hello; client_version = 0 }

unfoldable pub is_done : Handshake → Bool
is_done h = elim h.state [ done ↦ true | _ ↦ false ]

-- `Handshake::client_version`.
unfoldable pub stated_version : Handshake → Option ℕ
stated_version h = elim h.state [ hello ↦ none | _ ↦ some h.client_version ]

-- `rotate_left(17)` of a `u64`.
unfoldable pub rotate : ℕ → ℕ
rotate word = word * 2 ^ 17 % 2 ^ 64 + word / 2 ^ 47

-- A chunk of at most eight bytes, filled up with zeros.
unfoldable pub word_of : Bytes → ℕ
word_of chunk = from_be chunk * 256 ^ (8 - length chunk)

-- The fold over `chunks(8)`. A round takes a byte at least.
unfoldable pub seed_loop : ℕ → ℕ → Bytes → ℕ
seed_loop zero mixed random = mixed
seed_loop (suc fuel) mixed [] = mixed
seed_loop (suc fuel) mixed (b ∷ bs) =
    seed_loop fuel (bit_xor mixed (rotate (word_of (take 8 (b ∷ bs))))) (drop 8 (b ∷ bs))

unfoldable pub seed : Bytes → ℕ
seed random = seed_loop (length random) 0x9e37_79b9_7f4a_7c15 random

-- The next state, and what it is mixed into.
unfoldable pub scramble : ℕ → ℕ × ℕ
scramble state =
    let s = (state + 0x9e37_79b9_7f4a_7c15) % 2 ^ 64 in
    let m₁ = bit_xor s (s / 2 ^ 30) * 0xbf58_476d_1ce4_e5b9 % 2 ^ 64 in
    let m₂ = bit_xor m₁ (m₁ / 2 ^ 27) * 0x94d0_49bb_1331_11eb % 2 ^ 64 in
    (bit_xor m₂ (m₂ / 2 ^ 31), s)

unfoldable pub random_words : ℕ → ℕ → Bytes
random_words zero state = []
random_words (suc left) state =
    let (mixed, s) = scramble state in to_be 8 mixed ++ random_words left s

-- The version, the server's own hello, and the client's sent back.
unfoldable pub reply : Bytes → Bytes
reply sent =
    version
    ∷ (to_be 4 0
        ++ (to_be 4 0
            ++ (random_words (random_size / 8) (seed (drop 8 sent))
                ++ (take 4 sent ++ (to_be 4 0 ++ drop 8 sent)))))

-- The hello of the client, which is all there: `buf` is what stands behind its version byte.
unfoldable pub answer_hello :
    Handshake → ℕ → Bytes → Outcome HandshakeError (Step × Handshake × Bytes)
answer_hello h first buf =
    if eqb first version
    then (let sent = take handshake_size buf in
        ok (
          send (reply sent),
          record { state = echo; client_version = from_be (slice 4 8 sent) },
          drop handshake_size buf,
        ))
    else err (unsupported_version first)

unfoldable pub read_hello : Handshake → Bytes → Outcome HandshakeError (Step × Handshake × Bytes)
read_hello h [] = ok (need_more, h, [])
read_hello h (first ∷ buf) =
    if ltb (length (first ∷ buf)) (1 + handshake_size)
    then ok (need_more, h, first ∷ buf)
    else answer_hello h first buf

unfoldable pub read_echo : Handshake → Bytes → Outcome HandshakeError (Step × Handshake × Bytes)
read_echo h buf =
    if ltb (length buf) handshake_size
    then ok (need_more, h, buf)
    else ok (finished, record h { state = done }, drop handshake_size buf)

unfoldable pub read_in :
    Handshake → State → Bytes → Outcome HandshakeError (Step × Handshake × Bytes)
read_in h hello buf = read_hello h buf
read_in h echo buf = read_echo h buf
read_in h done buf = ok (finished, h, buf)

-- `Handshake::read`.
unfoldable pub read : Handshake → Bytes → Outcome HandshakeError (Step × Handshake × Bytes)
read h buf = read_in h h.state buf
