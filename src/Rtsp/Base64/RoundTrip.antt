-- ===== src/Rtsp/Base64/RoundTrip.antt =====
-- What src/rtsp/sdp.rs writes in base64 and in hexadecimal is read back.
use relaybay.Base.{ℕ, ◌+◌, ◌-◌, ◌*◌, ◌/◌, ◌%◌, ◌<◌, ◌≡◌, refl, ap, ◌∙◌, arith}
use relaybay.Base.{Bool, true, false, ltb, leb, eqb, not, ◌&&◌, if◌then◌else◌, is_empty, lt→ltb}
use relaybay.Base.{Option, none, some, ◌>>=◌, [], ◌∷◌, ◌++◌, Bytes, IsByte, All}
use relaybay.Base.{agree_below, agree_below→eq}
use relaybay.Rtsp.Base64.{symbol, pack, group_symbol, group, base64}

-- RFC 4648, section 4: the number that a character of the alphabet stands for, and 64 for any other.
unfoldable pub value_of : ℕ → ℕ
value_of c =
    if leb b'A' c && leb c b'Z'
    then c - b'A'
    else if leb b'a' c && leb c b'z'
    then c - b'a' + 26
    else if leb b'0' c && leb c b'9'
    then c - b'0' + 52
    else if eqb c b'+'
    then 62
    else if eqb c b'/'
    then 63
    else 64

-- A character outside the alphabet is refused.
unfoldable pub sextet : ℕ → Option ℕ
sextet c = if ltb (value_of c) 64 then some (value_of c) else none

unfoldable pub full_group : ℕ → ℕ → ℕ → ℕ → Option Bytes
full_group p q r s = do
  a ← sextet p
  b ← sextet q
  c ← sextet r
  d ← sextet s
  some ((a * 4 + b / 16) ∷ (b % 16 * 16 + c / 4) ∷ (c % 4 * 64 + d) ∷ [])

-- A padded group: the bits that no byte takes are zero.
unfoldable pub padded_once : ℕ → ℕ → ℕ → Option Bytes
padded_once p q r = do
  a ← sextet p
  b ← sextet q
  c ← sextet r
  if eqb (c % 4) 0 then some ((a * 4 + b / 16) ∷ (b % 16 * 16 + c / 4) ∷ []) else none

unfoldable pub padded_twice : ℕ → ℕ → Option Bytes
padded_twice p q = do
  a ← sextet p
  b ← sextet q
  if eqb (b % 16) 0 then some ((a * 4 + b / 16) ∷ []) else none

-- The bytes that four characters stand for. Only the last group is padded.
unfoldable pub bytes_of : Bool → ℕ → ℕ → ℕ → ℕ → Option Bytes
bytes_of last p q r s =
    if not (eqb s b'=')
    then full_group p q r s
    else if not last
    then none
    else if eqb r b'='
    then padded_twice p q
    else padded_once p q r

-- A reader of base64, by the specification. Characters that make no group of four are refused.
unfoldable pub decode : Bytes → Option Bytes
decode [] = some []
decode (p ∷ []) = none
decode (p ∷ q ∷ []) = none
decode (p ∷ q ∷ r ∷ []) = none
decode (p ∷ q ∷ r ∷ s ∷ rest) =
    bytes_of (is_empty rest) p q r s >>= λ bs. decode rest >>= λ more. some (bs ++ more)

value_of-symbol : (i : ℕ) → i < 64 → value_of (symbol i) ≡ i
unfolding agree_below value_of symbol
value_of-symbol = agree_below→eq _ _ 64 refl

symbol-ne : (i : ℕ) → i < 64 → eqb (symbol i) b'=' ≡ false
unfolding symbol
symbol-ne i h = ground arith

sextet-symbol : (i : ℕ) → i < 64 → sextet (symbol i) ≡ some i
unfolding sextet
sextet-symbol i h = rw (value_of-symbol i h, lt→ltb i 64 h) refl

symbols_three :
    (last : Bool) (p q r s : ℕ) {a b c : ℕ}
    → p < 64
    → q < 64
    → r < 64
    → s < 64
    → p * 4 + q / 16 ≡ a
    → q % 16 * 16 + r / 4 ≡ b
    → r % 4 * 64 + s ≡ c
    → bytes_of last (symbol p) (symbol q) (symbol r) (symbol s) ≡ some (a ∷ b ∷ c ∷ [])
unfolding bytes_of full_group
symbols_three last p q r s hp hq hr hs ea eb ec =
    rw
      (
        symbol-ne s hs,
        sextet-symbol p hp,
        sextet-symbol q hq,
        sextet-symbol r hr,
        sextet-symbol s hs,
        ea,
        eb,
        ec,
      )
      refl

symbols_two :
    (p q r : ℕ) {a b : ℕ}
    → p < 64
    → q < 64
    → r < 64
    → r % 4 ≡ 0
    → p * 4 + q / 16 ≡ a
    → q % 16 * 16 + r / 4 ≡ b
    → bytes_of true (symbol p) (symbol q) (symbol r) b'=' ≡ some (a ∷ b ∷ [])
unfolding bytes_of padded_once
symbols_two p q r hp hq hr unused ea eb =
    rw (symbol-ne r hr, sextet-symbol p hp, sextet-symbol q hq, sextet-symbol r hr, unused, ea, eb)
      refl

symbols_one :
    (p q : ℕ) {a : ℕ}
    → p < 64
    → q < 64
    → q % 16 ≡ 0
    → p * 4 + q / 16 ≡ a
    → bytes_of true (symbol p) (symbol q) b'=' b'=' ≡ some (a ∷ [])
unfolding bytes_of padded_twice
symbols_one p q hp hq unused ea = rw (sextet-symbol p hp, sextet-symbol q hq, unused, ea) refl

joined : Bytes → Bytes → Option Bytes
joined text bs = decode text >>= λ more. some (bs ++ more)

-- Every byte string, written in base64, is read back by a reader that refuses any character outside the
-- alphabet of RFC 4648, a length that is no multiple of four, padding before the end and bits that are
-- set under the padding.
pub decode-base64 : (bs : Bytes) → All IsByte bs → decode (base64 bs) ≡ some bs
unfolding decode base64 group pack group_symbol joined
decode-base64 [] hs = refl
decode-base64 (a ∷ []) (ha, hs) =
    let n = a * 65536 + 0 in
    ap (λ m. m >>= joined [])
      (symbols_one (n / 262144 % 64) (n / 4096 % 64) (omega arith) (omega arith) (omega arith)
        (omega arith))
decode-base64 (a ∷ b ∷ []) (ha, (hb, hs)) =
    let n = a * 65536 + (b * 256 + 0) in
    ap (λ m. m >>= joined [])
      (symbols_two (n / 262144 % 64) (n / 4096 % 64) (n / 64 % 64) (omega arith) (omega arith)
        (omega arith) (omega arith) (omega arith) (omega arith))
decode-base64 (a ∷ b ∷ c ∷ bs) (ha, (hb, (hc, hs))) =
    let n = a * 65536 + (b * 256 + (c * 1 + 0)) in
    ap (λ m. m >>= joined (base64 bs))
      (symbols_three (is_empty (base64 bs)) (n / 262144 % 64) (n / 4096 % 64) (n / 64 % 64)
        (n / 1 % 64) (omega arith) (omega arith) (omega arith) (omega arith) (omega arith)
        (omega arith) (omega arith))
    ∙ ap (λ m. m >>= λ more. some (a ∷ b ∷ c ∷ more)) (decode-base64 bs hs)
