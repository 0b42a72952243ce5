-- ===== src/Rtsp/Base64.antt =====
-- src/rtsp/sdp.rs: how a description carries bytes, in base64 and in hexadecimal.
pub mod RoundTrip
use relaybay.Base.{ℕ, zero, ◌+◌, ◌-◌, ◌*◌, ◌/◌, ◌%◌, ◌^◌, ◌<◌, ◌≡◌, refl, sym, ap, ◌∙◌, arith}
use relaybay.Base.{Bool, ltb, leb, eqb, if◌then◌else◌, Option, none, some, ◌>>=◌}
use relaybay.Base.{List, [], ◌∷◌, ◌++◌, Bytes, IsByte, All, length, get_elem?}
use relaybay.Base.{agree_below→eq}

-- `ALPHABET`: the letters, the digits, a plus and a slash.
unfoldable pub symbol : ℕ → ℕ
symbol i =
    if ltb i 26
    then b'A' + i
    else if ltb i 52
    then b'a' + (i - 26)
    else if ltb i 62
    then b'0' + (i - 52)
    else if eqb i 62
    then b'+'
    else b'/'

-- The loop that packs a group of bytes, from an index on.
unfoldable pub pack : ℕ → Bytes → ℕ
pack index [] = 0
pack index (b ∷ bs) = b * 2 ^ (16 - index * 8) + pack (index + 1) bs

unfoldable pub group_symbol : ℕ → ℕ → ℕ → ℕ
unfolding symbol
group_symbol count packed index =
    if leb index count then symbol (packed / 2 ^ (18 - index * 6) % 64) else b'='

-- The four characters of a group.
unfoldable pub group : Bytes → Bytes
unfolding pack group_symbol
group bs =
    let packed = pack 0 bs in
    let at = group_symbol (length bs) packed in at 0 ∷ at 1 ∷ at 2 ∷ at 3 ∷ []

unfoldable pub base64 : Bytes → Bytes
unfolding group
base64 [] = []
base64 (a ∷ []) = group (a ∷ [])
base64 (a ∷ b ∷ []) = group (a ∷ b ∷ [])
base64 (a ∷ b ∷ c ∷ bs) = group (a ∷ b ∷ c ∷ []) ++ base64 bs

unfoldable pub digit : ℕ → ℕ
digit n = if ltb n 10 then b'0' + n else b'a' + (n - 10)

-- `{byte:02x}` of every byte.
unfoldable pub hex : Bytes → Bytes
unfolding digit
hex [] = []
hex (b ∷ bs) = digit (b / 16) ∷ digit (b % 16) ∷ hex bs
