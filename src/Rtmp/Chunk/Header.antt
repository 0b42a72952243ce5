-- ===== src/Rtmp/Chunk/Header.antt =====
-- The basic header of src/rtmp/chunk.rs, and the reads at a position that the chunk header is made of.
use relaybay.Base.{ℕ, ◌+◌, ◌-◌, ◌*◌, ◌/◌, ◌%◌, ◌<◌, ◌≤◌, ◌≡◌, refl, eqb, leb}
use relaybay.Base.{if◌then◌else◌, Option, none, some, [], ◌∷◌, ◌++◌, Bytes, length}
use relaybay.Base.{get_elem?, drop, from_be, from_le, to_be, to_le, take_at, arith}
use relaybay.Base.{◌>>=◌}
use Prim.Native.Nat.{bit_or}
use relaybay.Base.{agree_below, agree_below→eq}
use mathlib.Core.Option

-- The three widths: one byte for ids up to 63, two up to 319, three up to 65599.
unfoldable pub read_basic_header : Bytes → Option (ℕ × ℕ × ℕ)
read_basic_header [] = none
read_basic_header (first ∷ rest) =
    let fmt = first / 64 in
    let low = first % 64 in
    if eqb low 0
    then Option.map (λ b. (fmt, b + 64, 2)) (get_elem? rest 0)
    else if eqb low 1
    then (do b ← get_elem? rest 0; c ← get_elem? rest 1; some (fmt, from_le (b ∷ c ∷ []) + 64, 3))
    else some (fmt, low, 1)

unfoldable pub put_basic_header : ℕ → ℕ → Bytes
unfolding to_le
put_basic_header fmt csid =
    let top = fmt * 64 % 256 in
    if leb csid 63
    then bit_or top (csid % 256) ∷ []
    else if leb csid 319
    then top ∷ ((csid - 64) % 256) ∷ []
    else bit_or top 1 ∷ to_le 2 ((csid - 64) % 65536)

-- `u24(&fields[from..from + 3])` is `from_be` of that slice; this is the four bytes behind a header.
unfoldable pub take_u32 : Bytes → ℕ → Option (ℕ × ℕ)
unfolding take_at from_be
take_u32 bs pos = Option.map (λ (field, next). (from_be field, next)) (take_at bs pos 4)

-- The bytes of `put_u24`: the low three of the four that `to_be_bytes` gives.
unfoldable pub put_u24 : ℕ → Bytes
unfolding to_be
put_u24 v = drop 1 (to_be 4 v)

-- Masks on a byte as arithmetic, each checked on its whole range.
join_format : (b : ℕ) → b < 256 → bit_or (b / 64 * 64 % 256) (b % 64 % 256) ≡ b
unfolding agree_below
join_format = agree_below→eq _ _ 256 refl

join_one : (fmt : ℕ) → fmt < 4 → bit_or (fmt * 64 % 256) 1 ≡ fmt * 64 + 1
unfolding agree_below
join_one = agree_below→eq _ _ 4 refl

short_header :
    (fmt csid : ℕ) → fmt < 4 → csid < 64 → bit_or (fmt * 64 % 256) (csid % 256) ≡ fmt * 64 + csid
short_header fmt csid hf hc =
    let b = fmt * 64 + csid in
    let e : b / 64 ≡ fmt = omega arith in
    let e' : b % 64 ≡ csid = omega arith in rw (e, e') at (join_format b (omega arith))

-- The header that is written reads back, whatever follows, and its length is the position behind it.
pub read_basic_header-put :
    (fmt csid : ℕ) (rest : Bytes)
    → fmt < 4
    → 2 ≤ csid
    → csid ≤ 65599
    → read_basic_header (put_basic_header fmt csid ++ rest)
      ≡ some (fmt, csid, length (put_basic_header fmt csid))
unfolding read_basic_header put_basic_header from_le
read_basic_header-put fmt csid rest hf lo hi = ground (arith, short_header fmt csid, join_one fmt)
