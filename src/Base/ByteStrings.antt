-- ===== src/Base/ByteStrings.antt =====
-- Byte strings as lists of numbers below 256, big-endian and little-endian numbers, and reads at an
-- offset.
use Prim.Native.Nat.{ℕ, zero, suc, ◌+◌, ◌*◌, ◌/◌, ◌%◌, ◌^◌, ◌<◌}
use mathlib.Core.Path.{◌≡◌, refl, sym, ap, ◌∙◌, subst}
use mathlib.Core.List.{List, [], ◌∷◌, ◌++◌}
use mathlib.Core.Option.{Option, none, some}
use native.Mathlib.Omega.{arith}
use native.Mathlib.Nat.{pow-suc, mul_assoc, mul_comm}
use relaybay.Base.Tests.{if◌then◌else◌, leb, le→leb}
use relaybay.Base.Lists.{length, take, drop, All, length-append, take-append, drop-append}

abbrev pub Bytes : Type 0
Bytes = List ℕ

abbrev pub IsByte : ℕ → Type 0
IsByte b = b < 256

-- The number that big-endian bytes stand for, after the number `acc` read before them.
unfoldable pub be_fold : ℕ → Bytes → ℕ
be_fold acc [] = acc
be_fold acc (b ∷ bs) = be_fold (acc * 256 + b) bs

unfoldable pub from_be : Bytes → ℕ
unfolding be_fold
from_be bs = be_fold 0 bs

unfoldable pub from_le : Bytes → ℕ
from_le [] = 0
from_le (b ∷ bs) = b + 256 * from_le bs

-- The `n` low bytes of a number, the highest first.
unfoldable pub to_be : ℕ → ℕ → Bytes
to_be zero v = []
to_be (suc n) v = to_be n (v / 256) ++ (v % 256 ∷ [])

-- The `n` low bytes of a number, the lowest first.
unfoldable pub to_le : ℕ → ℕ → Bytes
to_le zero v = []
to_le (suc n) v = v % 256 ∷ to_le n (v / 256)

be_fold-append : (acc : ℕ) (xs ys : Bytes) → be_fold acc (xs ++ ys) ≡ be_fold (be_fold acc xs) ys
unfolding be_fold
be_fold-append acc [] ys = refl
be_fold-append acc (x ∷ xs) ys = be_fold-append (acc * 256 + x) xs ys

pub from_be-to_be : (n v : ℕ) → v < 256 ^ n → from_be (to_be n v) ≡ v
unfolding from_be to_be
from_be-to_be zero v h = omega arith
from_be-to_be (suc n) v h =
    be_fold-append 0 (to_be n (v / 256)) (v % 256 ∷ [])
    ∙ omega (arith, from_be-to_be n (v / 256), pow-suc 256 n)

pub from_le-to_le : (n v : ℕ) → v < 256 ^ n → from_le (to_le n v) ≡ v
unfolding from_le to_le
from_le-to_le zero v h = omega arith
from_le-to_le (suc n) v h = omega (arith, from_le-to_le n (v / 256), pow-suc 256 n)

be_fold-lt :
    (acc m : ℕ) (bs : Bytes) → All IsByte bs → acc < m → be_fold acc bs < m * 256 ^ length bs
unfolding be_fold
be_fold-lt acc m [] hs h = omega arith
be_fold-lt acc m (b ∷ bs) (hb, hs) h =
    let p = 256 ^ length bs in
    subst (λ x. be_fold (acc * 256 + b) bs < x)
      (mul_assoc m 256 p ∙ ap (λ x. m * x) (mul_comm 256 p ∙ sym (pow-suc 256 (length bs))))
      (be_fold-lt (acc * 256 + b) (m * 256) bs hs (omega arith))

pub from_be-lt : (bs : Bytes) → All IsByte bs → from_be bs < 256 ^ length bs
unfolding from_be
from_be-lt bs hs = omega (arith, be_fold-lt 0 1 bs hs (omega arith))

pub length-to_be : (n v : ℕ) → length (to_be n v) ≡ n
unfolding to_be
length-to_be zero v = refl
length-to_be (suc n) v =
    length-append (to_be n (v / 256)) (v % 256 ∷ []) ∙ omega (arith, length-to_be n (v / 256))

pub length-to_le : (n v : ℕ) → length (to_le n v) ≡ n
unfolding to_le
length-to_le zero v = refl
length-to_le (suc n) v = ap suc (length-to_le n (v / 256))

-- `data.get(pos..pos + count)`, with the position behind it.
unfoldable pub take_at : Bytes → ℕ → ℕ → Option (Bytes × ℕ)
take_at bs pos count =
    if leb (pos + count) (length bs) then some (take count (drop pos bs), pos + count) else none

pub take_at-append :
    (front field rest : Bytes) (pos count : ℕ)
    → pos ≡ length front
    → count ≡ length field
    → take_at (front ++ (field ++ rest)) pos count ≡ some (field, pos + count)
unfolding take_at
take_at-append front field rest pos count hp hc = rw (
  le→leb (pos + count) (length (front ++ (field ++ rest)))
      (omega (arith, length-append front (field ++ rest), length-append field rest)),
  drop-append pos front (field ++ rest) hp,
  take-append count field rest hc,
)

-- The same where the bytes are known by an equation.
pub take_at_of_eq :
    (bs front field rest : Bytes) (pos count : ℕ)
    → bs ≡ front ++ (field ++ rest)
    → pos ≡ length front
    → count ≡ length field
    → take_at bs pos count ≡ some (field, pos + count)
take_at_of_eq bs front field rest pos count e hp hc =
    ap (λ xs. take_at xs pos count) e ∙ take_at-append front field rest pos count hp hc
