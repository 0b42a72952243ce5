-- ===== src/Text/Utf8.antt =====
-- Which bytes are UTF-8: `std::str::from_utf8`.
use relaybay.Base.{ℕ, zero, suc, ◌<◌, ◌≡◌, refl, ap, ◌∙◌}
use relaybay.Base.{Bool, true, false, leb, ltb, eqb, lt→ltb, ◌&&◌, if◌then◌else◌}
use relaybay.Base.{Option, none, some, ◌>>=◌, [], ◌∷◌, ◌++◌, Bytes, All}

-- How many bytes of the character at hand are left, and the bounds of the next of them.
pub data Expect : Type 0 where
  expect : ℕ → ℕ → ℕ → Expect

abbrev pub start : Expect
start = expect 0 0 0

-- The first byte of a character: no overlong form, no surrogate, nothing past U+10FFFF.
unfoldable leading : ℕ → Option Expect
leading b =
    if ltb b 128
    then some start
    else if ltb b 194
    then none
    else if ltb b 224
    then some (expect 1 128 191)
    else if eqb b 224
    then some (expect 2 160 191)
    else if eqb b 237
    then some (expect 2 128 159)
    else if ltb b 240
    then some (expect 2 128 191)
    else if eqb b 240
    then some (expect 3 144 191)
    else if ltb b 244
    then some (expect 3 128 191)
    else if eqb b 244
    then some (expect 3 128 143)
    else none

unfoldable step : Expect → ℕ → Option Expect
unfolding leading
step (expect zero low high) b = leading b
step (expect (suc zero) low high) b = if leb low b && leb b high then some start else none
step (expect (suc (suc left)) low high) b =
    if leb low b && leb b high then some (expect (suc left) 128 191) else none

unfoldable run : Expect → Bytes → Option Expect
unfolding step
run at [] = some at
run at (b ∷ bs) = do next ← step at b; run next bs

unfoldable at_start : Option Expect → Bool
at_start (some (expect zero low high)) = true
at_start (some (expect (suc left) low high)) = false
at_start none = false

unfoldable pub is_utf8 : Bytes → Bool
unfolding run at_start
is_utf8 bytes = at_start (run start bytes)

unfoldable pub IsUtf8 : Bytes → Type 0
unfolding run
IsUtf8 bytes = run start bytes ≡ some start

run-append : (at : Expect) (xs ys : Bytes) → run at (xs ++ ys) ≡ (do next ← run at xs; run next ys)
unfolding run
run-append at [] ys = refl
run-append at (x ∷ xs) ys = along (step at x) λ next. run-append next xs ys
  where
    along :
        (o : Option Expect)
        → ((next : Expect) → run next (xs ++ ys) ≡ (do end ← run next xs; run end ys))
        → (do next ← o; run next (xs ++ ys)) ≡ (do end ← (do next ← o; run next xs); run end ys)
    along none h = refl
    along (some next) h = h next

pub IsUtf8→is_utf8 : (bytes : Bytes) → IsUtf8 bytes → is_utf8 bytes ≡ true
unfolding is_utf8 IsUtf8 at_start
IsUtf8→is_utf8 bytes h = ap at_start h

pub IsUtf8-append : (xs ys : Bytes) → IsUtf8 xs → IsUtf8 ys → IsUtf8 (xs ++ ys)
unfolding IsUtf8
IsUtf8-append xs ys hx hy = run-append start xs ys ∙ rw hx hy

-- Text of ASCII is UTF-8.
pub IsUtf8-ascii : (bytes : Bytes) → All (λ b. b < 128) bytes → IsUtf8 bytes
unfolding IsUtf8 run step leading
IsUtf8-ascii [] hs = refl
IsUtf8-ascii (b ∷ bs) (h, hs) = rw (lt→ltb b 128 h) (IsUtf8-ascii bs hs)
