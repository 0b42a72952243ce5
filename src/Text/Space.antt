-- ===== src/Text/Space.antt =====
-- White space in UTF-8: `trim` and `split_whitespace`.
use relaybay.Base.{ℕ, zero, suc, ◌-◌, ◌≤◌, ◌≡◌, refl, sym, ap, ◌∙◌, arith}
use relaybay.Base.{Bool, false, eqb, leb, ltb, ◌&&◌, ◌||◌, if◌then◌else◌, is_empty}
use relaybay.Base.{List, [], ◌∷◌, ◌++◌, append_assoc, append-nil, Bytes, All}

-- A second byte behind 0xc2, and a second and a third behind 0xe1, 0xe2 and 0xe3.
unfoldable wide_two : Bytes → ℕ
wide_two [] = 0
wide_two (b ∷ bs) = if eqb b 133 || eqb b 160 then 2 else 0

unfoldable is_wide : ℕ → ℕ → ℕ → Bool
is_wide a b c =
    (eqb a 225 && eqb b 154 && eqb c 128)
    || (eqb a 226 && eqb b 128 && (leb 128 c && leb c 138 || eqb c 168 || eqb c 169 || eqb c 175))
    || (eqb a 226 && eqb b 129 && eqb c 159)
    || (eqb a 227 && eqb b 128 && eqb c 128)

unfoldable wide_three : ℕ → Bytes → ℕ
unfolding is_wide
wide_three a [] = 0
wide_three a (b ∷ []) = 0
wide_three a (b ∷ c ∷ bs) = if is_wide a b c then 3 else 0

-- How many bytes the white space in front takes: none where the text begins otherwise.
unfoldable space_width : Bytes → ℕ
unfolding wide_two wide_three
space_width [] = 0
space_width (a ∷ bs) =
    if leb 9 a && leb a 13 || eqb a 32
    then 1
    else if ltb a 194
    then 0
    else if eqb a 194
    then wide_two bs
    else if leb 225 a && leb a 227
    then wide_three a bs
    else 0

-- Past a number of bytes of the white space met last.
unfoldable trim_from : ℕ → Bytes → Bytes
unfolding space_width
trim_from skip [] = []
trim_from (suc skip) (b ∷ bs) = trim_from skip bs
trim_from zero (b ∷ bs) =
    let width = space_width (b ∷ bs) in
    let rest = trim_from (width - 1) bs in if eqb width 0 then b ∷ bs else rest

unfoldable trim_end : Bytes → Bytes
unfolding trim_from
trim_end [] = []
trim_end (b ∷ bs) =
    let rest = trim_end bs in if is_empty (trim_from 0 (b ∷ bs)) then [] else b ∷ rest

unfoldable pub trim : Bytes → Bytes
unfolding trim_from trim_end
trim text = trim_end (trim_from 0 text)

unfoldable end_word : Bytes → List Bytes → List Bytes
end_word word words = if is_empty word then words else word ∷ words

-- The words, of which one has been begun.
unfoldable words_from : ℕ → Bytes → Bytes → List Bytes
unfolding space_width end_word
words_from skip word [] = end_word word []
words_from (suc skip) word (b ∷ bs) = words_from skip word bs
words_from zero word (b ∷ bs) =
    let width = space_width (b ∷ bs) in
    let blank = words_from (width - 1) [] bs in
    let longer = words_from 0 (word ++ b ∷ []) bs in
    if eqb width 0 then longer else end_word word blank

unfoldable pub split_whitespace : Bytes → List Bytes
unfolding words_from
split_whitespace text = words_from 0 [] text

-- A visible character of ASCII.
abbrev pub IsVisible : ℕ → Type 0
IsVisible b = (33 ≤ b) × (b ≤ 126)

width-visible : (b : ℕ) (bs : Bytes) → IsVisible b → space_width (b ∷ bs) ≡ 0
unfolding space_width
width-visible b bs (low, high) = ground arith

pub trim-space : (text : Bytes) → trim (32 ∷ text) ≡ trim text
unfolding trim trim_from space_width
trim-space text = refl

words_from-visible :
    (word more rest : Bytes)
    → All IsVisible more
    → words_from 0 word (more ++ rest) ≡ words_from 0 (word ++ more) rest
unfolding words_from
words_from-visible word [] rest hs = ap (λ w. words_from 0 w rest) (sym (append-nil word))
words_from-visible word (b ∷ bs) rest (h, hs) = rw (width-visible b (bs ++ rest) h) (
    words_from-visible (word ++ b ∷ []) bs rest hs
    ∙ ap (λ w. words_from 0 w rest) (append_assoc word (b ∷ []) bs))

-- Words of visible characters with a space between them are read back.
pub split_whitespace-append :
    (word rest : Bytes)
    → All IsVisible word
    → is_empty word ≡ false
    → split_whitespace (word ++ (32 ∷ rest)) ≡ word ∷ split_whitespace rest
unfolding split_whitespace words_from space_width end_word
split_whitespace-append word rest hs h = words_from-visible [] word (32 ∷ rest) hs ∙ rw h refl

pub split_whitespace_one :
    (word : Bytes) → All IsVisible word → is_empty word ≡ false → split_whitespace word ≡ word ∷ []
unfolding split_whitespace words_from end_word
split_whitespace_one word hs h =
    ap split_whitespace (sym (append-nil word)) ∙ words_from-visible [] word [] hs ∙ rw h refl

trim_end-visible : (text : Bytes) → All IsVisible text → trim_end text ≡ text
unfolding trim_end trim_from
trim_end-visible [] hs = refl
trim_end-visible (b ∷ bs) (h, hs) =
    rw (width-visible b bs h) (ap (λ rest. b ∷ rest) (trim_end-visible bs hs))

pub trim-visible : (text : Bytes) → All IsVisible text → trim text ≡ text
unfolding trim trim_from trim_end
trim-visible [] hs = refl
trim-visible (b ∷ bs) (h, hs) = rw (width-visible b bs h) (trim_end-visible (b ∷ bs) (h, hs))
