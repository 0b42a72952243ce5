-- ===== src/Text/Decimal.antt =====
-- Numbers in decimal text: `Display`, and `parse` of an unsigned integer of some width.
use Prim.Native.Nat.{ℕ, zero, suc, ◌+◌, ◌-◌, ◌*◌, ◌/◌, ◌%◌, ◌≤◌, ◌<◌}
use relaybay.Base.{◌≡◌, refl, sym, ap, ◌∙◌, arith, false, leb, ltb, eqb, ◌||◌}
use relaybay.Base.{
  if◌then◌else◌, Option, none, some, [], ◌∷◌, ◌++◌, append_assoc, append-nil, All-append, ne→eqb,
  Bytes, All,
}
use relaybay.Base.{le_or_lt, inl, inr, lt→ltb, ge→ltb, is_empty}

-- The digits, on fuel: one for every digit but the last.
unfoldable digits : ℕ → ℕ → Bytes
digits zero n = (b'0' + n) ∷ []
digits (suc fuel) n =
    let rest = digits fuel (n / 10) in
    if ltb n 10 then (b'0' + n) ∷ [] else rest ++ ((b'0' + n % 10) ∷ [])

unfoldable pub decimal : ℕ → Bytes
unfolding digits
decimal n = digits n n

-- Checked arithmetic: a number that does not fit is refused.
unfoldable scan : ℕ → Bytes → ℕ → Option ℕ
scan limit [] n = some n
scan limit (c ∷ cs) n =
    let m = n * 10 + (c - b'0') in
    let rest = scan limit cs m in if ltb c b'0' || ltb b'9' c || leb limit m then none else rest

unfoldable unsigned : ℕ → Bytes → Option ℕ
unfolding scan
unsigned limit [] = none
unsigned limit (c ∷ cs) = scan limit (c ∷ cs) 0

-- `str::parse` into an unsigned integer below the limit, which a plus may precede.
unfoldable pub parse : ℕ → Bytes → Option ℕ
unfolding unsigned
parse limit [] = none
parse limit (c ∷ cs) = if eqb c b'+' then unsigned limit cs else unsigned limit (c ∷ cs)

abbrev pub IsDigit : ℕ → Type 0
IsDigit c = (b'0' ≤ c) × (c ≤ b'9')

scan_last :
    (limit n : ℕ) (cs : Bytes)
    → n < limit
    → scan limit ((b'0' + n % 10) ∷ cs) (n / 10) ≡ scan limit cs n
unfolding scan
scan_last limit n cs h = ground arith

scan_first :
    (limit n : ℕ) (cs : Bytes)
    → n < 10
    → n < limit
    → scan limit ((b'0' + n) ∷ cs) 0 ≡ scan limit cs n
unfolding scan
scan_first limit n cs few h = ground arith

scan-digits :
    (limit fuel n : ℕ) (cs : Bytes)
    → n ≤ fuel
    → n < limit
    → scan limit (digits fuel n ++ cs) 0 ≡ scan limit cs n
unfolding digits
scan-digits limit zero n cs h hl = scan_first limit n cs (omega arith) hl
scan-digits limit (suc fuel) n cs h hl = elim (le_or_lt 10 n) [
  | inl more ↦ rw (ge→ltb n 10 more) (
      ap (λ s. scan limit s 0) (append_assoc (digits fuel (n / 10)) ((b'0' + n % 10) ∷ []) cs)
      ∙ (scan-digits limit fuel (n / 10) ((b'0' + n % 10) ∷ cs) (omega arith) (omega arith)
          ∙ scan_last limit n cs hl))
  | inr few ↦ rw (lt→ltb n 10 few) (scan_first limit n cs few hl)
]

digits-IsDigit : (fuel n : ℕ) → n ≤ fuel → All IsDigit (digits fuel n)
unfolding digits
digits-IsDigit zero n h = ((omega arith, omega arith), tt)
digits-IsDigit (suc fuel) n h = elim (le_or_lt 10 n) [
  | inl more ↦ rw (ge→ltb n 10 more) (
      All-append IsDigit (digits fuel (n / 10)) _ (digits-IsDigit fuel (n / 10) (omega arith))
        ((omega arith, omega arith), tt))
  | inr few ↦ rw (lt→ltb n 10 few) ((omega arith, omega arith), tt)
]

pub decimal-IsDigit : (n : ℕ) → All IsDigit (decimal n)
unfolding decimal
decimal-IsDigit n = digits-IsDigit n n (omega arith)

is_empty-append : (xs ys : Bytes) → is_empty ys ≡ false → is_empty (xs ++ ys) ≡ false
is_empty-append [] ys h = h
is_empty-append (x ∷ xs) ys h = refl

digits_some : (fuel n : ℕ) → is_empty (digits fuel n) ≡ false
unfolding digits
digits_some zero n = refl
digits_some (suc fuel) n = elim (le_or_lt 10 n) [
  | inl more ↦ rw (ge→ltb n 10 more) (is_empty-append (digits fuel (n / 10)) _ refl)
  | inr few ↦ rw (lt→ltb n 10 few) refl
]

pub decimal_some : (n : ℕ) → is_empty (decimal n) ≡ false
unfolding decimal
decimal_some n = digits_some n n

parse-scan :
    (limit : ℕ) (text : Bytes)
    → All IsDigit text
    → is_empty text ≡ false
    → parse limit text ≡ scan limit text 0
unfolding parse unsigned
parse-scan limit [] hs h = cc
parse-scan limit (c ∷ cs) ((low, high), hs) h = rw (ne→eqb c b'+' (omega arith)) refl

-- A number below the limit is read back from its decimal text.
pub parse-decimal : (limit n : ℕ) → n < limit → parse limit (decimal n) ≡ some n
unfolding decimal scan
parse-decimal limit n h =
    parse-scan limit (decimal n) (decimal-IsDigit n) (decimal_some n)
    ∙ (ap (λ text. scan limit text 0) (sym (append-nil (decimal n)))
        ∙ scan-digits limit n n [] (omega arith) h)
