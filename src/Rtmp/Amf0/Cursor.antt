-- ===== src/Rtmp/Amf0/Cursor.antt =====
-- What the small reads of src/rtmp/amf0.rs return, on any bytes, and where they leave the reader.
use relaybay.Base.{ℕ, zero, suc, ◌+◌, ◌^◌, ◌<◌, ◌≤◌, ◌≡◌, refl, ◌∙◌, Bool, true}
use relaybay.Base.{[], ◌∷◌, Bytes, IsByte, All, length, take, drop, arith, from_be, from_be-lt}
use relaybay.Base.{
  length-take, length-drop, le_or_lt, ge→ltb, lt→ltb, inl, inr, le→leb, gt→leb, Bool-cases, subst,
}
use relaybay.Base.Outcome.{Ensures, returns, fails, Ensures->>=}
use relaybay.Rtmp.Amf0.Types.{max_depth}
use relaybay.Rtmp.Amf0.Reader.{
  Reader, Reads, need, advance, bytes, number_of, check_utf8, read_string, enter, nested,
}

All-take : (n : ℕ) (bs : Bytes) → All IsByte bs → All IsByte (take n bs)
All-take zero bs h = tt
All-take (suc n) [] h = tt
All-take (suc n) (b ∷ bs) (h, hs) = (h, All-take n bs hs)

All-drop : (n : ℕ) (bs : Bytes) → All IsByte bs → All IsByte (drop n bs)
All-drop zero bs h = h
All-drop (suc n) [] h = tt
All-drop (suc n) (b ∷ bs) (h, hs) = All-drop n bs hs

-- The reader after a read that took `n` bytes at least.
pub record After (r : Reader) (n : ℕ) (r' : Reader) : Type 0 where
  pub level : r'.depth ≡ r.depth
  pub moved : length r'.rest + n ≤ length r.rest
  pub clean : All IsByte r'.rest

pub After-trans :
    {r r' r'' : Reader} {n m k : ℕ} → After r n r' → After r' m r'' → k ≤ n + m → After r k r''
After-trans a a' h = record {
  level = a'.level ∙ a.level;
  moved = omega (arith, a.moved, a'.moved);
  clean = a'.clean;
}

pub same_place : {r : Reader} → All IsByte r.rest → After r 0 r
same_place h = record { level = refl; moved = omega arith; clean = h }

pub After-weaken : {r r' : Reader} {n k : ℕ} → After r n r' → k ≤ n → After r k r'
After-weaken a h = record { level = a.level; moved = omega (arith, a.moved); clean = a.clean }

pub bytes-After :
    (count : ℕ) (r : Reader)
    → All IsByte r.rest
    → Ensures
        (λ (field, r'). (length field ≡ count) × All IsByte field × After r count r')
        (bytes count r)
unfolding bytes need advance
bytes-After count r clean = elim (le_or_lt count (length r.rest)) [
  | inl there ↦ rw (ge→ltb (length r.rest) count there) (
      returns (
        omega (arith, length-take count r.rest),
        All-take count r.rest clean,
        record {
          level = refl;
          moved = omega (arith, length-drop count r.rest);
          clean = All-drop count r.rest clean;
        },
      ))
  | inr short ↦ rw (lt→ltb (length r.rest) count short) fails
]

pub number_of-After :
    (width : ℕ) (r : Reader)
    → All IsByte r.rest
    → Ensures (λ (n, r'). (n < 256 ^ width) × After r width r') (number_of width r)
unfolding number_of
number_of-After width r clean =
    Ensures->>= (bytes-After width r clean) (λ (field, r') (size, are_bytes, a).
      returns (subst (λ n. from_be field < 256 ^ n) size (from_be-lt field are_bytes), a))

pub read_string-After :
    (is_utf8 : Bytes → Bool) (count : ℕ) (r : Reader)
    → All IsByte r.rest
    → Ensures
        (λ (text, r'). (is_utf8 text ≡ true) × (length text ≡ count) × After r count r')
        (read_string is_utf8 count r)
unfolding read_string check_utf8
read_string-After is_utf8 count r clean =
    Ensures->>= (bytes-After count r clean) (λ (text, r') (size, are_bytes, a).
      elim (Bool-cases (is_utf8 text)) [
        | inl valid ↦ rw valid (returns (valid, size, a))
        | inr invalid ↦ rw invalid fails
      ])

-- One level further in and out again.
pub nested-After :
    {A : Type 0} (P : A → Type 0) (n : ℕ) (read : Reads A) (r : Reader)
    → Ensures (λ (a, r'). P a × After (enter r) n r') (read (enter r))
    → Ensures (λ (a, r'). (r.depth < max_depth) × P a × After r n r') (nested read r)
unfolding nested
nested-After P n read r h = elim (le_or_lt max_depth r.depth) [
  | inl deep ↦ rw (le→leb max_depth r.depth deep) fails
  | inr room ↦ rw (gt→leb max_depth r.depth room) (
      Ensures->>= h (λ (a, r') (p, after). returns (
        room,
        p,
        record { level = omega (arith, after.level); moved = after.moved; clean = after.clean },
      )))
]
