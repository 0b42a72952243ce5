-- ===== src/Rtsp/Incoming/Lines.antt =====
-- The head of a request as lines, and where it ends.
use relaybay.Base.{ℕ, suc, ◌+◌, ◌≡◌, ◌≢◌, refl, sym, ap, ◌∙◌, arith, false}
use relaybay.Base.{
  some, List, [], ◌∷◌, ◌++◌, map, Bytes, length, All, append_assoc, length-append, is_empty,
}
use relaybay.Base.{ne→eqb}
use relaybay.Text.{
  codes, find, find-append, find_later, starts_with, starts_with_miss, split, split-append,
  split_none, Lacks,
}
use mathlib.Core.Option
use relaybay.Text.Utf8.{IsUtf8, IsUtf8-append, IsUtf8-ascii}
use relaybay.Rtsp.Message.{Headers, header_lines, crlf}
use relaybay.Rtsp.Incoming.{blank_line}

-- Lines with a line break between each two.
unfoldable pub joined : Bytes → List Bytes → Bytes
joined line [] = line
joined line (next ∷ lines) = line ++ (crlf ++ joined next lines)

unfoldable pub line_of : Bytes × Bytes → Bytes
line_of (name, value) = name ++ (codes ": " ++ value)

-- A line that neither is empty nor has a carriage return.
abbrev pub IsLine : Bytes → Type 0
IsLine line = Lacks 13 line × (is_empty line ≡ false)

find_past :
    (line text : Bytes) (i : ℕ)
    → Lacks 13 line
    → starts_with blank_line (crlf ++ text) ≡ false
    → find blank_line text ≡ some i
    → find blank_line (line ++ (crlf ++ text)) ≡ some (length line + (2 + i))
find_past [] text i hs hc e =
    find_later blank_line 13 (10 ∷ text) hc
    ∙ ap (Option.map suc)
        (find_later blank_line 10 text (starts_with_miss 13 _ 10 text (cc)) ∙ ap (Option.map suc) e)
    ∙ ap some (omega arith)
find_past (b ∷ bs) text i (h, hs) hc e =
    find_later blank_line b (bs ++ (crlf ++ text))
      (starts_with_miss 13 (10 ∷ 13 ∷ 10 ∷ []) b (bs ++ (crlf ++ text)) h)
    ∙ ap (Option.map suc) (find_past bs text i hs hc e)
    ∙ ap some (omega arith)

joined-cons :
    (c : ℕ) (cs : Bytes) (lines : List Bytes) → joined (c ∷ cs) lines ≡ c ∷ joined cs lines
unfolding joined
joined-cons c cs [] = refl
joined-cons c cs (next ∷ lines) = refl

line_starts :
    (c : ℕ) (cs : Bytes) (lines : List Bytes) (rest : Bytes)
    → 13 ≢ c
    → starts_with blank_line (crlf ++ (joined (c ∷ cs) lines ++ rest)) ≡ false
unfolding starts_with
line_starts c cs lines rest h = rw (joined-cons c cs lines, ne→eqb 13 c h) refl

pub find-joined :
    (line : Bytes) (lines : List Bytes) (rest : Bytes)
    → Lacks 13 line
    → All IsLine lines
    → find blank_line (joined line lines ++ (blank_line ++ rest))
      ≡ some (length (joined line lines))
unfolding joined
find-joined line [] rest h hs = find-append 13 (10 ∷ 13 ∷ 10 ∷ []) line rest h
find-joined line ([] ∷ lines) rest h ((hn, some_byte), hs) = cc
find-joined line ((c ∷ cs) ∷ lines) rest h (((hc, hn), some_byte), hs) =
    let next = joined (c ∷ cs) lines in
    ap (find blank_line) (append_assoc line (crlf ++ next) (blank_line ++ rest))
    ∙ find_past line (next ++ (blank_line ++ rest)) (length next) h
        (line_starts c cs lines (blank_line ++ rest) hc)
        (find-joined (c ∷ cs) lines rest (hc, hn) hs)
    ∙ ap some (omega (arith, length-append line (crlf ++ next)))

pub split-joined :
    (line : Bytes) (lines : List Bytes)
    → Lacks 13 line
    → All IsLine lines
    → split crlf (joined line lines) ≡ line ∷ lines
unfolding joined
split-joined line [] h hs = split_none 13 (10 ∷ []) line h
split-joined line (next ∷ lines) h ((hn, some_byte), hs) =
    split-append 13 (10 ∷ []) line (joined next lines) h
    ∙ ap (λ parts. line ∷ parts) (split-joined next lines hn hs)

pub joined-IsUtf8 :
    (line : Bytes) (lines : List Bytes)
    → IsUtf8 line
    → All IsUtf8 lines
    → IsUtf8 (joined line lines)
unfolding joined
joined-IsUtf8 line [] h hs = h
joined-IsUtf8 line (next ∷ lines) h (hn, hs) = IsUtf8-append line _ h (
    IsUtf8-append crlf _ (IsUtf8-ascii crlf (omega arith, (omega arith, tt)))
      (joined-IsUtf8 next lines hn hs))

one_line :
    (name value lines rest : Bytes)
    → (name ++ (codes ": " ++ (value ++ (crlf ++ lines)))) ++ rest
      ≡ line_of (name, value) ++ (crlf ++ (lines ++ rest))
unfolding line_of
one_line name value lines rest =
    append_assoc name (codes ": " ++ (value ++ (crlf ++ lines))) rest
    ∙ ap (λ t. name ++ (codes ": " ++ t)) (append_assoc value (crlf ++ lines) rest)
    ∙ sym (append_assoc name (codes ": " ++ value) (crlf ++ (lines ++ rest)))

-- Headers written out are lines.
pub joined-header_lines :
    (line : Bytes) (headers : Headers) (rest : Bytes)
    → line ++ (crlf ++ (header_lines headers ++ rest))
      ≡ joined line (map line_of headers) ++ (crlf ++ rest)
unfolding joined header_lines line_of
joined-header_lines line [] rest = refl
joined-header_lines line ((name, value) ∷ headers) rest =
    let line' = line_of (name, value) in
    ap (λ t. line ++ (crlf ++ t)) (one_line name value (header_lines headers) rest)
    ∙ ap (λ t. line ++ (crlf ++ t)) (joined-header_lines line' headers rest)
    ∙ sym (append_assoc line (crlf ++ joined line' (map line_of headers)) (crlf ++ rest))
