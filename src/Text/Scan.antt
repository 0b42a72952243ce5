-- ===== src/Text/Scan.antt =====
-- Looking for a needle in text and cutting the text there: `windows`, `split`, `split_once`,
-- `rsplit_once` and `trim_matches`.
use relaybay.Base.{ℕ, zero, suc, ◌+◌, ◌-◌, ◌≡◌, refl, arith}
use relaybay.Base.{Bool, true, false, eqb, leb, ◌&&◌, if◌then◌else◌}
use relaybay.Base.{Option, none, some, List, [], ◌∷◌, map, Bytes, length, take, drop}
use relaybay.Base.{eqb_iff, ◌↔◌}
use mathlib.Core.Option
use Prim.Native.String.{String}
use Prim.Native.Char.{code}

-- The bytes of a literal of ASCII.
abbrev pub codes : String → Bytes
codes String.[] = []
codes (String.◌∷◌ c s) = code c ∷ codes s

unfoldable pub beq : Bytes → Bytes → Bool
beq [] [] = true
beq [] (c ∷ cs) = false
beq (b ∷ bs) [] = false
beq (b ∷ bs) (c ∷ cs) = if eqb b c then beq bs cs else false

pub beq_iff : (bs cs : Bytes) → (beq bs cs ≡ true) ↔ (bs ≡ cs)
unfolding beq
beq_iff [] [] = (λ e. refl, λ e. refl)
beq_iff [] (c ∷ cs) = (λ e. cc, λ e. cc)
beq_iff (b ∷ bs) [] = (λ e. cc, λ e. cc)
beq_iff (b ∷ bs) (c ∷ cs) = (
  λ e. ground (arith, (beq_iff bs cs).0, (eqb_iff b c).0),
  λ e. ground (arith, (beq_iff bs cs).1, (eqb_iff b c).1),
)

abbrev lower : ℕ → ℕ
lower b = if leb 65 b && leb b 90 then b + 32 else b

-- `eq_ignore_ascii_case`
unfoldable pub same_word : Bytes → Bytes → Bool
unfolding beq
same_word name other = beq (map lower name) (map lower other)

unfoldable pub starts_with : Bytes → Bytes → Bool
starts_with [] text = true
starts_with (n ∷ ns) [] = false
starts_with (n ∷ ns) (b ∷ bs) = if eqb n b then starts_with ns bs else false

-- `ends_with`
unfoldable pub ends_with : Bytes → Bytes → Bool
unfolding beq
ends_with needle text =
    leb (length needle) (length text) && beq needle (drop (length text - length needle) text)

-- The first place where the needle, of one byte at least, stands.
unfoldable pub find : Bytes → Bytes → Option ℕ
unfolding starts_with
find needle [] = none
find needle (b ∷ bs) =
    let later = find needle bs in
    if starts_with needle (b ∷ bs) then some 0 else Option.map suc later

unfoldable pub split_once : Bytes → Bytes → Option (Bytes × Bytes)
unfolding find
split_once needle text =
    Option.map (λ i. (take i text, drop (i + length needle) text)) (find needle text)

unfoldable pub push_front : ℕ → List Bytes → List Bytes
push_front b [] = (b ∷ []) ∷ []
push_front b (part ∷ parts) = (b ∷ part) ∷ parts

-- `split`, past a number of bytes that belong to the needle found last.
unfoldable pub split_from : Bytes → ℕ → Bytes → List Bytes
unfolding starts_with push_front
split_from needle skip [] = [] ∷ []
split_from needle (suc skip) (b ∷ bs) = split_from needle skip bs
split_from needle zero (b ∷ bs) =
    let found = starts_with needle (b ∷ bs) in
    let parts = split_from needle (if found then length (drop 1 needle) else 0) bs in
    if found then [] ∷ parts else push_front b parts

unfoldable pub split : Bytes → Bytes → List Bytes
unfolding split_from
split needle text = split_from needle 0 text

unfoldable before_last : ℕ → ℕ → Bytes → Option (Bytes × Bytes) → Option (Bytes × Bytes)
before_last c b bs (some (front, back)) = some (b ∷ front, back)
before_last c b bs none = if eqb b c then some ([], bs) else none

unfoldable pub rsplit_once : ℕ → Bytes → Option (Bytes × Bytes)
unfolding before_last
rsplit_once c [] = none
rsplit_once c (b ∷ bs) = before_last c b bs (rsplit_once c bs)

-- `trim_start_matches` and `trim_end_matches` of one byte.
unfoldable pub trim_front : ℕ → Bytes → Bytes
trim_front c [] = []
trim_front c (b ∷ bs) = let rest = trim_front c bs in if eqb b c then rest else b ∷ bs

unfoldable pub trim_back : ℕ → Bytes → Bytes
trim_back c [] = []
trim_back c (b ∷ bs) = push_kept b (trim_back c bs)
  where
    push_kept : ℕ → Bytes → Bytes
    push_kept b [] = if eqb b c then [] else b ∷ []
    push_kept b (k ∷ ks) = b ∷ k ∷ ks
