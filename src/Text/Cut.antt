-- ===== src/Text/Cut.antt =====
-- Where a needle is found, and what is cut there, when the text in front of it lacks its first byte.
use relaybay.Base.{ℕ, suc, ◌+◌, ◌≤◌, ◌≡◌, ◌≢◌, refl, sym, ap, ◌∙◌, arith}
use relaybay.Base.{true, false, eqb, if◌then◌else◌, ne→eqb}
use relaybay.Base.{Option, none, some, [], ◌∷◌, ◌++◌, Bytes, All, length, drop}
use relaybay.Base.{
  Bool-cases, inl, inr, eqb_iff, length-append, some_inj, take-append, drop-append, append_assoc,
}
use mathlib.Core.Option
use relaybay.Text.Scan.{starts_with, find, split_once, push_front, split_from, split}

abbrev pub Lacks : ℕ → Bytes → Type 0
Lacks c bs = All (λ b. c ≢ b) bs

pub starts_with-append : (needle text : Bytes) → starts_with needle (needle ++ text) ≡ true
unfolding starts_with
starts_with-append [] text = refl
starts_with-append (n ∷ ns) text = rw ((eqb_iff n n).1 refl) (starts_with-append ns text)

-- What is behind text that is long enough does not matter.
pub starts_with-more :
    (needle text more : Bytes)
    → length needle ≤ length text
    → starts_with needle (text ++ more) ≡ starts_with needle text
unfolding starts_with
starts_with-more [] text more h = refl
starts_with-more (n ∷ ns) [] more h = absurd (omega arith)
starts_with-more (n ∷ ns) (b ∷ bs) more h =
    ap (λ rest. if eqb n b then rest else false) (starts_with-more ns bs more (omega arith))

pub starts_with-le :
    (needle text : Bytes) → starts_with needle text ≡ true → length needle ≤ length text
unfolding starts_with
starts_with-le [] text e = omega arith
starts_with-le (n ∷ ns) [] e = cc
starts_with-le (n ∷ ns) (b ∷ bs) e = ground (arith, starts_with-le ns bs)

pub starts_with_miss :
    (n : ℕ) (ns : Bytes) (b : ℕ) (bs : Bytes) → n ≢ b → starts_with (n ∷ ns) (b ∷ bs) ≡ false
unfolding starts_with
starts_with_miss n ns b bs h = rw (ne→eqb n b h) refl

find_hit :
    (needle : Bytes) (b : ℕ) (bs : Bytes)
    → starts_with needle (b ∷ bs) ≡ true
    → find needle (b ∷ bs) ≡ some 0
unfolding find
find_hit needle b bs hit = rw hit refl

pub find_later :
    (needle : Bytes) (b : ℕ) (bs : Bytes)
    → starts_with needle (b ∷ bs) ≡ false
    → find needle (b ∷ bs) ≡ Option.map suc (find needle bs)
unfolding find
find_later needle b bs miss = rw miss refl

map-some : (o : Option ℕ) {i : ℕ} → Option.map suc o ≡ some i → (j : ℕ) × (o ≡ some j) × (suc j ≡ i)
map-some none e = cc
map-some (some j) e = (j, refl, some_inj e)

find_miss :
    (needle : Bytes) (b : ℕ) (bs : Bytes) {i : ℕ}
    → starts_with needle (b ∷ bs) ≡ false
    → find needle (b ∷ bs) ≡ some i
    → (j : ℕ) × (find needle bs ≡ some j) × (suc j ≡ i)
find_miss needle b bs miss e = map-some (find needle bs) (sym (find_later needle b bs miss) ∙ e)

pub find-le :
    (needle text : Bytes) (i : ℕ) → find needle text ≡ some i → i + length needle ≤ length text
unfolding find
find-le needle [] i e = cc
find-le needle (b ∷ bs) i e = elim (Bool-cases (starts_with needle (b ∷ bs))) [
  | inl hit ↦
      omega
        (arith, starts_with-le needle (b ∷ bs) hit, some_inj (sym (find_hit needle b bs hit) ∙ e))
  | inr miss ↦
      let (j, at, place) = find_miss needle b bs miss e in
      omega (arith, find-le needle bs j at, place)
]

-- The first place stays the first, whatever is behind the text.
pub find-more :
    (needle text more : Bytes) (i : ℕ)
    → find needle text ≡ some i
    → find needle (text ++ more) ≡ some i
unfolding find
find-more needle [] more i e = cc
find-more needle (b ∷ bs) more i e =
    let same = starts_with-more needle (b ∷ bs) more (omega (arith, find-le needle (b ∷ bs) i e)) in
    elim (Bool-cases (starts_with needle (b ∷ bs))) [
      | inl hit ↦ find_hit needle b (bs ++ more) (same ∙ hit) ∙ (sym (find_hit needle b bs hit) ∙ e)
      | inr miss ↦
          let (j, at, place) = find_miss needle b bs miss e in
          find_later needle b (bs ++ more) (same ∙ miss)
          ∙ (ap (Option.map suc) (find-more needle bs more j at) ∙ ap some place)
    ]

pub find-append :
    (n : ℕ) (ns front rest : Bytes)
    → Lacks n front
    → find (n ∷ ns) (front ++ (n ∷ ns ++ rest)) ≡ some (length front)
find-append n ns [] rest hs = find_hit (n ∷ ns) n (ns ++ rest) (starts_with-append (n ∷ ns) rest)
find-append n ns (b ∷ bs) rest (h, hs) =
    find_later (n ∷ ns) b (bs ++ (n ∷ ns ++ rest))
      (starts_with_miss n ns b (bs ++ (n ∷ ns ++ rest)) h)
    ∙ ap (Option.map suc) (find-append n ns bs rest hs)

split_skip :
    (needle skipped rest : Bytes)
    → split_from needle (length skipped) (skipped ++ rest) ≡ split needle rest
unfolding split split_from
split_skip needle [] rest = refl
split_skip needle (b ∷ bs) rest = split_skip needle bs rest

split_later :
    (needle : Bytes) (b : ℕ) (bs : Bytes)
    → starts_with needle (b ∷ bs) ≡ false
    → split needle (b ∷ bs) ≡ push_front b (split needle bs)
unfolding split split_from
split_later needle b bs miss = rw miss refl

pub split-append :
    (n : ℕ) (ns front rest : Bytes)
    → Lacks n front
    → split (n ∷ ns) (front ++ (n ∷ ns ++ rest)) ≡ front ∷ split (n ∷ ns) rest
unfolding split split_from push_front
split-append n ns [] rest hs =
    rw (starts_with-append (n ∷ ns) rest) (ap (λ parts. [] ∷ parts) (split_skip (n ∷ ns) ns rest))
split-append n ns (b ∷ bs) rest (h, hs) =
    split_later (n ∷ ns) b (bs ++ (n ∷ ns ++ rest))
      (starts_with_miss n ns b (bs ++ (n ∷ ns ++ rest)) h)
    ∙ ap (push_front b) (split-append n ns bs rest hs)

pub split_none : (n : ℕ) (ns text : Bytes) → Lacks n text → split (n ∷ ns) text ≡ text ∷ []
unfolding split split_from push_front
split_none n ns [] hs = refl
split_none n ns (b ∷ bs) (h, hs) =
    split_later (n ∷ ns) b bs (starts_with_miss n ns b bs h)
    ∙ ap (push_front b) (split_none n ns bs hs)

pub split_once-append :
    (n : ℕ) (ns front rest : Bytes)
    → Lacks n front
    → split_once (n ∷ ns) (front ++ (n ∷ ns ++ rest)) ≡ some (front, rest)
unfolding split_once
split_once-append n ns front rest hs =
    rw (find-append n ns front rest hs, take-append (length front) front (n ∷ ns ++ rest) refl)
      (ap (λ back. some (front, back))
        (ap (drop (length front + suc (length ns))) (sym (append_assoc front (n ∷ ns) rest))
          ∙ drop-append (length front + suc (length ns)) (front ++ (n ∷ ns)) rest
              (sym (length-append front (n ∷ ns)))))
