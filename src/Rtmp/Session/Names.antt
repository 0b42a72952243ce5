-- ===== src/Rtmp/Session/Names.antt =====
-- The name in a stream key of src/rtmp/session.rs, however many slashes and whatever query stand around it.
use relaybay.Base.{
  ℕ, zero, suc, ◌≡◌, ◌≢◌, refl, ap, Bool, false, eqb, ne→eqb, [], ◌∷◌, ◌++◌, Bytes, All,
}
use relaybay.Base.{is_empty, arith}
use relaybay.Rtmp.Session.Commands.{trim_start, trim_end, trim_matches, before_mark, stream_key}

unfoldable pub slashes : ℕ → Bytes
slashes zero = []
slashes (suc n) = b'/' ∷ slashes n

unfoldable pub begins_with : ℕ → Bytes → Bool
begins_with mark [] = false
begins_with mark (b ∷ bs) = eqb b mark

unfoldable pub ends_with : ℕ → Bytes → Bool
ends_with mark [] = false
ends_with mark (b ∷ []) = eqb b mark
ends_with mark (b ∷ c ∷ bs) = ends_with mark (c ∷ bs)

-- A name: not empty, without a question mark, and without a slash at an end.
pub record IsName (name : Bytes) : Type 0 where
  pub there : is_empty name ≡ false
  pub plain : All (λ b. b ≢ b'?') name
  pub start : begins_with b'/' name ≡ false
  pub finish : ends_with b'/' name ≡ false

-- Nothing, or a query behind its question mark.
unfoldable pub query_of : Bytes → Bytes
query_of [] = []
query_of (b ∷ bs) = b'?' ∷ b ∷ bs

before_mark-query : (query : Bytes) → before_mark b'?' (query_of query) ≡ []
unfolding before_mark query_of
before_mark-query [] = refl
before_mark-query (b ∷ bs) = refl

before_mark-append :
    (bs query : Bytes) → All (λ b. b ≢ b'?') bs → before_mark b'?' (bs ++ query_of query) ≡ bs
unfolding before_mark
before_mark-append [] query h = before_mark-query query
before_mark-append (b ∷ bs) query (h, hs) =
    rw (ne→eqb b b'?' h) (ap (λ t. b ∷ t) (before_mark-append bs query hs))

trim_start-slashes :
    (n : ℕ) (name rest : Bytes)
    → is_empty name ≡ false
    → begins_with b'/' name ≡ false
    → trim_start b'/' (slashes n ++ (name ++ rest)) ≡ name ++ rest
unfolding trim_start slashes begins_with
trim_start-slashes zero [] rest h start = cc
trim_start-slashes zero (b ∷ bs) rest h start = rw start refl
trim_start-slashes (suc n) name rest h start = trim_start-slashes n name rest h start

trim_end-slashes : (n : ℕ) → trim_end b'/' (slashes n) ≡ []
unfolding trim_end slashes
trim_end-slashes zero = refl
trim_end-slashes (suc n) = rw (trim_end-slashes n) refl

trim_end-append :
    (name : Bytes) (n : ℕ)
    → is_empty name ≡ false
    → ends_with b'/' name ≡ false
    → trim_end b'/' (name ++ slashes n) ≡ name
unfolding trim_end ends_with
trim_end-append [] n h finish = cc
trim_end-append (b ∷ []) n h finish = rw (trim_end-slashes n, finish) refl
trim_end-append (b ∷ c ∷ bs) n h finish = rw (trim_end-append (c ∷ bs) n refl finish) refl

no_question : (n : ℕ) → All (λ b. b ≢ b'?') (slashes n)
unfolding slashes
no_question zero = tt
no_question (suc n) = ((λ e. omega arith), no_question n)

All-append : (P : ℕ → Type 0) (xs ys : Bytes) → All P xs → All P ys → All P (xs ++ ys)
All-append P [] ys hs ks = ks
All-append P (x ∷ xs) ys (h, hs) ks = (h, All-append P xs ys hs ks)

-- The name that a stream is published under is found in the key that holds it: between any slashes, and
-- in front of any query.
pub stream_key-IsName :
    (name query : Bytes) (before after : ℕ)
    → IsName name
    → stream_key ((slashes before ++ (name ++ slashes after)) ++ query_of query) ≡ name
unfolding stream_key trim_matches
stream_key-IsName name query before after v =
    let plain =
      All-append (λ b. b ≢ b'?') (slashes before) (name ++ slashes after) (no_question before)
        (All-append (λ b. b ≢ b'?') name (slashes after) v.plain (no_question after)) in
    rw
      (
        before_mark-append (slashes before ++ (name ++ slashes after)) query plain,
        trim_start-slashes before name (slashes after) v.there v.start,
        trim_end-append name after v.there v.finish,
      )
      refl
