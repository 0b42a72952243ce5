-- ===== src/Path/Registry/Laws.antt =====
-- What each step of the registry of src/path.rs does to the streams under every name.
use relaybay.Base.{ℕ, ◌^◌, ◌<◌, ◌≡◌, ◌≢◌, refl, sym, ap, ◌∙◌, eqb, arith}
use relaybay.Base.{if◌then◌else◌, Option, none, some, get, nat_eq}
use relaybay.Base.{string_eq, ◌>>=◌, get-insert, Option-cases, Bool-cases, inl, inr}
use relaybay.Base.{eqb_iff, ne→eqb}
use Prim.Native.String.{String}
use relaybay.Path.Registry.{Broadcast, Source, Registry, source_at, source_of, set_source}

-- Every path under a name is an address that was given out, two names never share one, and every
-- source has a token that was given out.
pub record IsValid {b : Broadcast} {D : Type 0} (r : Registry b D) : Type 0 where
  pub given : (n : String) (a : ℕ) → get n r.paths ≡ some a → a < r.next_path
  pub apart : (n m : String) (a : ℕ) → get n r.paths ≡ some a → get m r.paths ≡ some a → n ≡ m
  pub tokens : (a : ℕ) (s : Source b D) → source_at r a ≡ some s → s.token < r.published
  pub placed : (a : ℕ) (s : Source b D) → source_at r a ≡ some s → a < r.next_path
  pub unwrapped : r.published < 2 ^ 64

module _ {b : Broadcast} {D : Type 0} where
  pub source_at-set :
      (r : Registry b D) (p a : ℕ) (s : Option (Source b D))
      → source_at (set_source r p s) a ≡ (if eqb p a then s else source_at r a)
  unfolding source_at set_source
  source_at-set r p a s = ground (arith, get-insert a p s r.cells)

  pub source_of-some :
      (r : Registry b D) (n : String) (p : ℕ)
      → get n r.paths ≡ some p
      → source_of r n ≡ source_at r p
  unfolding source_of
  source_of-some r n p h = ap (λ o. o >>= source_at r) h

  pub source_of-none : (r : Registry b D) (n : String) → get n r.paths ≡ none → source_of r n ≡ none
  unfolding source_of
  source_of-none r n h = ap (λ o. o >>= source_at r) h

  paths-set :
      (r : Registry b D) (p : ℕ) (s : Option (Source b D)) → (set_source r p s).paths ≡ r.paths
  unfolding set_source
  paths-set r p s = refl

  -- A step on the source at one address shows under the name of that address, and under no other.
  pub source_of-set :
      (r : Registry b D) (p : ℕ) (n : String) (s : Option (Source b D))
      → get n r.paths ≡ some p
      → source_of (set_source r p s) n ≡ s
  source_of-set r p n s h =
      source_of-some (set_source r p s) n p (ap (get n) (paths-set r p s) ∙ h)
      ∙ source_at-set r p p s
      ∙ rw ((eqb_iff p p).1 refl)

  pub source_of-set_other :
      (r : Registry b D) (p : ℕ) (n m : String) (s : Option (Source b D))
      → IsValid r
      → get n r.paths ≡ some p
      → n ≢ m
      → source_of (set_source r p s) m ≡ source_of r m
  source_of-set_other r p n m s v h d =
      let same = ap (get m) (paths-set r p s) in
      elim (Option-cases (get m r.paths)) [
        | inl e ↦ source_of-none (set_source r p s) m (same ∙ e) ∙ sym (source_of-none r m e)
        | inr (a, e) ↦
            let apart : p ≢ a = λ x. d (v.apart n m p h (rw x e)) in
            source_of-some (set_source r p s) m a (same ∙ e)
            ∙ source_at-set r p a s
            ∙ rw (ne→eqb p a apart) (sym (source_of-some r m a e))
      ]

  pub set_source-IsValid :
      (r : Registry b D) (p : ℕ) (s : Option (Source b D))
      → IsValid r
      → ((source : Source b D) → s ≡ some source → (source.token < r.published) × (p < r.next_path))
      → IsValid (set_source r p s)
  set_source-IsValid r p s v h = record {
    given = unfold set_source in v.given;
    apart = unfold set_source in v.apart;
    tokens = λ a source e. (facts a source e).0;
    placed = λ a source e. (facts a source e).1;
    unwrapped = unfold set_source in v.unwrapped;
  }
    where
      facts :
          (a : ℕ) (source : Source b D)
          → source_at (set_source r p s) a ≡ some source
          → (source.token < (set_source r p s).published) × (a < (set_source r p s).next_path)
      facts a source e =
          unfold set_source in
          elim (Bool-cases (eqb p a)) [
            | inl same ↦
                let at : p ≡ a = (eqb_iff p a).0 same in
                let is : s ≡ some source = rw (source_at-set r p a s, same) at e in
                rw at at (h source is)
            | inr other ↦
                let is : source_at r a ≡ some source = rw (source_at-set r p a s, other) at e in
                (v.tokens a source is, v.placed a source is)
          ]
