-- ===== src/Path/Registry/Leaving.antt =====
-- Publishers that leave or are displaced in src/path.rs, each step running alone.
use relaybay.Base.{ℕ, ◌+◌, ◌^◌, ◌<◌, ◌≡◌, ◌≢◌, refl, sym, ap, ◌∙◌}
use relaybay.Base.{arith, none, some, get, remove, nat_eq}
use relaybay.Base.{string_eq, get-remove, Option-cases, inl, inr, eqb_iff, ne→eqb, subst}
use Prim.Native.String.{String}
use text.Mathlib.TextEquality.{eq_iff}
use relaybay.Unit.{MediaUnit}
use relaybay.Path.Registry.{
  Broadcast, Publisher, Source, Registry, source_at, source_of, set_source, take_token, open_path,
  fresh_source, publish, read, push_source, push, owns, clear, forget, drop,
}
use relaybay.Path.Registry.Laws.{
  IsValid, source_of-some, source_of-none, source_of-set_other, set_source-IsValid,
}
use relaybay.Path.Registry.Publish.{IsPublisher, publish-Published}
use relaybay.Path.Registry.Live.{Holds}

module _ {b : Broadcast} {D : Type 0} where
  -- A publisher whose path has another's source is turned away, whatever it does.
  push-displaced :
      (r : Registry b D) (p : Publisher) (s : Source b D) (u : MediaUnit)
      → source_at r p.path ≡ some s
      → s.token ≢ p.token
      → push r p u ≡ r
  unfolding push push_source
  push-displaced r p s u h ne = rw (h, ne→eqb s.token p.token ne) refl

  drop-displaced :
      (r : Registry b D) (p : Publisher) (s : Source b D)
      → source_at r p.path ≡ some s
      → s.token ≢ p.token
      → drop r p ≡ r
  unfolding drop owns
  drop-displaced r p s h ne = rw (h, ne→eqb s.token p.token ne) refl

  publish-path :
      (r : Registry b D) (name : String) (d : D) (a : ℕ)
      → get name r.paths ≡ some a
      → (publish r name d).0.path ≡ a
  unfolding publish open_path take_token get
  publish-path r name d a h = rw h refl

  -- When a second publisher takes a name, the stream is the second's alone: what the first pushes goes
  -- nowhere, and when it leaves nothing changes.
  pub publish_displaces :
      (r : Registry b D) (p : Publisher) (d : D) (u : MediaUnit)
      → IsValid r
      → IsPublisher r p
      → r.published + 1 < 2 ^ 64
      → (push (publish r p.name d).1 p u ≡ (publish r p.name d).1)
        × (drop (publish r p.name d).1 p ≡ (publish r p.name d).1)
  publish_displaces r p d u v h room =
      let q = publish-Published r p.name d v room in
      let r₁ = (publish r p.name d).1 in
      let named : get p.name r₁.paths ≡ some p.path =
        rw q.named at q.publisher.named ∙ ap some (publish-path r p.name d p.path h.named) in
      let found : source_at r₁ p.path ≡ some (fresh_source r.published d) =
        sym (source_of-some r₁ p.name p.path named) ∙ q.source in
      let later : r.published ≢ p.token = λ e. omega (arith, h.given) in
      (push-displaced r₁ p _ u found later, drop-displaced r₁ p _ found later)

  drop-held :
      (r : Registry b D) (p : Publisher) (s : Source b D)
      → Holds r p s
      → drop r p ≡ forget (set_source r p.path none) p
  unfolding drop clear owns
  drop-held r p s h =
      rw
        (
          sym (source_of-some r p.name p.path h.named) ∙ h.source,
          (eqb_iff s.token p.token).1 h.token,
        )
        refl

  forget-IsValid : (r : Registry b D) (p : Publisher) → IsValid r → IsValid (forget r p)
  unfolding forget source_at
  forget-IsValid r p v = record {
    given = λ n a e. v.given n a (kept n a e);
    apart = λ n m a e e'. v.apart n m a (kept n a e) (kept m a e');
    tokens = v.tokens;
    placed = v.placed;
    unwrapped = v.unwrapped;
  }
    where
      kept : (n : String) (a : ℕ) → get n (remove p.name r.paths) ≡ some a → get n r.paths ≡ some a
      kept n a e = ground (arith, eq_iff p.name n, get-remove n p.name r.paths)

  pub get-forget : (r : Registry b D) (p : Publisher) → get p.name (forget r p).paths ≡ none
  unfolding forget
  get-forget r p = ground (arith, eq_iff p.name p.name, get-remove p.name p.name r.paths)

  get-forget_other :
      (r : Registry b D) (p : Publisher) (m : String)
      → p.name ≢ m
      → get m (forget r p).paths ≡ get m r.paths
  unfolding forget
  get-forget_other r p m ne = ground (arith, eq_iff p.name m, get-remove m p.name r.paths)

  source_of-forget_other :
      (r : Registry b D) (p : Publisher) (m : String)
      → p.name ≢ m
      → source_of (forget r p) m ≡ source_of r m
  source_of-forget_other r p m ne = elim (Option-cases (get m r.paths)) [
    | inl e ↦
        source_of-none (forget r p) m (get-forget_other r p m ne ∙ e) ∙ sym (source_of-none r m e)
    | inr (a, e) ↦
        source_of-some (forget r p) m a (get-forget_other r p m ne ∙ e)
        ∙ unfold forget source_at in refl ∙ sym (source_of-some r m a e)
  ]

  -- What is left when a publisher goes.
  pub record Dropped (r : Registry b D) (p : Publisher) (r' : Registry b D) : Type 0 where
    pub valid : IsValid r'
    pub gone : source_of r' p.name ≡ none
    pub unread : read r' p.name ≡ none
    pub others : (m : String) → p.name ≢ m → source_of r' m ≡ source_of r m

  -- A publisher that holds its stream takes it along when it leaves: nobody can join it any more, and
  -- every other stream is as it was.
  pub drop-Dropped :
      (r : Registry b D) (p : Publisher) (s : Source b D)
      → IsValid r
      → Holds r p s
      → Dropped r p (drop r p)
  drop-Dropped r p s v h =
      let r₁ = set_source r p.path none in
      let gone = source_of-none (forget r₁ p) p.name (get-forget r₁ p) in
      subst (Dropped r p) (sym (drop-held r p s h)) (record {
        valid =
            forget-IsValid r₁ p
              (set_source-IsValid r p.path none v (λ source e. ground (arith, e)));
        gone = gone;
        unread = unfold read in rw gone refl;
        others = λ m ne.
            source_of-forget_other r₁ p m ne
            ∙ source_of-set_other r p.path p.name m none v h.named ne;
      })
