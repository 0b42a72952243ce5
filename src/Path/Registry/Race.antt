-- ===== src/Path/Registry/Race.antt =====
-- `Drop for Publisher` of src/path.rs takes two locks, one after the other; here another publisher
-- comes in between.
use relaybay.Base.{◌+◌, ◌^◌, ◌<◌, ◌≡◌, refl, sym, ap, ◌∙◌, true}
use relaybay.Base.{arith, none, some, nat_eq}
use relaybay.Base.{string_eq, eqb_iff, subst}
use relaybay.Path.Registry.{
  Broadcast, Publisher, Source, Registry, source_at, set_source, fresh_source, publish, read, owns,
  clear, forget,
}
use relaybay.Path.Registry.Laws.{IsValid, source_of-some, source_of-none, set_source-IsValid}
use relaybay.Path.Registry.Publish.{publish-Published}
use relaybay.Path.Registry.Live.{Holds}
use relaybay.Path.Registry.Leaving.{get-forget}

module _ {b : Broadcast} {D : Type 0} where
  clear-held :
      (r : Registry b D) (p : Publisher) (s : Source b D)
      → Holds r p s
      → clear r p ≡ set_source r p.path none
  unfolding clear owns
  clear-held r p s h =
      rw
        (
          sym (source_of-some r p.name p.path h.named) ∙ h.source,
          (eqb_iff s.token p.token).1 h.token,
        )
        refl

  -- The registry after a publisher has cleared its source, another has published under the same name,
  -- and the first has then removed the name.
  abbrev pub overtaken : Registry b D → Publisher → D → Registry b D
  overtaken r p d = forget (publish (clear r p) p.name d).1 p

  -- A publisher that takes a name between the two steps in which the last one leaves keeps its source,
  -- which still takes what it pushes, but nobody can read the name: the registry has forgotten its path.
  pub read-overtaken :
      (r : Registry b D) (p : Publisher) (s : Source b D) (d : D)
      → IsValid r
      → Holds r p s
      → r.published + 1 < 2 ^ 64
      → (read (overtaken r p d) p.name ≡ none)
        × (owns
              (publish (clear r p) p.name d).0
              (source_at (overtaken r p d) (publish (clear r p) p.name d).0.path)
            ≡ true)
  read-overtaken r p s d v h room =
      let r₁ = clear r p in
      let cleared = clear-held r p s h in
      let v₁ : IsValid r₁ =
        subst IsValid (sym cleared)
          (set_source-IsValid r p.path none v (λ source e. ground (arith, e))) in
      let clock : r₁.published ≡ r.published =
        ap (λ x. x.published) cleared ∙ unfold set_source in refl in
      let q = publish-Published r₁ p.name d v₁ (omega (arith, clock)) in
      let t = publish r₁ p.name d in
      let here : source_at t.1 t.0.path ≡ some (fresh_source r₁.published d) =
        sym (source_of-some t.1 t.0.name t.0.path q.publisher.named) ∙ rw q.named q.source in
      let kept : source_at (overtaken r p d) t.0.path ≡ some (fresh_source r₁.published d) =
        unfold forget source_at in here in
      (
        unfold read in rw (source_of-none (overtaken r p d) p.name (get-forget t.1 p)) refl,
        ap (owns t.0) kept
            ∙ (unfold owns in rw q.token ((eqb_iff r₁.published r₁.published).1 refl)),
      )
