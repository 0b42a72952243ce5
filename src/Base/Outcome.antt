-- ===== src/Base/Outcome.antt =====
-- What a fallible operation comes to, and postconditions on it.
use mathlib.Core.Path.{◌≡◌, refl, subst}
use mathlib.Core.Logic.{◌≢◌}
use mathlib.Core.Bool.{Bool, true, false}
use relaybay.Base.Tests.{if◌then◌else◌}

-- A `Result`, with the two ways in which code could fail to return one: a panic, and a loop that has
-- used up the model's fuel.
pub data Outcome {ℓ} (E : Type 0) (R : Type ℓ) : Type ℓ where
  panic : Outcome E R
  spent : Outcome E R
  err : E → Outcome E R
  ok : R → Outcome E R

infixl 5 ◌>>=◌
abbrev pub ◌>>=◌ {ℓ₁ ℓ₂} :
    {E : Type 0} {R : Type ℓ₁} {Q : Type ℓ₂} → Outcome E R → (R → Outcome E Q) → Outcome E Q
panic >>= next = panic
spent >>= next = spent
err why >>= next = err why
ok result >>= next = next result

infixl 5 ◌>>◌
abbrev pub ◌>>◌ {ℓ₁ ℓ₂} :
    {E : Type 0} {R : Type ℓ₁} {Q : Type ℓ₂} → Outcome E R → Outcome E Q → Outcome E Q
m >> after = m >>= λ _. after

-- It ends, without a panic, and what it returns has the property.
pub data Ensures {ℓ κ} {E : Type 0} {R : Type ℓ} (P : R → Type κ) : Outcome E R → Type (ℓ ⊔ κ) where
  returns : {result : R} → P result → Ensures P (ok result)
  fails : {why : E} → Ensures P (err why)

module _ {ℓ κ} {E : Type 0} {R : Type ℓ} {P : R → Type κ} where
  pub Ensures-ok : {m : Outcome E R} {r : R} → Ensures P m → m ≡ ok r → P r
  Ensures-ok (returns h) e = subst P (cc) h
  Ensures-ok fails e = cc

  pub Ensures-ne-spent : {m : Outcome E R} → Ensures P m → m ≢ spent
  Ensures-ne-spent (returns h) = cc
  Ensures-ne-spent fails = cc

  pub Ensures-ne-panic : {m : Outcome E R} → Ensures P m → m ≢ panic
  Ensures-ne-panic (returns h) = cc
  Ensures-ne-panic fails = cc

  pub Ensures-weaken {κ'} :
      {Q : R → Type κ'} {m : Outcome E R} → Ensures P m → ((r : R) → P r → Q r) → Ensures Q m
  Ensures-weaken (returns {result} h) k = returns (k result h)
  Ensures-weaken fails k = fails

  pub Ensures->>= {ℓ' κ'} :
      {S : Type ℓ'} {Q : S → Type κ'} {m : Outcome E R} {next : R → Outcome E S}
      → Ensures P m
      → ((r : R) → P r → Ensures Q (next r))
      → Ensures Q (m >>= next)
  Ensures->>= (returns {result} h) k = k result h
  Ensures->>= fails k = fails

  pub Ensures-if :
      (b : Bool) {m m' : Outcome E R}
      → (b ≡ true → Ensures P m)
      → (b ≡ false → Ensures P m')
      → Ensures P (if b then m else m')
  Ensures-if true h k = h refl
  Ensures-if false h k = k refl
