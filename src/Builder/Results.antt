-- ===== src/Builder/Results.antt =====
-- What a step of the builder comes to (builder.go).
use aastro.Prelude.{Option, none, some, ◌≡◌, refl, subst, Bool, true, false, if◌then◌else◌}

-- A result, an error, or a panic: a nil pointer that is read.
pub data Outcome {ℓ} (A : Type ℓ) : Type ℓ where
  built : A → Outcome A
  failed crashed : Outcome A

abbrev pub then_build {ℓ κ} : {A : Type ℓ} {B : Type κ} → Outcome A → (A → Outcome B) → Outcome B
then_build (built a) f = f a
then_build failed f = failed
then_build crashed f = crashed

abbrev pub or_failed {ℓ} : {A : Type ℓ} → Option A → Outcome A
or_failed none = failed
or_failed (some a) = built a

module _ {ℓ κ} {A : Type ℓ} (P : A → Type κ) where
  -- What holds of a result, if there is one.
  abbrev pub WhenBuilt : Outcome A → Type κ
  WhenBuilt (built a) = P a
  WhenBuilt failed = Unit
  WhenBuilt crashed = Unit

  pub WhenBuilt-then :
      {B : Type 0} (o : Outcome B) (f : B → Outcome A)
      → ((b : B) → o ≡ built b → WhenBuilt (f b))
      → WhenBuilt (then_build o f)
  WhenBuilt-then (built b) f h = h b refl
  WhenBuilt-then failed f h = tt
  WhenBuilt-then crashed f h = tt

  pub WhenBuilt-eq : {o : Outcome A} {a : A} → WhenBuilt o → o ≡ built a → P a
  WhenBuilt-eq h e = subst (λ (o : Outcome A). WhenBuilt o) e h

  pub WhenBuilt-if :
      (b : Bool) (x y : Outcome A)
      → (b ≡ true → WhenBuilt x)
      → (b ≡ false → WhenBuilt y)
      → WhenBuilt (if b then x else y)
  WhenBuilt-if true x y hx hy = hx refl
  WhenBuilt-if false x y hx hy = hy refl

pub or_failed-eq : {A : Type 0} (o : Option A) (a : A) → or_failed o ≡ built a → o ≡ some a
or_failed-eq {A} none a h =
    absurd
      (subst (λ (r : Outcome A). elim r [ built x ↦ ⊥ | failed ↦ Unit {0} | crashed ↦ ⊥ ]) h tt)
or_failed-eq (some b) a h = cc
