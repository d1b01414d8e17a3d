-- ===== src/Prelude/Fallible.antt =====
-- Go's `if err != nil { return err }` for `do` blocks: none is an error.
use aastro.Prelude.Tests.{if◌then◌else◌}
use mathlib.Core.Path.{◌≡◌, refl, subst}
use mathlib.Core.Bool.{Bool, true, false}
use mathlib.Core.Option.{Option, none, some}

infixl 5 ◌>>=◌ ◌>>◌
abbrev pub ◌>>=◌ {ℓ κ} : {A : Type ℓ} {B : Type κ} → Option A → (A → Option B) → Option B
none >>= f = none
some a >>= f = f a

abbrev pub ◌>>◌ {ℓ} : {B : Type ℓ} → Option (Unit {0}) → Option B → Option B
m >> k = m >>= λ _. k

-- An error unless the test holds.
abbrev pub guard : Bool → Option (Unit {0})
guard true = some tt
guard false = none

-- What a `do` block that gives a value has met.
pub >>=-eq-some {ℓ κ} :
    {A : Type ℓ} {B : Type κ} (m : Option A) (f : A → Option B) {b : B}
    → (m >>= f) ≡ some b
    → (a : A) × ((m ≡ some a) × (f a ≡ some b))
>>=-eq-some none f h = cc
>>=-eq-some (some a) f h = (a, (refl, h))

guard-eq-some : (b : Bool) {u : Unit {0}} → guard b ≡ some u → b ≡ true
guard-eq-some true h = refl
guard-eq-some false h = cc

module _ {ℓ κ} {A : Type ℓ} (P : A → Type κ) where
  -- What holds of a value, if there is one.
  abbrev pub WhenSome : Option A → Type κ
  WhenSome none = Unit
  WhenSome (some a) = P a

  pub WhenSome-if :
      (b : Bool) (x y : Option A)
      → (b ≡ true → WhenSome x)
      → (b ≡ false → WhenSome y)
      → WhenSome (if b then x else y)
  WhenSome-if true x y hx hy = hx refl
  WhenSome-if false x y hx hy = hy refl

  pub WhenSome-eq : {o : Option A} {a : A} → WhenSome o → o ≡ some a → P a
  WhenSome-eq h e = subst (λ (o : Option A). WhenSome o) e h

pub WhenSome-bind {ℓ κ ι} :
    {A : Type ℓ} {B : Type κ} (P : B → Type ι) (m : Option A) (f : A → Option B)
    → ((a : A) → m ≡ some a → WhenSome P (f a))
    → WhenSome P (m >>= f)
WhenSome-bind P none f h = tt
WhenSome-bind P (some a) f h = h a refl
