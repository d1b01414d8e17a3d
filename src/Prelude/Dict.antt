-- ===== src/Prelude/Dict.antt =====
-- Dictionaries with text keys, for Go's maps. A key is found at its first entry, and `insert`
-- replaces in place, so a dictionary that `insert` builds has each key once.
use Prim.Native.String.{String}
use mathlib.Core.Path.{◌≡◌, refl}
use mathlib.Core.Bool.{Bool, false, ◌||◌}
use mathlib.Core.List.{List, [], ◌∷◌}
use mathlib.Core.Option.{Option, none, some}
use native.Mathlib.Omega.{arith}
use text.Mathlib.TextEquality.{eq_iff}
use aastro.Prelude.Tests.{if◌then◌else◌}
-- `==` on texts; the name `◌==◌` is kept for numbers.
pub use text.Mathlib.Text.{◌==◌ as str_eq}
pub use text.Mathlib.TextEquality.{eq_iff as str_eq_iff}
pub use text.Mathlib.TextPositions.{eq_refl as str_eq_refl}

-- A Go `map[string]struct{}` or a slice that is searched.
abbrev pub contains : List String → String → Bool
contains [] k = false
contains (x ∷ xs) k = str_eq x k || contains xs k

-- `m[key]` with the comma-ok form.
unfoldable pub lookup {ℓ} : {V : Type ℓ} → String → List (String × V) → Option V
lookup key [] = none
lookup key ((at, found) ∷ rest) = if str_eq at key then some found else lookup key rest

-- `m[key] = value`.
unfoldable pub insert {ℓ} : {V : Type ℓ} → String → V → List (String × V) → List (String × V)
insert key value [] = (key, value) ∷ []
insert key value ((at, old) ∷ rest) =
    let further = (at, old) ∷ insert key value rest in
    if str_eq at key then (key, value) ∷ rest else further

module _ {ℓ} {V : Type ℓ} (key other : String) where
  pub lookup-insert :
      (value : V) (dict : List (String × V))
      → lookup other (insert key value dict)
        ≡ (if str_eq key other then some value else lookup other dict)
  unfolding insert lookup
  lookup-insert value [] = refl
  lookup-insert value ((at, old) ∷ rest) =
      let further = lookup-insert value rest in
      ground (arith, further, eq_iff at key, eq_iff at other, eq_iff key other)
