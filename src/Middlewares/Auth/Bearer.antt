-- ===== src/Middlewares/Auth/Bearer.antt =====
-- The header Authorization with a bearer token (builtin/middlewares/auth/auth.go).
use Prim.Native.Char.{code}
use Prim.Native.String.{[] as empty_text, ◌∷◌ as char_then, ◌++◌ as text_append}
use text.Mathlib.TextLemmas.{nil-append, cons-append}
use aastro.Prelude.{ℕ, ◌==◌, Bool, true, false, not, ◌&&◌, some, String, ◌≡◌, refl, arith}
use aastro.Middlewares.Auth.{split_space, equal_fold, to_lower}

no_space : String → Bool
no_space empty_text = true
no_space (char_then c s) = not (code c == 32) && no_space s

to_lower_space :
    (c d : ℕ) → (to_lower c == to_lower d) ≡ true → (d == 32) ≡ false → (c == 32) ≡ false
to_lower_space c d same n = ground arith

equal_fold-no_space : (s t : String) → equal_fold s t ≡ true → no_space t ≡ true → no_space s ≡ true
unfolding equal_fold no_space
equal_fold-no_space empty_text t h n = refl
equal_fold-no_space (char_then c s) empty_text h n = cc
equal_fold-no_space (char_then c s) (char_then d t) h n =
    let here = to_lower_space (code c) (code d) in
    let rest = equal_fold-no_space s t in ground (arith, here, rest)

split_space-join :
    (scheme text : String)
    → no_space scheme ≡ true
    → split_space (text_append scheme (text_append " " text)) ≡ some (scheme, text)
unfolding split_space no_space
split_space-join empty_text text n = rw nil-append (rw cons-append (rw nil-append refl))
split_space-join (char_then c s) text n =
    let apart : (code c == 32) ≡ false = ground (arith, n) in
    let rest = split_space-join s text (ground (arith, n)) in rw cons-append (rw (apart, rest) refl)

-- A header of the scheme "Bearer", in whatever case, is taken apart at the space behind it.
pub split_space-bearer :
    (scheme text : String)
    → equal_fold scheme "Bearer" ≡ true
    → split_space (text_append scheme (text_append " " text)) ≡ some (scheme, text)
unfolding no_space
split_space-bearer scheme text h =
    split_space-join scheme text (equal_fold-no_space scheme "Bearer" h refl)
