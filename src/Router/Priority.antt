-- ===== src/Router/Priority.antt =====
-- Which of several errors decides the status and the title of a reply.
use mathlib.Core.List.{Memᴰ}
use aastro.Prelude.{
  ℕ, suc, ◌≡◌, ◌≤◌, ◌<◌, refl, ap, inl, inr, List, [], ◌∷◌, ltb, arith, Bool-cases, ltb→lt, All,
}
use aastro.UpstreamError.{ClientError, unset}
use aastro.Router.{error_priority, select_from, select_primary_error}

-- What the loop has found: nothing above the best so far, or an error of the list that is above it
-- and that none of the list is above.
data Found (best : ℕ) (selected : ClientError) (es : List ClientError) (r : ClientError)
    : Type 0 where
  none_above : r ≡ selected → All (λ x. suc (error_priority x) ≤ best) es → Found best selected es r
  above :
      Memᴰ r es
      → best < suc (error_priority r)
      → All (λ x. error_priority x ≤ error_priority r) es
      → Found best selected es r

All-up :
    (es : List ClientError) (a b : ℕ)
    → a ≤ suc b
    → All (λ x. suc (error_priority x) ≤ a) es
    → All (λ x. error_priority x ≤ b) es
All-up [] a b h all = tt
All-up (e ∷ es) a b h all = (omega arith, All-up es a b h all.1)

Found-higher :
    (best : ℕ) (s e r : ClientError) (es : List ClientError)
    → best < suc (error_priority e)
    → Found (suc (error_priority e)) e es r
    → Found best s (e ∷ es) r
Found-higher best s e r es h (none_above same all) =
    let level = ap error_priority same in
    above (Memᴰ.head same) (omega arith) (omega arith, All-up es _ _ (omega arith) all)
Found-higher best s e r es h (above m lt all) = above (Memᴰ.tail m) (omega arith) (omega arith, all)

Found-lower :
    (best : ℕ) (s e r : ClientError) (es : List ClientError)
    → suc (error_priority e) ≤ best
    → Found best s es r
    → Found best s (e ∷ es) r
Found-lower best s e r es h (none_above same all) = none_above same (h, all)
Found-lower best s e r es h (above m lt all) = above (Memᴰ.tail m) lt (omega arith, all)

select_from-Found :
    (best : ℕ) (s : ClientError) (es : List ClientError) → Found best s es (select_from best s es)
unfolding select_from
select_from-Found best s [] = none_above refl tt
select_from-Found best s (e ∷ es) = elim (Bool-cases (ltb best (suc (error_priority e)))) [
  | inl higher ↦ rw higher (
      Found-higher best s e _ es (ltb→lt _ _ higher)
        (select_from-Found (suc (error_priority e)) e es))
  | inr lower ↦ rw lower (Found-lower best s e _ es (ground arith) (select_from-Found best s es))
]

-- One of the errors that no error of the list is above in priority.
abbrev IsPrimary : List ClientError → ClientError → Type 0
IsPrimary es r = Memᴰ r es × All (λ x. error_priority x ≤ error_priority r) es

Found-IsPrimary :
    (e : ClientError) (es : List ClientError) (r : ClientError)
    → Found 0 unset (e ∷ es) r
    → IsPrimary (e ∷ es) r
Found-IsPrimary e es r (none_above same all) = absurd (omega (arith, all.0))
Found-IsPrimary e es r (above m lt all) = (m, all)

-- Of a list of errors that is not empty, the primary error is one of the list, and none of the list
-- has a higher priority.
select_primary_error-IsPrimary :
    (e : ClientError) (es : List ClientError) → IsPrimary (e ∷ es) (select_primary_error (e ∷ es))
unfolding select_primary_error
select_primary_error-IsPrimary e es = Found-IsPrimary e es _ (select_from-Found 0 unset (e ∷ es))
