-- ===== src/OpenApi/FromConfig/Slots.antt =====
-- The slots of an item, one for each method (internal/openapi).
use aastro.Prelude.{
  true, List, [], ◌∷◌, Option, none, some, String, str_eq, str_eq_iff, contains, lookup, All,
  if◌then◌else◌, ◌≡◌, refl, subst, inl, inr, arith, Bool-cases,
}
use aastro.Prelude.Sorting.{or_else, or_else-none}
use aastro.OpenApi.Document.{Operation, PathItem, slot, operations_of, methods}
use aastro.OpenApi.FromConfig.{get_slot, set_slot}

contains-All :
    (P : String → Type 0) (m : String) (xs : List String) → All P xs → contains xs m ≡ true → P m
contains-All P m [] h c = absurd (ground (arith, c))
contains-All P m (x ∷ xs) h c = elim (Bool-cases (str_eq x m)) [
  | inl e ↦ subst P ((str_eq_iff x m).0 e) h.0
  | inr e ↦ contains-All P m xs h.1 (ground (arith, e, c))
]

-- What holds of each method of `methods` holds of a method that is one of them.
pub for_methods :
    (P : String → Type 0) (m : String)
    → P "GET"
    → P "PUT"
    → P "POST"
    → P "DELETE"
    → P "OPTIONS"
    → P "HEAD"
    → P "PATCH"
    → P "QUERY"
    → contains methods m ≡ true
    → P m
for_methods P m a b c d e f g h =
    contains-All P m methods (a, (b, (c, (d, (e, (f, (g, (h, tt))))))))

pub get_slot-set_slot :
    (m n : String) (op : Operation) (i : PathItem)
    → contains methods m ≡ true
    → get_slot m (set_slot n op i) ≡ (if str_eq n m then some op else get_slot m i)
unfolding get_slot set_slot
get_slot-set_slot m n op i =
    for_methods (λ k. get_slot k (set_slot n op i) ≡ (if str_eq n k then some op else get_slot k i))
      m refl refl refl refl refl refl refl refl

lookup-slot :
    (m n : String) (o : Option Operation) (rest : List (String × Operation))
    → lookup m (slot n o rest) ≡ (if str_eq n m then or_else o (lookup m rest) else lookup m rest)
unfolding lookup
lookup-slot m n none rest = elim (Bool-cases (str_eq n m)) [ inl e ↦ rw e refl | inr e ↦ rw e refl ]
lookup-slot m n (some op) rest = refl

pub lookup-operations_of :
    (m : String) (i : PathItem)
    → contains methods m ≡ true
    → lookup m (operations_of (some i)) ≡ get_slot m i
unfolding operations_of get_slot lookup
lookup-operations_of m i =
    for_methods (λ k. lookup k (operations_of (some i)) ≡ get_slot k i) m
      (simp (lookup-slot, or_else-none) refl) (simp (lookup-slot, or_else-none) refl)
      (simp (lookup-slot, or_else-none) refl) (simp (lookup-slot, or_else-none) refl)
      (simp (lookup-slot, or_else-none) refl) (simp (lookup-slot, or_else-none) refl)
      (simp (lookup-slot, or_else-none) refl) (simp (lookup-slot, or_else-none) refl)
