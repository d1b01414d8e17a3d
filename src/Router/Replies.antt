-- ===== src/Router/Replies.antt =====
-- The replies to a client.
use mathlib.Core.List.{append-nil, append_assoc}
use aastro.Prelude.{
  ◌≡◌, refl, sym, ap, ◌∙◌, inl, inr, true, false, List, [], ◌∷◌, ◌++◌, arith, Bool-cases,
  if◌then◌else◌, subst, none, some, String, lookup, lookup-insert, contains, str_eq, str_eq_iff,
  str_eq_refl,
}
use aastro.Header.{Header, values, values_or_nil, add_header}
use aastro.Aggregator.{Distinct}
use aastro.Router.{copy_headers, copy_one, add_values, hop_by_hop_headers}

lookup-add_values :
    (k j : String) (vs : List String) (h : Header)
    → str_eq k j ≡ false
    → lookup j (add_values k vs h) ≡ lookup j h
unfolding add_values
lookup-add_values k j [] h n = refl
lookup-add_values k j (v ∷ vs) h n =
    lookup-add_values k j vs (add_header k v h) n
    ∙ ground (arith, lookup-insert k j (values k h ++ v ∷ []) h)

hop_differs :
    (k j : String)
    → contains hop_by_hop_headers k ≡ false
    → contains hop_by_hop_headers j ≡ true
    → str_eq k j ≡ false
hop_differs k j n y = elim (Bool-cases (str_eq k j)) [
  | inl same ↦
      let impossible : false ≡ true =
        sym n ∙ ap (contains hop_by_hop_headers) ((str_eq_iff k j).0 same) ∙ y in
      cc
  | inr other ↦ other
]

lookup-copy_one_hop :
    (j k : String) (vs : List String) (written : Header)
    → contains hop_by_hop_headers j ≡ true
    → lookup j (copy_one written k vs) ≡ lookup j written
unfolding copy_one
lookup-copy_one_hop j k vs written hop = elim (Bool-cases (contains hop_by_hop_headers k)) [
  | inl skipped ↦ rw skipped refl
  | inr kept ↦ rw kept (lookup-add_values k j vs written (hop_differs k j kept hop))
]

-- No hop-by-hop header of a response reaches the client: under such a key the writer's headers are
-- as they were.
pub lookup-copy_headers_hop :
    (j : String) (written h : Header)
    → contains hop_by_hop_headers j ≡ true
    → lookup j (copy_headers written h) ≡ lookup j written
unfolding copy_headers
lookup-copy_headers_hop j written [] hop = refl
lookup-copy_headers_hop j written ((k, vs) ∷ h) hop =
    lookup-copy_headers_hop j (copy_one written k vs) h hop ∙ lookup-copy_one_hop j k vs written hop

values-add_header : (k v : String) (h : Header) → values k (add_header k v h) ≡ values k h ++ v ∷ []
values-add_header k v h =
    ap values_or_nil (lookup-insert k k (values k h ++ v ∷ []) h)
    ∙ ap (λ b. values_or_nil (if b then some (values k h ++ v ∷ []) else lookup k h))
        (str_eq_refl k)

values-add_values :
    (k : String) (vs : List String) (h : Header) → values k (add_values k vs h) ≡ values k h ++ vs
unfolding add_values
values-add_values k [] h = sym (append-nil (values k h))
values-add_values k (v ∷ vs) h =
    values-add_values k vs (add_header k v h)
    ∙ ap (λ t. t ++ vs) (values-add_header k v h)
    ∙ append_assoc (values k h) (v ∷ []) vs

values-copy_one_same :
    (j k : String) (vs : List String) (written : Header)
    → contains hop_by_hop_headers j ≡ false
    → k ≡ j
    → values j (copy_one written k vs) ≡ values j written ++ vs
unfolding copy_one
values-copy_one_same j k vs written plain e =
    subst (λ x. values x (copy_one written k vs) ≡ values x written ++ vs) e
      (rw (ap (contains hop_by_hop_headers) e ∙ plain) (values-add_values k vs written))

values-copy_one_other :
    (j k : String) (vs : List String) (written : Header)
    → str_eq k j ≡ false
    → values j (copy_one written k vs) ≡ values j written
unfolding copy_one
values-copy_one_other j k vs written n = elim (Bool-cases (contains hop_by_hop_headers k)) [
  | inl skipped ↦ rw skipped refl
  | inr kept ↦ rw kept (ap values_or_nil (lookup-add_values k j vs written n))
]

-- A header of a response that is not hop-by-hop reaches the client, given that no name stands twice in
-- the response: its values come behind those that the writer has under the name.
pub values-copy_headers :
    (j : String) (written h : Header)
    → contains hop_by_hop_headers j ≡ false
    → Distinct h
    → values j (copy_headers written h) ≡ values j written ++ values j h
unfolding copy_headers lookup
values-copy_headers j written [] plain d = sym (append-nil _)
values-copy_headers j written ((k, vs) ∷ h) plain (fresh, d) = elim (Bool-cases (str_eq k j)) [
  | inl here ↦
      let same = (str_eq_iff k j).0 here in
      let gone : lookup j h ≡ none = ap (λ x. lookup x h) (sym same) ∙ fresh in
      values-copy_headers j (copy_one written k vs) h plain d
      ∙ ap (λ t. t ++ values j h) (values-copy_one_same j k vs written plain same)
      ∙ ap (λ o. (values j written ++ vs) ++ values_or_nil o) gone
      ∙ append-nil _
      ∙ ap (λ b. values j written ++ values_or_nil (if b then some vs else lookup j h)) (sym here)
  | inr apart ↦
      values-copy_headers j (copy_one written k vs) h plain d
      ∙ ap (λ t. t ++ values j h) (values-copy_one_other j k vs written apart)
      ∙ ap (λ b. values j written ++ values_or_nil (if b then some vs else lookup j h)) (sym apart)
]
