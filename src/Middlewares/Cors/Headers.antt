-- ===== src/Middlewares/Cors/Headers.antt =====
-- The headers that `setHeaders` leaves (builtin/middlewares/cors/cors.go).
use aastro.Prelude.{
  Bool, true, false, not, List, [], ◌∷◌, String, ◌≡◌, refl, ap, ◌∙◌, if◌then◌else◌, str_eq,
  is_empty, Bool-cases, inl, inr, leb,
}
use aastro.Header.{Header, get, set_header, first}
use aastro.Upstream.{ℤ, pos, negsuc}
use aastro.Router.Outcome.{values-set_same, values-set_other}
use aastro.Router.Handler.{itoa}
use aastro.Middlewares.Cors.{Cors, set_origin, set_headers, set_max_age, join_comma}

abbrev pub allow_origin : Header → String
allow_origin h = get "Access-Control-Allow-Origin" h

abbrev pub credentials : Header → String
credentials h = get "Access-Control-Allow-Credentials" h

abbrev pub allow_methods : Header → String
allow_methods h = get "Access-Control-Allow-Methods" h

abbrev pub allow_headers : Header → String
allow_headers h = get "Access-Control-Allow-Headers" h

abbrev pub told_age : Header → String
told_age h = get "Access-Control-Max-Age" h

-- An age of at least 1 in digits, and nothing for any other.
abbrev pub age_text : ℤ → String
age_text (negsuc n) = ""
age_text (pos n) = if leb 1 n then itoa n else ""

joined :
    (ss : List String) (s : String)
    → s ≡ ""
    → (if not (is_empty ss) then join_comma ss else s) ≡ join_comma ss
unfolding join_comma
joined [] s h = h
joined (x ∷ ss) s h = refl

get-set_if :
    (b : Bool) (k j v : String) (h : Header)
    → str_eq k j ≡ false
    → get j (if b then set_header k v h else h) ≡ get j h
get-set_if true k j v h n = ap first (values-set_other k j v h n)
get-set_if false k j v h n = refl

get-set_max_age :
    (n : ℤ) (j : String) (h : Header)
    → str_eq "Access-Control-Max-Age" j ≡ false
    → get j (set_max_age n h) ≡ get j h
get-set_max_age (negsuc n) j h e = refl
get-set_max_age (pos n) j h e = get-set_if (leb 1 n) "Access-Control-Max-Age" j (itoa n) h e

get-set_own :
    (b : Bool) (k v : String) (h : Header)
    → get k (if b then set_header k v h else h) ≡ (if b then v else get k h)
get-set_own true k v h = ap first (values-set_same k v h)
get-set_own false k v h = refl

module _ (m : Cors) (origin : String) (h : Header) where
  allow_origin-set_origin :
      allow_origin (set_origin m origin h) ≡ (if m.allow_all then "*" else origin)
  unfolding set_origin
  allow_origin-set_origin = elim (Bool-cases m.allow_all) [
    | inl e ↦ simp (e, values-set_same "Access-Control-Allow-Origin" "*" h) refl
    | inr e ↦ rw e (
        ap first (
          values-set_other "Vary" "Access-Control-Allow-Origin" "Origin"
            (set_header "Access-Control-Allow-Origin" origin h) refl
          ∙ values-set_same "Access-Control-Allow-Origin" origin h))
  ]

  get-set_origin :
      (j : String)
      → str_eq "Access-Control-Allow-Origin" j ≡ false
      → str_eq "Vary" j ≡ false
      → get j (set_origin m origin h) ≡ get j h
  unfolding set_origin
  get-set_origin j n v = elim (Bool-cases m.allow_all) [
    | inl e ↦ rw e (ap first (values-set_other "Access-Control-Allow-Origin" j "*" h n))
    | inr e ↦ rw e (
        ap first (
          values-set_other "Vary" j "Origin" (set_header "Access-Control-Allow-Origin" origin h) v
          ∙ values-set_other "Access-Control-Allow-Origin" j origin h n))
  ]

  pub allow_origin-set_headers :
      allow_origin (set_headers m origin h) ≡ (if m.allow_all then "*" else origin)
  unfolding set_headers
  allow_origin-set_headers =
      get-set_max_age m.max_age "Access-Control-Allow-Origin" _ refl
      ∙ get-set_if m.allow_credentials "Access-Control-Allow-Credentials"
          "Access-Control-Allow-Origin" "true" _ refl
      ∙ get-set_if (not (is_empty m.allowed_headers)) "Access-Control-Allow-Headers"
          "Access-Control-Allow-Origin" (join_comma m.allowed_headers) _ refl
      ∙ get-set_if (not (is_empty m.allowed_methods)) "Access-Control-Allow-Methods"
          "Access-Control-Allow-Origin" (join_comma m.allowed_methods) _ refl
      ∙ allow_origin-set_origin

  pub credentials-set_headers :
      credentials (set_headers m origin h) ≡ (if m.allow_credentials then "true" else credentials h)
  unfolding set_headers
  credentials-set_headers =
      get-set_max_age m.max_age "Access-Control-Allow-Credentials" _ refl
      ∙ get-set_own m.allow_credentials "Access-Control-Allow-Credentials" "true" _
      ∙ ap (λ (s : String). if m.allow_credentials then "true" else s)
          (get-set_if (not (is_empty m.allowed_headers)) "Access-Control-Allow-Headers"
              "Access-Control-Allow-Credentials" (join_comma m.allowed_headers) _ refl
            ∙ get-set_if (not (is_empty m.allowed_methods)) "Access-Control-Allow-Methods"
                "Access-Control-Allow-Credentials" (join_comma m.allowed_methods) _ refl
            ∙ get-set_origin "Access-Control-Allow-Credentials" refl refl)

  -- Onto headers that have no such header, `setHeaders` puts just the methods of the list, or none.
  pub allow_methods-set_headers :
      allow_methods h ≡ "" → allow_methods (set_headers m origin h) ≡ join_comma m.allowed_methods
  unfolding set_headers
  allow_methods-set_headers unset =
      get-set_max_age m.max_age "Access-Control-Allow-Methods" _ refl
      ∙ get-set_if m.allow_credentials "Access-Control-Allow-Credentials"
          "Access-Control-Allow-Methods" "true" _ refl
      ∙ get-set_if (not (is_empty m.allowed_headers)) "Access-Control-Allow-Headers"
          "Access-Control-Allow-Methods" (join_comma m.allowed_headers) _ refl
      ∙ get-set_own (not (is_empty m.allowed_methods)) "Access-Control-Allow-Methods"
          (join_comma m.allowed_methods) _
      ∙ joined m.allowed_methods _ (get-set_origin "Access-Control-Allow-Methods" refl refl ∙ unset)

  pub allow_headers-set_headers :
      allow_headers h ≡ "" → allow_headers (set_headers m origin h) ≡ join_comma m.allowed_headers
  unfolding set_headers
  allow_headers-set_headers unset =
      get-set_max_age m.max_age "Access-Control-Allow-Headers" _ refl
      ∙ get-set_if m.allow_credentials "Access-Control-Allow-Credentials"
          "Access-Control-Allow-Headers" "true" _ refl
      ∙ get-set_own (not (is_empty m.allowed_headers)) "Access-Control-Allow-Headers"
          (join_comma m.allowed_headers) _
      ∙ joined m.allowed_headers _ (
          get-set_if (not (is_empty m.allowed_methods)) "Access-Control-Allow-Methods"
            "Access-Control-Allow-Headers" (join_comma m.allowed_methods) _ refl
          ∙ get-set_origin "Access-Control-Allow-Headers" refl refl
          ∙ unset)

  told_age-set_max_age :
      (n : ℤ) (g : Header) → told_age g ≡ "" → told_age (set_max_age n g) ≡ age_text n
  told_age-set_max_age (negsuc n) g unset = unset
  told_age-set_max_age (pos n) g unset =
      get-set_own (leb 1 n) "Access-Control-Max-Age" (itoa n) g
      ∙ ap (λ (s : String). if leb 1 n then itoa n else s) unset

  pub told_age-set_headers :
      told_age h ≡ "" → told_age (set_headers m origin h) ≡ age_text m.max_age
  unfolding set_headers
  told_age-set_headers unset = told_age-set_max_age m.max_age _ (
      get-set_if m.allow_credentials "Access-Control-Allow-Credentials" "Access-Control-Max-Age"
        "true" _ refl
      ∙ get-set_if (not (is_empty m.allowed_headers)) "Access-Control-Allow-Headers"
          "Access-Control-Max-Age" (join_comma m.allowed_headers) _ refl
      ∙ get-set_if (not (is_empty m.allowed_methods)) "Access-Control-Allow-Methods"
          "Access-Control-Max-Age" (join_comma m.allowed_methods) _ refl
      ∙ get-set_origin "Access-Control-Max-Age" refl refl
      ∙ unset)
