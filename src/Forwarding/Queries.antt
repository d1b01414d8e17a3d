-- ===== src/Forwarding/Queries.antt =====
-- upstream.go: the query of a request to an upstream (`resolveQueries`).
-- `url.Values` is a dictionary like a header, whose keys stand as they are; a query that is encoded is
-- kept as its values. The parameters of the route are go-chi's: `params` lists them, and `url_param` is
-- `chi.URLParam`, which is "" for a name that is none.
use aastro.Prelude.{
  ◌≡◌, refl, true, false, List, [], ◌∷◌, String, if◌then◌else◌, str_eq, str_eq_iff, subst, sym,
  contains, arith, Bool-cases, ◌⊎◌, inl, inr,
}
use aastro.Header.{Header, get, values, set_header, add_header}
use aastro.Router.Outcome.{values-set_same, values-set_other}

-- The loop over `forwardQueries`: on the left it has returned, on the right it goes on to the parameters.
pub forward_queries : List String → Header → Header → Header ⊎ Header
forward_queries [] original target = inr target
forward_queries (pattern ∷ ps) original target =
    let v = get pattern original in
    if str_eq pattern "*"
    then inl original
    else forward_queries ps original (if str_eq v "" then target else add_header pattern v target)

-- Every parameter of the route, for the pattern "*".
set_all : List (String × String) → Header → Header
set_all [] target = target
set_all ((k, v) ∷ params) target = set_all params (set_header k v target)

forward_queries_goes_on :
    (patterns : List String) (original target : Header)
    → contains patterns "*" ≡ false
    → (query : Header) × (forward_queries patterns original target ≡ inr query)
unfolding forward_queries
forward_queries_goes_on [] original target h = (target, refl)
forward_queries_goes_on (pattern ∷ ps) original target h =
    let not_star : str_eq pattern "*" ≡ false = ground arith in
    rw not_star (forward_queries_goes_on ps original _ (ground arith))

forward_queries_star :
    (patterns : List String) (original target : Header)
    → contains patterns "*" ≡ true
    → forward_queries patterns original target ≡ inl original
unfolding forward_queries
forward_queries_star [] original target h = cc
forward_queries_star (pattern ∷ ps) original target h = elim (Bool-cases (str_eq pattern "*")) [
  | inl here ↦ rw here refl
  | inr apart ↦ rw apart (forward_queries_star ps original _ (ground arith))
]

module _ (url_param : String → String) where
  -- The loop over `forwardParams`.
  pub forward_params : List String → List (String × String) → Header → Header
  forward_params [] params target = target
  forward_params (param ∷ ps) params target =
      let v = url_param param in
      if str_eq param "*"
      then set_all params target
      else forward_params ps params (if str_eq v "" then target else set_header param v target)

  after_queries : List String → List (String × String) → Header ⊎ Header → Header
  after_queries param_patterns params (inl query) = query
  after_queries param_patterns params (inr target) = forward_params param_patterns params target

  pub resolve_queries :
      List String → List String → List (String × String) → Header → Header → Header
  resolve_queries patterns param_patterns params original target =
      after_queries param_patterns params (forward_queries patterns original target)

  -- With "*" anywhere among the forwarded queries, the upstream gets the query of the client and nothing
  -- else: no parameter of the route, whatever parameters are to be forwarded, and nothing of the query
  -- that the target had.
  resolve_queries_star :
      (patterns param_patterns : List String) (params : List (String × String))
      (original target : Header)
      → contains patterns "*" ≡ true
      → resolve_queries patterns param_patterns params original target ≡ original
  unfolding resolve_queries after_queries
  resolve_queries_star patterns param_patterns params original target h =
      rw (forward_queries_star patterns original target h) refl

  -- A name among the patterns still to come, or already there with the route's value.
  abbrev IsDue : String → List String → Header → Type 0
  IsDue name ps target = (contains ps name ≡ true) ⊎ (values name target ≡ url_param name ∷ [])

  forward_one-IsDue :
      (name p : String) (ps : List String) (target : Header)
      → str_eq (url_param name) "" ≡ false
      → IsDue name (p ∷ ps) target
      → IsDue name ps
          (if str_eq (url_param p) "" then target else set_header p (url_param p) target)
  forward_one-IsDue name p ps target given due = elim (Bool-cases (str_eq p name)) [
    | inl here ↦
        let same = (str_eq_iff p name).0 here in
        subst
          (λ q.
            IsDue name ps
              (if str_eq (url_param q) "" then target else set_header q (url_param q) target))
          (sym same) (rw given (inr (values-set_same name (url_param name) target)))
    | inr apart ↦ let other = values-set_other p name (url_param p) target apart in ground arith
  ]

  forward_params-IsDue :
      (name : String) (ps : List String) (params : List (String × String)) (target : Header)
      → contains ps "*" ≡ false
      → str_eq (url_param name) "" ≡ false
      → IsDue name ps target
      → values name (forward_params ps params target) ≡ url_param name ∷ []
  unfolding forward_params
  forward_params-IsDue name [] params target plain given (inl h) = cc
  forward_params-IsDue name [] params target plain given (inr h) = h
  forward_params-IsDue name (p ∷ ps) params target plain given due =
      let not_star : str_eq p "*" ≡ false = ground arith in
      rw not_star (
        forward_params-IsDue name ps params _ (ground arith) given
          (forward_one-IsDue name p ps target given due))

  -- Without "*", a parameter of the route that is to be forwarded is in the query with the route's value
  -- alone, if it is not empty, whatever the client or the target has under its name.
  resolve_queries_param :
      (name : String) (patterns param_patterns : List String) (params : List (String × String))
      (original target : Header)
      → contains patterns "*" ≡ false
      → contains param_patterns "*" ≡ false
      → contains param_patterns name ≡ true
      → str_eq (url_param name) "" ≡ false
      → values name (resolve_queries patterns param_patterns params original target)
        ≡ url_param name ∷ []
  unfolding resolve_queries after_queries
  resolve_queries_param name patterns param_patterns params original target plain no_star listed
        given =
      let (query, goes_on) = forward_queries_goes_on patterns original target plain in
      rw goes_on (forward_params-IsDue name param_patterns params query no_star given (inl listed))
