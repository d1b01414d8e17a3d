-- ===== src/Middlewares/Cors/Access.antt =====
-- Which origins get access (builtin/middlewares/cors/cors.go).
use aastro.Prelude.{
  Bool, true, false, not, ◌&&◌, ◌||◌, List, [], ◌∷◌, none, some, String, ◌≡◌, ◌⊎◌, refl, sym, subst,
  ◌∙◌, ap, arith, if◌then◌else◌, lookup, contains, str_eq, Bool-cases, inl, inr,
}
use aastro.Header.{Header, get}
use aastro.Prelude.Text.{to_upper}
use aastro.Upstream.{ℤ, pos}
use aastro.Middlewares.{
  bool_or, Scalar, string_scalar, other_scalar, Settings, HttpRequest, Handler, Ran, Writer,
  write_header, done,
}
use aastro.Middlewares.Cors.{
  Cors, configure, init, is_origin_allowed, set_headers, new, is_preflight, strings_of,
  resolve_allowed_origins, handler, as_array, int_or, join_comma,
}
use aastro.Middlewares.Cors.Headers.{
  allow_origin, credentials, allow_methods, allow_headers, told_age, age_text,
  allow_origin-set_headers, credentials-set_headers, allow_methods-set_headers,
  allow_headers-set_headers, told_age-set_headers,
}

-- What the configuration lists.
unfoldable pub origins_in : Settings → List String
origins_in config = strings_of (λ s. s) (as_array (lookup "allowed_origins" config))

abbrev pub methods_in : Settings → List String
methods_in config = strings_of to_upper (as_array (lookup "allowed_methods" config))

abbrev pub headers_in : Settings → List String
headers_in config = strings_of (λ s. s) (as_array (lookup "allowed_headers" config))

abbrev pub wants_credentials : Settings → Bool
wants_credentials config = bool_or false (lookup "allow_credentials" config)

abbrev pub age_in : Settings → ℤ
age_in config = int_or (pos 0) (lookup "max_age" config)

resolve-allow_all :
    (os : List Scalar) (m : Cors)
    → (resolve_allowed_origins os m).allow_all
      ≡ (contains (strings_of (λ s. s) os) "*" || m.allow_all)
unfolding resolve_allowed_origins strings_of
resolve-allow_all [] m = refl
resolve-allow_all (other_scalar ∷ os) m = resolve-allow_all os m
resolve-allow_all (string_scalar s ∷ os) m = simp (resolve-allow_all os) (ground arith)

resolve-contains :
    (os : List Scalar) (m : Cors) (k : String)
    → contains (resolve_allowed_origins os m).allowed_origins k
      ≡ (contains (strings_of (λ s. s) os) k || contains m.allowed_origins k)
unfolding resolve_allowed_origins strings_of
resolve-contains [] m k = refl
resolve-contains (other_scalar ∷ os) m k = resolve-contains os m k
resolve-contains (string_scalar s ∷ os) m k = simp (resolve-contains os) (ground arith)

or_false : (b : Bool) → (b || false) ≡ b
or_false true = refl
or_false false = refl

taken : (b : Bool) (c m : Cors) → (if b then none else some c) ≡ some m → (c ≡ m) × (b ≡ false)
taken true c m h = cc
taken false c m h = (cc, refl)

-- What `Init` makes of a configuration that it takes.
record IsConfigured (config : Settings) (m : Cors) : Type 0 where
  is_open : m.allow_all ≡ contains (origins_in config) "*"
  lists : (k : String) → contains m.allowed_origins k ≡ contains (origins_in config) k
  is_safe : (m.allow_all && m.allow_credentials) ≡ false
  same_methods : m.allowed_methods ≡ methods_in config
  same_headers : m.allowed_headers ≡ headers_in config
  same_credentials : m.allow_credentials ≡ wants_credentials config
  same_age : m.max_age ≡ age_in config

configure-IsConfigured :
    (config : Settings)
    → ((configure config).allow_all && (configure config).allow_credentials) ≡ false
    → IsConfigured config (configure config)
unfolding configure origins_in
configure-IsConfigured config h =
    let os = as_array (lookup "allowed_origins" config) in
    record {
      is_open = resolve-allow_all os new ∙ or_false (contains (strings_of (λ s. s) os) "*");
      lists = λ k. resolve-contains os new k ∙ or_false (contains (strings_of (λ s. s) os) k);
      is_safe = h;
      same_methods = refl;
      same_headers = refl;
      same_credentials = refl;
      same_age = refl;
    }

init-IsConfigured : (config : Settings) (m : Cors) → init config ≡ some m → IsConfigured config m
unfolding init
init-IsConfigured config m h =
    let c = configure config in
    let (same, safe) = taken (c.allow_all && c.allow_credentials) c m h in
    subst (λ (n : Cors). IsConfigured config n) same (configure-IsConfigured config safe)

-- The handler that changes nothing: what it leaves is what it was given.
pub idle : Handler
idle r w = done w

abbrev pub is_listed : List String → String → Bool
is_listed origins origin = contains origins "*" || contains origins origin

-- Response headers with no header of cross-origin access.
pub record IsSilent (h : Header) : Type 0 where
  pub no_origin : allow_origin h ≡ ""
  pub no_methods : allow_methods h ≡ ""
  pub no_headers : allow_headers h ≡ ""
  pub no_credentials : credentials h ≡ ""
  pub no_age : told_age h ≡ ""

-- Response headers that give access just as the configuration lists it: to every origin where it
-- lists "*", and then without credentials, else to the origin that asks, which it lists; and with the
-- methods, the headers, the credentials and the age that it has.
pub record IsTold (config : Settings) (origin : String) (h : Header) : Type 0 where
  pub is_origin :
      ((allow_origin h ≡ "*") × ((contains (origins_in config) "*" ≡ true) × (credentials h ≡ "")))
      ⊎ ((allow_origin h ≡ origin) × (contains (origins_in config) origin ≡ true))
  pub has_methods : allow_methods h ≡ join_comma (methods_in config)
  pub has_headers : allow_headers h ≡ join_comma (headers_in config)
  pub has_credentials : credentials h ≡ (if wants_credentials config then "true" else "")
  pub has_age : told_age h ≡ age_text (age_in config)

-- Access for an origin that is named and listed, and no header of access for any other.
abbrev pub IsGranted : Settings → String → Header → Type 0
IsGranted config origin h =
    ((str_eq origin "" || not (is_listed (origins_in config) origin)) ≡ true × IsSilent h)
    ⊎ ((str_eq origin "" || not (is_listed (origins_in config) origin)) ≡ false
        × IsTold config origin h)

IsTold-if :
    (config : Settings) (origin : String) (b : Bool) (x y : Ran)
    → IsTold config origin x.writer.headers
    → IsTold config origin y.writer.headers
    → IsTold config origin (if b then x else y).writer.headers
IsTold-if config origin true x y hx hy = hx
IsTold-if config origin false x y hx hy = hy

module _ (config : Settings) (m : Cors) where
  allowed-listed :
      (origin : String)
      → IsConfigured config m
      → is_origin_allowed m origin ≡ is_listed (origins_in config) origin
  unfolding is_origin_allowed
  allowed-listed origin c = rw (c.is_open, c.lists origin) (ground arith)

  set_headers-IsTold :
      (origin : String) (h : Header)
      → IsConfigured config m
      → IsSilent h
      → is_origin_allowed m origin ≡ true
      → IsTold config origin (set_headers m origin h)
  unfolding is_origin_allowed
  set_headers-IsTold origin h c silent allowed = record {
    is_origin = elim (Bool-cases m.allow_all) [
      | inl e ↦
          let no_credentials : m.allow_credentials ≡ false = ground (arith, c.is_safe, e) in
          inl (
            allow_origin-set_headers m origin h ∙ rw e refl,
            (
              sym c.is_open ∙ e,
              credentials-set_headers m origin h ∙ rw no_credentials silent.no_credentials,
            ),
          )
      | inr e ↦ inr (
        allow_origin-set_headers m origin h ∙ rw e refl,
        sym (c.lists origin) ∙ ground (arith, allowed, e),
      )
    ];
    has_methods =
        allow_methods-set_headers m origin h silent.no_methods ∙ ap join_comma c.same_methods;
    has_headers =
        allow_headers-set_headers m origin h silent.no_headers ∙ ap join_comma c.same_headers;
    has_credentials =
        credentials-set_headers m origin h
        ∙ rw (silent.no_credentials)
            (ap (λ (b : Bool). if b then "true" else "") c.same_credentials);
    has_age = told_age-set_headers m origin h silent.no_age ∙ ap age_text c.same_age;
  }

  -- After `Init` of a configuration, with no header of cross-origin access from elsewhere, and from a handler
  -- that changes none: a request whose origin the configuration lists, or any that names an origin where it
  -- lists "*", gets the access that the configuration gives and no more. Allow-Origin is "*" if that is listed, and
  -- then there are no credentials; else it is the request's origin. Allow-Methods, Allow-Headers,
  -- Allow-Credentials and Max-Age are those of the configuration. Any other request gets none of these.
  pub handler-IsGranted :
      (r : HttpRequest) (w : Writer)
      → init config ≡ some m
      → IsSilent w.headers
      → IsGranted config (get "Origin" r.headers) (handler m idle r w).writer.headers
  unfolding handler idle write_header
  handler-IsGranted r w ok silent =
      let origin = get "Origin" r.headers in
      let allowed = record w { headers = set_headers m origin w.headers } in
      let c = init-IsConfigured config m ok in
      let same = allowed-listed origin c in
      elim (Bool-cases (str_eq origin "")) [
        | inl unnamed ↦ rw unnamed (inl (refl, silent))
        | inr named ↦ elim (Bool-cases (is_listed (origins_in config) origin)) [
          | inl e ↦
              let told = set_headers-IsTold origin w.headers c silent (same ∙ e) in
              rw (named, same ∙ e, e)
                (inr (
                  refl,
                  IsTold-if config origin (is_preflight r) (done (write_header 204 allowed))
                      (done allowed) told told,
                ))
          | inr e ↦ rw (named, same ∙ e, e) (inl (refl, silent))
        ]
      ]

  -- After `Init` of a configuration, a request that names an origin and is a preflight, or whose
  -- origin the configuration does not list, where it does not list "*": it is answered whatever the handler
  -- behind is, which does not get the request. The answer is 204 with the headers of `setHeaders` for
  -- a preflight from a listed origin, and 403 with no header of theirs for every other origin.
  pub handler_answers :
      (next : Handler) (r : HttpRequest) (w : Writer)
      → init config ≡ some m
      → str_eq (get "Origin" r.headers) "" ≡ false
      → (is_listed (origins_in config) (get "Origin" r.headers) && not (is_preflight r)) ≡ false
      → handler m next r w
        ≡ done (
            if is_listed (origins_in config) (get "Origin" r.headers)
            then write_header 204
                (record w { headers = set_headers m (get "Origin" r.headers) w.headers })
            else write_header 403 w)
  unfolding handler
  handler_answers next r w ok named stops =
      let origin = get "Origin" r.headers in
      let same = allowed-listed origin (init-IsConfigured config m ok) in
      elim (Bool-cases (is_listed (origins_in config) origin)) [
        | inl e ↦
            let pre : is_preflight r ≡ true = ground (arith, stops, e) in
            rw named (rw (same ∙ e) (rw pre (rw e refl)))
        | inr e ↦ rw named (rw (same ∙ e) (rw e refl))
      ]
