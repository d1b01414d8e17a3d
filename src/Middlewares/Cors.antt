-- ===== src/Middlewares/Cors.antt =====
-- builtin/middlewares/cors/cors.go: cross-origin requests.
pub mod Headers
pub mod Access
use Prim.Native.Char.{code}
use Prim.Native.String.{[] as empty_text, ◌∷◌ as char_then, ◌++◌ as text_append, slice}
use aastro.Prelude.{
  ℕ, suc, ◌-◌, ◌+◌, leb, Bool, true, false, not, ◌&&◌, ◌||◌, List, [], ◌∷◌, ◌++◌, Option, none,
  some, String, if◌then◌else◌, lookup, contains, str_eq, is_empty,
}
use aastro.Header.{Header, get, set_header}
use aastro.Upstream.{ℤ, pos, negsuc}
use aastro.Router.Handler.{itoa}
use aastro.Prelude.Text.{to_upper}
use aastro.Middlewares.{
  Scalar, string_scalar, other_scalar, Value, int_value, array_value, bool_or, Settings,
  HttpRequest, Handler, write_header, done,
}

pub record Cors : Type 0 where
  pub allowed_origins : List String
  pub allowed_methods : List String
  pub allowed_headers : List String
  pub allow_credentials : Bool
  pub max_age : ℤ
  pub allow_all : Bool

-- `strings.Join(_, ", ")`.
pub join_comma : List String → String
join_comma [] = ""
join_comma (s ∷ []) = s
join_comma (s ∷ ss) = text_append s (text_append ", " (join_comma ss))

-- `NewMiddleware`.
abbrev pub new : Cors
new = record {
  allowed_origins = [];
  allowed_methods = [];
  allowed_headers = [];
  allow_credentials = false;
  max_age = pos 0;
  allow_all = false;
}

-- `resolveAllowedOrigins`.
unfoldable pub resolve_allowed_origins : List Scalar → Cors → Cors
resolve_allowed_origins [] m = m
resolve_allowed_origins (other_scalar ∷ origins) m = resolve_allowed_origins origins m
resolve_allowed_origins (string_scalar s ∷ origins) m =
    resolve_allowed_origins origins (record m {
      allow_all = str_eq s "*" || m.allow_all;
      allowed_origins = s ∷ m.allowed_origins;
    })

-- The strings of an array, as `f` makes them.
unfoldable pub strings_of : (String → String) → List Scalar → List String
strings_of f [] = []
strings_of f (string_scalar s ∷ vs) = f s ∷ strings_of f vs
strings_of f (other_scalar ∷ vs) = strings_of f vs

-- `config[key].([]interface{})`, nil if it is none.
abbrev pub as_array : Option Value → List Scalar
as_array (some (array_value vs)) = vs
as_array _ = []

abbrev pub int_or : ℤ → Option Value → ℤ
int_or old (some (int_value n)) = n
int_or old _ = old

-- `Init` but for the last test.
unfoldable pub configure : Settings → Cors
configure config =
    record (resolve_allowed_origins (as_array (lookup "allowed_origins" config)) new) {
      allowed_methods = strings_of to_upper (as_array (lookup "allowed_methods" config));
      allowed_headers = strings_of (λ s. s) (as_array (lookup "allowed_headers" config));
      allow_credentials = bool_or false (lookup "allow_credentials" config);
      max_age = int_or (pos 0) (lookup "max_age" config);
    }

-- `Init`; none is an error.
unfoldable pub init : Settings → Option Cors
init config =
    let m = configure config in if m.allow_all && m.allow_credentials then none else some m

pub is_origin_allowed : Cors → String → Bool
is_origin_allowed m origin = if m.allow_all then true else contains m.allowed_origins origin

abbrev set_if : Bool → String → String → Header → Header
set_if b k v h = if b then set_header k v h else h

abbrev pub set_max_age : ℤ → Header → Header
set_max_age (negsuc n) h = h
set_max_age (pos n) h = set_if (leb 1 n) "Access-Control-Max-Age" (itoa n) h

-- The first step of `setHeaders`.
pub set_origin : Cors → String → Header → Header
set_origin m origin h =
    if m.allow_all
    then set_header "Access-Control-Allow-Origin" "*" h
    else set_header "Vary" "Origin" (set_header "Access-Control-Allow-Origin" origin h)

pub set_headers : Cors → String → Header → Header
set_headers m origin h =
    let with_methods =
      set_if (not (is_empty m.allowed_methods)) "Access-Control-Allow-Methods"
        (join_comma m.allowed_methods) (set_origin m origin h) in
    let with_headers =
      set_if (not (is_empty m.allowed_headers)) "Access-Control-Allow-Headers"
        (join_comma m.allowed_headers) with_methods in
    set_max_age m.max_age
      (set_if m.allow_credentials "Access-Control-Allow-Credentials" "true" with_headers)

unfoldable pub is_preflight : HttpRequest → Bool
is_preflight r =
    str_eq r.method "OPTIONS"
    && (not (str_eq (get "Origin" r.headers) "")
        && not (str_eq (get "Access-Control-Request-Method" r.headers) ""))

pub handler : Cors → Handler → Handler
handler m next r w =
    let origin = get "Origin" r.headers in
    let allowed = record w { headers = set_headers m origin w.headers } in
    if str_eq origin ""
    then next r w
    else if not (is_origin_allowed m origin)
    then done (write_header 403 w)
    else if is_preflight r
    then done (write_header 204 allowed)
    else next r allowed
