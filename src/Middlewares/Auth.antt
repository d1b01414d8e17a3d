-- ===== src/Middlewares/Auth.antt =====
-- builtin/middlewares/auth/auth.go: a request passes with a bearer token that is valid. The keys are in
-- Auth/Keys (hmac.go, rsa.go, jwks.go), the configuration in Auth/Setup.
pub mod Keys
pub mod Setup
pub mod Judged
pub mod Bearer
pub mod Access
use Prim.Native.Char.{code}
use Prim.Native.String.{[] as empty_text, ◌∷◌ as char_then, ◌++◌ as text_append}
use aastro.Prelude.{
  ℕ, ◌==◌, ◌+◌, leb, Bool, true, false, not, ◌&&◌, ◌||◌, List, [], ◌∷◌, Option, none, some, String,
  if◌then◌else◌, str_eq, contains,
}
use aastro.Header.{get, set_header}
use aastro.Response.{ProblemEncoder}
use aastro.UpstreamError.{unauthorized}
use aastro.Middlewares.{Claims, HttpRequest, Handler, Writer, Ran, write_error_to, done}
use aastro.Middlewares.Auth.Keys.{Token, Key, KeyResolver, Jwks, key_func}

-- What `ParseWithClaims` (github.com/golang-jwt/jwt) does around its call of `KeyFunc`: `unverified` is the
-- token that it hands over, for the valid methods that it is given, and none if it fails before; and
-- `verified` is what it comes to with a key, none for an error, else the token's `Valid` (the signature
-- and the times, with the leeway).
pub record Jwt : Type 0 where
  pub unverified : String → String → Option Token
  pub verified : Key → Token → Option Bool

-- `strconv.Quote` and `strings.TrimSpace`.
pub record Quoting : Type 0 where
  pub quote : String → String
  pub trim_space : String → String

pub record Auth : Type 0 where
  pub issuer : String
  pub audience : String
  pub realm : String
  pub alg : String
  pub resolver : KeyResolver

pub record AuthChallenge : Type 0 where
  pub error_code : String
  pub error_description : String

abbrev pub default_realm : String
default_realm = "restricted"

abbrev no_challenge : AuthChallenge
no_challenge = record { error_code = ""; error_description = "" }

abbrev invalid_header : AuthChallenge
invalid_header = record {
  error_code = "invalid_request";
  error_description = "invalid authorization header";
}

abbrev pub invalid_token : AuthChallenge
invalid_token = record {
  error_code = "invalid_token";
  error_description = "invalid or expired token";
}

abbrev pub invalid_claims : AuthChallenge
invalid_claims = record { error_code = "invalid_token"; error_description = "invalid token claims" }

-- `strings.SplitN(s, " ", 2)` where it gives two parts.
unfoldable pub split_space : String → Option (String × String)
split_space empty_text = none
split_space (char_then c s) =
    let further : Option (String × String) = elim (split_space s) [
      | none ↦ none
      | some (a, b) ↦ some (char_then c a, b)
    ] in
    if code c == 32 then some ("", s) else further

abbrev to_lower : ℕ → ℕ
to_lower c = if leb 65 c && leb c 90 then c + 32 else c

-- `strings.EqualFold`, where one text is ASCII with neither k nor s, as "Bearer" is.
unfoldable pub equal_fold : String → String → Bool
equal_fold empty_text empty_text = true
equal_fold empty_text (char_then d t) = false
equal_fold (char_then c s) empty_text = false
equal_fold (char_then c s) (char_then d t) =
    to_lower (code c) == to_lower (code d) && equal_fold s t

-- `validateClaims`.
abbrev is_issuer : String → Option String → Bool
is_issuer expected none = false
is_issuer expected (some issuer) = str_eq issuer expected

abbrev has_audience : String → Option (List String) → Bool
has_audience expected none = false
has_audience expected (some audience) = contains audience expected

pub validate_claims : Auth → Claims → Bool
validate_claims m claims =
    is_issuer m.issuer claims.issuer && has_audience m.audience claims.audience

-- What the handler decides of a request.
pub data Verdict : Type 0 where
  challenged : AuthChallenge → Verdict
  passed : Claims → Verdict

pub judge_claims : Auth → Option Claims → Verdict
judge_claims m none = challenged invalid_claims
judge_claims m (some claims) =
    if validate_claims m claims then passed claims else challenged invalid_claims

abbrev is_valid : Option Bool → Bool
is_valid none = false
is_valid (some valid) = valid

module _ (jwt : Jwt) where
  judge_key : Auth → Token → Option Key → Verdict
  judge_key m token none = challenged invalid_token
  judge_key m token (some key) =
      if is_valid (jwt.verified key token)
      then judge_claims m token.claims
      else challenged invalid_token

  -- `fetched` is what a fetch of the JWKS gives while the request is handled.
  judge_token : Auth → Option Jwks → Option Token → KeyResolver × Verdict
  judge_token m fetched none = (m.resolver, challenged invalid_token)
  judge_token m fetched (some token) =
      let (resolver, key) = key_func fetched m.resolver token in (resolver, judge_key m token key)

  judge_parts : Auth → Option Jwks → Option (String × String) → KeyResolver × Verdict
  judge_parts m fetched none = (m.resolver, challenged invalid_header)
  judge_parts m fetched (some (scheme, text)) =
      let token = judge_token m fetched (jwt.unverified m.alg text) in
      if equal_fold scheme "Bearer" then token else (m.resolver, challenged invalid_header)

  -- The handler up to its answer, with the keys that it leaves.
  pub judge : Auth → Option Jwks → String → KeyResolver × Verdict
  judge m fetched auth_header =
      if str_eq auth_header ""
      then (m.resolver, challenged no_challenge)
      else judge_parts m fetched (split_space auth_header)

module _ (quoting : Quoting) where
  open quoting use {quote, trim_space}

  -- `buildWWWAuthenticateHeader`.
  pub build_www_authenticate_header : String → AuthChallenge → String
  build_www_authenticate_header realm c =
      let trimmed = trim_space realm in
      let realm' = if str_eq trimmed "" then default_realm else trimmed in
      let header = text_append "Bearer" (text_append " realm=" (quote realm')) in
      let with_error = text_append header (text_append ", error=" (quote c.error_code)) in
      if str_eq c.error_code ""
      then header
      else if str_eq c.error_description ""
      then with_error
      else text_append with_error (text_append ", error_description=" (quote c.error_description))

  module _ (encoder : ProblemEncoder) where
    -- `unauthorized`.
    pub unauthorized_reply : Auth → AuthChallenge → Writer → Writer
    unauthorized_reply m c w = write_error_to encoder unauthorized 401 (record w {
      headers = set_header "WWW-Authenticate" (build_www_authenticate_header m.realm c) w.headers;
    })

    pub answer : Auth → Handler → HttpRequest → Writer → Verdict → Ran
    answer m next r w (challenged c) = done (unauthorized_reply m c w)
    answer m next r w (passed claims) = next (record r { claims = some claims }) w

    -- The handler, with the middleware as it leaves it.
    pub handler : Jwt → Option Jwks → Auth → Handler → HttpRequest → Writer → Auth × Ran
    handler jwt fetched m next r w =
        let (resolver, verdict) = judge jwt m fetched (get "Authorization" r.headers) in
        (record m { resolver = resolver }, answer m next r w verdict)
