-- ===== src/Middlewares/Auth/Access.antt =====
-- Which requests pass (builtin/middlewares/auth/auth.go).
use Prim.Native.String.{[] as empty_text, ◌∷◌ as char_then, ◌++◌ as text_append}
use aastro.Router.ClientIp.Chain.{non_empty}
use aastro.Prelude.{
  Bool, true, false, List, contains, Option, none, some, String, str_eq, str_eq_refl, ◌≡◌, ◌⊎◌,
  refl, ap, ◌∙◌, inl, inr,
}
use aastro.Header.{Header, get, first}
use aastro.Router.Outcome.{values-set_same, values-set_other}
use aastro.Response.{ProblemEncoder, write_error}
use aastro.Middlewares.{Claims, HttpRequest, Handler, Writer, Ran, Settings, write_error_to, done}
use aastro.Middlewares.Auth.Bearer.{split_space-bearer}
use aastro.Middlewares.Auth.Keys.{Jwks, Token, Key}
use aastro.Middlewares.Auth.Keys.Given.{IsGiven, key_func-IsGiven}
use aastro.Middlewares.Auth.Setup.{Decoding, init}
use aastro.Middlewares.Auth.Setup.Usable.{init-IsResolverFor}
use aastro.Middlewares.Auth.{
  Auth, AuthChallenge, Jwt, Quoting, Verdict, challenged, passed, split_space, equal_fold,
  validate_claims, judge, judge_parts, judge_token, judge_key, judge_claims, answer, handler,
  build_www_authenticate_header, unauthorized_reply,
}
use aastro.Middlewares.Auth.Judged.{IsAuthorized, WhenPassed, judge-IsAuthorized}

-- An answer 401 with a challenge.
pub record IsRefused (quoting : Quoting) (m : Auth) (ran : Ran) : Type 0 where
  pub challenge : AuthChallenge
  pub headers : Header
  pub is_sent : ran.writer.sent ≡ some (401, headers)
  pub has_challenge :
      get "WWW-Authenticate" headers ≡ build_www_authenticate_header quoting m.realm challenge
  pub is_quiet : ran.panicked ≡ false

module _ (quoting : Quoting) (encoder : ProblemEncoder) (m : Auth) where
  unauthorized_reply-IsRefused :
      (c : AuthChallenge) (w : Writer)
      → w.sent ≡ none
      → IsRefused quoting m (done (unauthorized_reply quoting encoder m c w))
  unfolding unauthorized_reply write_error_to write_error
  unauthorized_reply-IsRefused c w unsent = record {
    challenge = c;
    headers = _;
    is_sent = rw unsent refl;
    has_challenge = ap first (
        values-set_other "Content-Type" "WWW-Authenticate" "application/problem+json" _ refl
        ∙ values-set_same "WWW-Authenticate" (build_www_authenticate_header quoting m.realm c)
            w.headers);
    is_quiet = refl;
  }

  answer-cases :
      (P : Claims → Type 0) (next : Handler) (r : HttpRequest) (w : Writer) (v : Verdict)
      → w.sent ≡ none
      → WhenPassed P v
      → ((claims : Claims) × (P claims
            × (answer quoting encoder m next r w v ≡ next (record r { claims = some claims }) w)))
        ⊎ IsRefused quoting m (answer quoting encoder m next r w v)
  unfolding answer
  answer-cases P next r w (challenged c) unsent h = inr (unauthorized_reply-IsRefused c w unsent)
  answer-cases P next r w (passed claims) unsent h = inl (claims, (h, refl))

-- After `Init`, a request reaches the handler behind only with claims that authorize it: a bearer token for the
-- algorithm, verified with a key that fits the algorithm and the token's method, with the issuer and
-- the audience that are configured. Every other request is answered with 401 and a challenge.
pub handler-IsAuthorized :
    (quoting : Quoting) (encoder : ProblemEncoder) (jwt : Jwt) (decoding : Decoding)
    (config : Settings) (m : Auth) (first_fetch fetched : Option Jwks) (logger_fails : Bool)
    (next : Handler) (r : HttpRequest) (w : Writer)
    → init decoding first_fetch logger_fails config ≡ some m
    → w.sent ≡ none
    → ((claims : Claims) × (IsAuthorized jwt m fetched (get "Authorization" r.headers) claims
          × ((handler quoting encoder jwt fetched m next r w).1
              ≡ next (record r { claims = some claims }) w)))
      ⊎ IsRefused quoting m (handler quoting encoder jwt fetched m next r w).1
unfolding handler
handler-IsAuthorized quoting encoder jwt decoding config m first_fetch fetched logger_fails next r w
      ok unsent =
    answer-cases quoting encoder m (IsAuthorized jwt m fetched (get "Authorization" r.headers)) next
      r w _ unsent
      (judge-IsAuthorized jwt m fetched
        (init-IsResolverFor decoding first_fetch logger_fails config m ok)
        (get "Authorization" r.headers))

split_space_nonempty :
    (s scheme text : String) → split_space s ≡ some (scheme, text) → str_eq s "" ≡ false
unfolding split_space
split_space_nonempty empty_text scheme text h = cc
split_space_nonempty (char_then c s) scheme text h = non_empty c s

-- A token that is valid for the middleware, by the configuration, the key sets and the library for tokens: the key
-- that it is to be verified with verifies it, and its claims have the issuer and the audience
-- that are configured.
pub record IsValidToken (jwt : Jwt) (m : Auth) (fetched : Option Jwks) (text : String)
    (claims : Claims) : Type 0 where
  pub token : Token
  pub key : Key
  pub audience : List String
  pub is_token : jwt.unverified m.alg text ≡ some token
  pub is_given : IsGiven fetched token m.resolver key
  pub is_verified : jwt.verified key token ≡ some true
  pub has_claims : token.claims ≡ some claims
  pub is_issued : claims.issuer ≡ some m.issuer
  pub is_for : claims.audience ≡ some audience
  pub is_meant : contains audience m.audience ≡ true

-- A request with a valid token behind "Bearer", in whatever case, and a space does reach the handler behind, with
-- the token's claims: with a secret for an HMAC method, with a public key for an RSA method, and
-- with a JWKS for RS256 and the id of a key that is known, or that a fetch gives.
pub handler_passes :
    (quoting : Quoting) (encoder : ProblemEncoder) (jwt : Jwt) (m : Auth) (fetched : Option Jwks)
    (next : Handler) (r : HttpRequest) (w : Writer) (scheme text : String) (claims : Claims)
    → get "Authorization" r.headers ≡ text_append scheme (text_append " " text)
    → equal_fold scheme "Bearer" ≡ true
    → IsValidToken jwt m fetched text claims
    → (handler quoting encoder jwt fetched m next r w).1
      ≡ next (record r { claims = some claims }) w
unfolding handler judge judge_parts judge_token judge_key judge_claims validate_claims answer
handler_passes quoting encoder jwt m fetched next r w scheme text claims header bearer v =
    let split = split_space-bearer scheme text bearer in
    simp
      (
        header,
        split_space_nonempty (text_append scheme (text_append " " text)) scheme text split,
        split,
        bearer,
        v.is_token,
        key_func-IsGiven fetched m.resolver v.token v.key v.is_given,
        v.is_verified,
        v.has_claims,
        v.is_issued,
        v.is_for,
        v.is_meant,
        str_eq_refl,
      )
      refl
