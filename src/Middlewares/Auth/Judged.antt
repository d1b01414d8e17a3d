-- ===== src/Middlewares/Auth/Judged.antt =====
-- What a token has that is let through (builtin/middlewares/auth/auth.go).
use aastro.Prelude.{
  Bool, true, false, List, Option, none, some, String, if◌then◌else◌, str_eq, str_eq_iff, contains,
  ◌≡◌, refl, ap, inl, inr, arith, Bool-cases, Option-cases,
}
use aastro.Prelude.Fallible.{WhenSome-eq}
use aastro.Middlewares.{Claims}
use aastro.Middlewares.Auth.Keys.{Token, Key, Jwks, key_func}
use aastro.Middlewares.Auth.Keys.Families.{IsKeyFor, IsResolverFor, key_func-IsKeyFor}
use aastro.Middlewares.Auth.{
  Auth, Jwt, Verdict, challenged, passed, invalid_claims, invalid_token, split_space, equal_fold,
  validate_claims, judge, judge_parts, judge_token, judge_key, judge_claims, is_issuer,
  has_audience, is_valid,
}

-- A request with this Authorization header is let through with these claims.
pub record IsAuthorized (jwt : Jwt) (m : Auth) (fetched : Option Jwks) (auth_header : String)
    (claims : Claims) : Type 0 where
  pub scheme : String
  pub text : String
  pub token : Token
  pub key : Key
  pub audience : List String
  pub is_split : split_space auth_header ≡ some (scheme, text)
  pub is_bearer : equal_fold scheme "Bearer" ≡ true
  pub is_token : jwt.unverified m.alg text ≡ some token
  pub has_key : (key_func fetched m.resolver token).1 ≡ some key
  -- The key fits the algorithm and the token's method.
  pub key_fits : IsKeyFor m.alg token.method key
  pub is_verified : jwt.verified key token ≡ some true
  pub has_claims : token.claims ≡ some claims
  pub is_issued : claims.issuer ≡ some m.issuer
  pub is_for : claims.audience ≡ some audience
  pub is_meant : contains audience m.audience ≡ true

-- What holds of a verdict that lets a request through.
abbrev pub WhenPassed : (Claims → Type 0) → Verdict → Type 0
WhenPassed P (challenged c) = Unit
WhenPassed P (passed claims) = P claims

WhenPassed-if :
    (P : Claims → Type 0) (b : Bool) (x y : Verdict)
    → (b ≡ true → WhenPassed P x)
    → (b ≡ false → WhenPassed P y)
    → WhenPassed P (if b then x else y)
WhenPassed-if P true x y hx hy = hx refl
WhenPassed-if P false x y hx hy = hy refl

is_issuer-eq :
    (expected : String) (o : Option String) → is_issuer expected o ≡ true → o ≡ some expected
is_issuer-eq expected none h = cc
is_issuer-eq expected (some issuer) h = ap some ((str_eq_iff issuer expected).0 h)

has_audience-eq :
    (expected : String) (o : Option (List String))
    → has_audience expected o ≡ true
    → (l : List String) × ((o ≡ some l) × (contains l expected ≡ true))
has_audience-eq expected none h = cc
has_audience-eq expected (some l) h = (l, (refl, h))

is_valid-eq : (o : Option Bool) → is_valid o ≡ true → o ≡ some true
is_valid-eq none h = cc
is_valid-eq (some true) h = refl
is_valid-eq (some false) h = cc

module _ (jwt : Jwt) (m : Auth) (fetched : Option Jwks)
    (usable : IsResolverFor m.alg m.resolver) where
  module _ (auth_header scheme text : String) (token : Token) (key : Key)
      (is_split : split_space auth_header ≡ some (scheme, text))
      (is_bearer : equal_fold scheme "Bearer" ≡ true)
      (is_token : jwt.unverified m.alg text ≡ some token)
      (has_key : (key_func fetched m.resolver token).1 ≡ some key)
      (is_verified : jwt.verified key token ≡ some true) where
    judge_claims-IsAuthorized :
        (o : Option Claims)
        → token.claims ≡ o
        → WhenPassed (IsAuthorized jwt m fetched auth_header) (judge_claims m o)
    unfolding judge_claims validate_claims
    judge_claims-IsAuthorized none h = tt
    judge_claims-IsAuthorized (some claims) h =
        WhenPassed-if (IsAuthorized jwt m fetched auth_header) (validate_claims m claims)
          (passed claims) (challenged invalid_claims)
          (λ e.
            let (l, (is_for, is_meant)) =
              has_audience-eq m.audience claims.audience (ground (arith, e)) in
            record {
              scheme = scheme;
              text = text;
              token = token;
              key = key;
              audience = l;
              is_split = is_split;
              is_bearer = is_bearer;
              is_token = is_token;
              has_key = has_key;
              key_fits =
                  WhenSome-eq (IsKeyFor m.alg token.method)
                    (key_func-IsKeyFor m.alg fetched m.resolver token usable) has_key;
              is_verified = is_verified;
              has_claims = h;
              is_issued = is_issuer-eq m.issuer claims.issuer (ground (arith, e));
              is_for = is_for;
              is_meant = is_meant;
            })
          (λ _. tt)

  judge_token-IsAuthorized :
      (auth_header scheme text : String) (o : Option Token)
      → split_space auth_header ≡ some (scheme, text)
      → equal_fold scheme "Bearer" ≡ true
      → jwt.unverified m.alg text ≡ o
      → WhenPassed (IsAuthorized jwt m fetched auth_header) (judge_token jwt m fetched o).1
  unfolding judge_token judge_key
  judge_token-IsAuthorized auth_header scheme text none split bearer asked = tt
  judge_token-IsAuthorized auth_header scheme text (some token) split bearer asked =
      elim (Option-cases (key_func fetched m.resolver token).1) [
        | inl no_key ↦ rw no_key tt
        | inr (key, has_key) ↦ rw has_key (
            WhenPassed-if (IsAuthorized jwt m fetched auth_header)
              (is_valid (jwt.verified key token)) (judge_claims m token.claims)
              (challenged invalid_token)
              (λ e.
                judge_claims-IsAuthorized auth_header scheme text token key split bearer asked
                  has_key (is_valid-eq (jwt.verified key token) e) token.claims refl)
              (λ _. tt))
      ]

  judge_parts-IsAuthorized :
      (auth_header : String) (o : Option (String × String))
      → split_space auth_header ≡ o
      → WhenPassed (IsAuthorized jwt m fetched auth_header) (judge_parts jwt m fetched o).1
  unfolding judge_parts
  judge_parts-IsAuthorized auth_header none split = tt
  judge_parts-IsAuthorized auth_header (some (scheme, text)) split =
      elim (Bool-cases (equal_fold scheme "Bearer")) [
        | inl e ↦ rw e (judge_token-IsAuthorized auth_header scheme text _ split e refl)
        | inr e ↦ rw e tt
      ]

  pub judge-IsAuthorized :
      (auth_header : String)
      → WhenPassed (IsAuthorized jwt m fetched auth_header) (judge jwt m fetched auth_header).1
  unfolding judge
  judge-IsAuthorized auth_header = elim (Bool-cases (str_eq auth_header "")) [
    | inl e ↦ rw e tt
    | inr e ↦ rw e (judge_parts-IsAuthorized auth_header (split_space auth_header) refl)
  ]
