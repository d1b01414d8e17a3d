-- ===== src/Middlewares/Auth/Keys/Families.antt =====
-- The keys that `KeyFunc` gives (builtin/middlewares/auth/hmac.go, rsa.go, jwks.go).
use aastro.Prelude.{
  ℕ, true, false, not, ◌&&◌, List, [], Option, none, some, String, str_eq, lookup, is_empty, ◌≡◌,
  refl, inl, inr, arith, Bool-cases, Option-cases,
}
use aastro.Prelude.Fallible.{WhenSome, WhenSome-if}
use aastro.Middlewares.Auth.Keys.{
  Method, hmac_method, rs256, other_rsa_method, other_method, Token, Key, hmac_key, rsa_key,
  RsaPublicKey, Jwks, JwksResolver, KeyResolver, hmac_resolver, rsa_resolver, jwks_resolver,
  refresh, hmac_key_func, rsa_key_func, jwks_key_func, key_func, is_rsa, is_rs256, is_hmac,
  with_kid, known_or_refresh, after_refresh, collect_keys, to_rsa_key,
}

-- The resolver of an algorithm: a secret that is not empty for HS256, and RSA keys for RS256.
pub data IsResolverFor (alg : String) : KeyResolver → Type 0 where
  by_secret :
      {secret : List ℕ}
      → alg ≡ "HS256"
      → is_empty secret ≡ false
      → IsResolverFor alg (hmac_resolver secret)
  by_public_key : {key : RsaPublicKey} → alg ≡ "RS256" → IsResolverFor alg (rsa_resolver (some key))
  by_jwks : {r : JwksResolver} → alg ≡ "RS256" → IsResolverFor alg (jwks_resolver r)

-- A key that fits an algorithm and the method of a token: a secret that is not empty for HS256 and an HMAC
-- method, or an RSA key for RS256 and an RSA method; so never a public key as a secret.
pub data IsKeyFor (alg : String) (method : Method) : Key → Type 0 where
  a_secret :
      {secret : List ℕ}
      → alg ≡ "HS256"
      → is_hmac method ≡ true
      → is_empty secret ≡ false
      → IsKeyFor alg method (hmac_key secret)
  a_public_key :
      {key : RsaPublicKey}
      → alg ≡ "RS256"
      → is_rsa method ≡ true
      → IsKeyFor alg method (rsa_key key)

is_rs256-rsa : (method : Method) → is_rs256 method ≡ true → is_rsa method ≡ true
is_rs256-rsa rs256 h = refl
is_rs256-rsa hmac_method h = cc
is_rs256-rsa other_rsa_method h = cc
is_rs256-rsa other_method h = cc

module _ (alg : String) (method : Method) where
  to_rsa_key-IsKeyFor :
      (key : Option RsaPublicKey)
      → alg ≡ "RS256"
      → is_rsa method ≡ true
      → WhenSome (IsKeyFor alg method) (to_rsa_key key)
  to_rsa_key-IsKeyFor none h e = tt
  to_rsa_key-IsKeyFor (some key) h e = a_public_key h e

  with_kid-IsKeyFor :
      (fetched : Option Jwks) (r : JwksResolver) (kid : Option String)
      → alg ≡ "RS256"
      → is_rsa method ≡ true
      → WhenSome (IsKeyFor alg method) (with_kid fetched r kid).1
  unfolding with_kid known_or_refresh after_refresh refresh
  with_kid-IsKeyFor fetched r none h e = tt
  with_kid-IsKeyFor fetched r (some kid) h e = elim (Bool-cases (str_eq r.url "")) [
    | inl empty ↦ rw empty tt
    | inr url ↦ elim (Option-cases (lookup kid r.keys)) [
      | inl unknown ↦ rw (url, unknown) (after fetched)
      | inr (key, known) ↦ rw (url, known) (a_public_key h e)
    ]
  ]
    where
      after :
          (got : Option Jwks)
          → WhenSome (IsKeyFor alg method) (after_refresh r kid (refresh got r)).1
      after none = tt
      after (some set) = to_rsa_key-IsKeyFor (lookup kid (collect_keys set [])) h e

-- A key that a resolver for an algorithm gives fits the algorithm and the token's method.
pub key_func-IsKeyFor :
    (alg : String) (fetched : Option Jwks) (r : KeyResolver) (token : Token)
    → IsResolverFor alg r
    → WhenSome (IsKeyFor alg token.method) (key_func fetched r token).1
unfolding key_func hmac_key_func rsa_key_func jwks_key_func
key_func-IsKeyFor alg fetched (hmac_resolver secret) token (by_secret h full) =
    WhenSome-if (IsKeyFor alg token.method) (is_hmac token.method && not (is_empty secret)) _ none
      (λ e. a_secret h (ground (arith, e)) full) (λ _. tt)
key_func-IsKeyFor alg fetched (rsa_resolver key) token (by_public_key h) =
    WhenSome-if (IsKeyFor alg token.method) (is_rsa token.method) _ none (λ e. a_public_key h e)
      (λ _. tt)
key_func-IsKeyFor alg fetched (jwks_resolver r) token (by_jwks h) =
    elim (Bool-cases (is_rs256 token.method)) [
      | inl e ↦
          rw e
            (with_kid-IsKeyFor alg token.method fetched r token.kid h (is_rs256-rsa token.method e))
      | inr e ↦ rw e tt
    ]

-- The resolver that is left is one for the same algorithm.
key_func-IsResolverFor :
    (alg : String) (fetched : Option Jwks) (r : KeyResolver) (token : Token)
    → IsResolverFor alg r
    → IsResolverFor alg (key_func fetched r token).0
unfolding key_func
key_func-IsResolverFor alg fetched (hmac_resolver secret) token h = h
key_func-IsResolverFor alg fetched (rsa_resolver key) token h = h
key_func-IsResolverFor alg fetched (jwks_resolver r) token (by_jwks h) = by_jwks h

module _ (fetched : Option Jwks) (r : JwksResolver) (token : Token) (kid : String) where
  -- For a token with RS256 and a key id: the key is the one that the keys which the resolver is left with have
  -- under the id, and none if they have none. A fetch that fails leaves the keys as they were.
  pub jwks_key_func_lem :
      token.method ≡ rs256
      → token.kid ≡ some kid
      → str_eq r.url "" ≡ false
      → ((jwks_key_func fetched r token).1
          ≡ to_rsa_key (lookup kid (jwks_key_func fetched r token).0.keys))
        × ((jwks_key_func none r token).0 ≡ r)
  unfolding jwks_key_func with_kid known_or_refresh after_refresh refresh
  jwks_key_func_lem is_rs has_kid has_url =
      rw (is_rs, has_kid, has_url)
        (elim (Option-cases (lookup kid r.keys)) [
          | inl unknown ↦ rw unknown (after fetched unknown, refl)
          | inr (key, known) ↦ rw known (rw known refl, refl)
        ])
    where
      after :
          (got : Option Jwks)
          → lookup kid r.keys ≡ none
          → (after_refresh r kid (refresh got r)).1
            ≡ to_rsa_key (lookup kid (after_refresh r kid (refresh got r)).0.keys)
      after none unknown = rw unknown refl
      after (some set) unknown = refl
