-- ===== src/Middlewares/Auth/Keys/Given.antt =====
-- When `KeyFunc` gives a key (builtin/middlewares/auth/hmac.go, rsa.go, jwks.go).
use aastro.Prelude.{
  ℕ, true, false, List, [], ◌∷◌, ◌++◌, Option, none, some, String, str_eq, str_eq_refl, lookup,
  lookup-insert, is_empty, if◌then◌else◌, Bool, Bool-cases, inl, inr, ◌≡◌, refl, ap, ◌∙◌, All,
}
use aastro.Middlewares.Auth.Keys.{
  hmac_method, rs256, Token, Key, hmac_key, rsa_key, RsaPublicKey, Jwk, Jwks, JwksResolver,
  KeyResolver, hmac_resolver, rsa_resolver, jwks_resolver, add_key, collect_keys, refresh,
  after_refresh, known_or_refresh, with_kid, hmac_key_func, rsa_key_func, jwks_key_func, key_func,
  is_rsa,
}

-- Whether a key of a set has this id.
abbrev pub is_named : String → Option String → Bool
is_named kid none = false
is_named kid (some j) = str_eq j kid

-- The key that a token is to be verified with, by the configuration and the key sets: the secret, for an HMAC
-- method; the public key, for an RSA method; and with a JWKS, for RS256 and a key id, the key that is
-- known by the id, or if there is none, the last with the id in the set that a fetch gives.
pub data IsGiven (fetched : Option Jwks) (token : Token) : KeyResolver → Key → Type 0 where
  by_secret :
      {secret : List ℕ}
      → token.method ≡ hmac_method
      → is_empty secret ≡ false
      → IsGiven fetched token (hmac_resolver secret) (hmac_key secret)
  by_public_key :
      {key : RsaPublicKey}
      → is_rsa token.method ≡ true
      → IsGiven fetched token (rsa_resolver (some key)) (rsa_key key)
  by_known :
      {r : JwksResolver} {kid : String} {key : RsaPublicKey}
      → token.method ≡ rs256
      → token.kid ≡ some kid
      → str_eq r.url "" ≡ false
      → lookup kid r.keys ≡ some key
      → IsGiven fetched token (jwks_resolver r) (rsa_key key)
  by_fetched :
      {r : JwksResolver} {kid : String} {key : RsaPublicKey} (before after : Jwks)
      → token.method ≡ rs256
      → token.kid ≡ some kid
      → str_eq r.url "" ≡ false
      → lookup kid r.keys ≡ none
      → str_eq kid "" ≡ false
      → fetched ≡ some (before ++ record { key_id = some kid; exported = some key } ∷ after)
      → All (λ (k : Jwk). is_named kid k.key_id ≡ false) after
      → IsGiven fetched token (jwks_resolver r) (rsa_key key)

module _ (kid : String) where
  lookup-add_key :
      (o : Option String) (e : Option RsaPublicKey) (keys : List (String × RsaPublicKey))
      → is_named kid o ≡ false
      → lookup kid (add_key o e keys) ≡ lookup kid keys
  unfolding add_key
  lookup-add_key none e keys n = refl
  lookup-add_key (some j) none keys n = refl
  lookup-add_key (some j) (some key) keys n = elim (Bool-cases (str_eq j "")) [
    | inl empty ↦ rw empty refl
    | inr full ↦ rw full (lookup-insert j kid key keys ∙ rw n refl)
  ]

  lookup-collect_keys :
      (set : Jwks) (keys : List (String × RsaPublicKey))
      → All (λ (k : Jwk). is_named kid k.key_id ≡ false) set
      → lookup kid (collect_keys set keys) ≡ lookup kid keys
  unfolding collect_keys
  lookup-collect_keys [] keys h = refl
  lookup-collect_keys (k ∷ set) keys (h, hs) =
      lookup-collect_keys set (add_key k.key_id k.exported keys) hs
      ∙ lookup-add_key k.key_id k.exported keys h

  lookup-add_key_own :
      (key : RsaPublicKey) (keys : List (String × RsaPublicKey))
      → str_eq kid "" ≡ false
      → lookup kid (add_key (some kid) (some key) keys) ≡ some key
  unfolding add_key
  lookup-add_key_own key keys full = rw full (
      lookup-insert kid kid key keys
      ∙ ap (λ (b : Bool). if b then some key else lookup kid keys) (str_eq_refl kid))

  -- The last key with an id is the one that is kept by it.
  lookup-collect_last :
      (before after : Jwks) (key : RsaPublicKey) (keys : List (String × RsaPublicKey))
      → str_eq kid "" ≡ false
      → All (λ (k : Jwk). is_named kid k.key_id ≡ false) after
      → lookup kid
          (collect_keys (before ++ record { key_id = some kid; exported = some key } ∷ after) keys)
        ≡ some key
  unfolding collect_keys
  lookup-collect_last [] after key keys full h =
      lookup-collect_keys after (add_key (some kid) (some key) keys) h
      ∙ lookup-add_key_own key keys full
  lookup-collect_last (k ∷ before) after key keys full h =
      lookup-collect_last before after key (add_key k.key_id k.exported keys) full h

-- `KeyFunc` gives the key that the token is to be verified with.
pub key_func-IsGiven :
    (fetched : Option Jwks) (r : KeyResolver) (token : Token) (key : Key)
    → IsGiven fetched token r key
    → (key_func fetched r token).1 ≡ some key
unfolding key_func hmac_key_func rsa_key_func jwks_key_func with_kid known_or_refresh after_refresh
    refresh
key_func-IsGiven fetched _ token _ (by_secret m full) = rw (m, full) refl
key_func-IsGiven fetched _ token _ (by_public_key m) = rw m refl
key_func-IsGiven fetched _ token _ (by_known m k url known) = rw (m, k, url, known) refl
key_func-IsGiven fetched _ token _
      (by_fetched {r} {kid} {key} before after m k url unknown full e h) =
    let found = lookup-collect_last kid before after key [] full h in
    rw (m, k, url, unknown, e, found) refl
