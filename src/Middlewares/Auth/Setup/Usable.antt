-- ===== src/Middlewares/Auth/Setup/Usable.antt =====
-- Which keys a token is verified with (builtin/middlewares/auth/auth.go, hmac.go, rsa.go, jwks.go).
use aastro.Prelude.{
  Bool, not, [], Option, none, some, String, str_eq, str_eq_iff, lookup, is_empty, ◌≡◌,
}
use aastro.Prelude.Fallible.{WhenSome, WhenSome-if, WhenSome-eq, WhenSome-bind, guard}
use aastro.Middlewares.{Settings, as_string}
use aastro.Middlewares.Auth.{Auth}
use aastro.Middlewares.Auth.Keys.{RsaPublicKey, Jwks, JwksResolver, hmac_resolver, refresh}
use aastro.Middlewares.Auth.Keys.Families.{IsResolverFor, by_secret, by_public_key, by_jwks}
use aastro.Middlewares.Auth.Setup.{
  Decoding, JwtConfig, new_key_resolver, static_resolver, to_resolver, init, resolve_realm,
  parse_hmac_secret, parse_rsa_public_key,
}

module _ (alg : String) where
  static_resolver-IsResolverFor :
      (key : Option RsaPublicKey)
      → alg ≡ "RS256"
      → WhenSome (IsResolverFor alg) (static_resolver key)
  static_resolver-IsResolverFor none h = tt
  static_resolver-IsResolverFor (some key) h = by_public_key h

  to_resolver-IsResolverFor :
      (r : Option JwksResolver) → alg ≡ "RS256" → WhenSome (IsResolverFor alg) (to_resolver r)
  to_resolver-IsResolverFor none h = tt
  to_resolver-IsResolverFor (some r) h = by_jwks h

new_key_resolver-IsResolverFor :
    (fetched : Option Jwks) (cfg : JwtConfig)
    → WhenSome (IsResolverFor cfg.alg) (new_key_resolver fetched cfg)
unfolding new_key_resolver
new_key_resolver-IsResolverFor fetched cfg =
    let P = IsResolverFor cfg.alg in
    WhenSome-if P (str_eq cfg.alg "HS256") _ _
      (λ h.
        WhenSome-if P (is_empty cfg.hmac_secret) none (some (hmac_resolver cfg.hmac_secret))
          (λ _. tt) (λ full. by_secret ((str_eq_iff cfg.alg "HS256").0 h) full))
      (λ _.
        WhenSome-if P (str_eq cfg.alg "RS256") _ none
          (λ h.
            let is_rs256 = (str_eq_iff cfg.alg "RS256").0 h in
            WhenSome-if P (str_eq cfg.jwks_url "") (static_resolver cfg.rsa_public_key)
              (to_resolver (refresh fetched (record { url = cfg.jwks_url; keys = [] })))
              (λ _. static_resolver-IsResolverFor cfg.alg cfg.rsa_public_key is_rs256)
              (λ _. to_resolver-IsResolverFor cfg.alg _ is_rs256))
          (λ _. tt))

abbrev IsUsable : Auth → Type 0
IsUsable m = IsResolverFor m.alg m.resolver

-- `Init` makes a middleware whose resolver is one for its algorithm.
pub init-IsResolverFor :
    (decoding : Decoding) (fetched : Option Jwks) (logger_fails : Bool) (config : Settings)
    (m : Auth)
    → init decoding fetched logger_fails config ≡ some m
    → IsResolverFor m.alg m.resolver
unfolding init
init-IsResolverFor decoding fetched logger_fails config m h =
    WhenSome-eq IsUsable
      (WhenSome-bind IsUsable (as_string (lookup "issuer" config)) _ (λ issuer _.
        WhenSome-bind IsUsable (as_string (lookup "audience" config)) _ (λ audience _.
          WhenSome-bind IsUsable (as_string (lookup "alg" config)) _ (λ alg _.
            WhenSome-bind IsUsable (guard (not (str_eq alg ""))) _ (λ _ _.
              WhenSome-bind IsUsable (resolve_realm decoding (lookup "realm" config)) _ (λ realm _.
                WhenSome-bind IsUsable (parse_hmac_secret decoding (lookup "hmac_secret" config)) _
                  (λ secret _.
                    WhenSome-bind IsUsable
                      (parse_rsa_public_key decoding (lookup "rsa_public_key" config)) _
                      (λ key _. WhenSome-bind IsUsable (new_key_resolver fetched _) _ (λ resolver e.
                        WhenSome-bind IsUsable (guard (not logger_fails)) _ (λ _ _.
                          WhenSome-eq (IsResolverFor alg) (new_key_resolver-IsResolverFor fetched _)
                            e))))))))))
      h
