-- ===== src/Examples/Auth.antt =====
-- The middleware of builtin/middlewares/auth, with one token and one secret.
use aastro.Prelude.{
  ◌≡◌, ◌⊎◌, refl, true, false, [], ◌∷◌, Option, none, some, if◌then◌else◌, lookup, str_eq,
}
use aastro.Middlewares.{Claims, Settings, string_value}
use aastro.Middlewares.Auth as Auth
use aastro.Middlewares.Auth.{Auth, Jwt, Quoting, split_space, equal_fold}
use aastro.Middlewares.Auth.Keys.{
  Token, hmac_method, hmac_resolver, Jwks, JwksResolver, rs256, RsaPublicKey, rsa_key,
  jwks_resolver, jwks_key_func, to_rsa_key,
}
use aastro.Middlewares.Auth.Keys.Given.{by_fetched}
use aastro.Middlewares.Auth.Keys.Families.{jwks_key_func_lem}
use aastro.Middlewares.Auth.Setup.{
  Decoding, init, new_key_resolver, parse_hmac_secret, parse_rsa_public_key, resolve_realm,
}
use aastro.Middlewares.Auth.Judged.{IsAuthorized}
use aastro.Middlewares.Auth.Access.{IsRefused, handler-IsAuthorized, handler_passes}
use aastro.Examples.Responses.{encoder}
use aastro.Examples.Middlewares.{writer, claims, request, falling}

abbrev token : Token
token = record { method = hmac_method; kid = none; claims = some claims }

-- A library that takes one text for a token, and takes every key.
abbrev jwt : Jwt
jwt = record {
  unverified = λ alg text. if str_eq text "abc" then some token else none;
  verified = λ k t. some true;
}

abbrev quoting : Quoting
quoting = record { quote = λ s. s; trim_space = λ s. s }

abbrev decoding : Decoding
decoding = record {
  base64 = λ s. some (1 ∷ 2 ∷ []);
  pem = λ s. none;
  pkix = λ s. none;
  trim_space = λ s. s;
}

abbrev auth_config : Settings
auth_config =
    ("issuer", string_value "me")
    ∷ ("audience", string_value "us")
    ∷ ("alg", string_value "HS256")
    ∷ ("hmac_secret", string_value "AQI=")
    ∷ []

abbrev auth : Auth
auth = record {
  issuer = "me";
  audience = "us";
  realm = "restricted";
  alg = "HS256";
  resolver = hmac_resolver (1 ∷ 2 ∷ []);
}

is_auth : init decoding none false auth_config ≡ some auth
unfolding init lookup new_key_resolver parse_hmac_secret parse_rsa_public_key resolve_realm
is_auth = refl

handler-IsAuthorized_example :
    ((c : Claims) × (IsAuthorized jwt auth none "bearer abc" c
        × ((Auth.handler quoting encoder jwt none auth falling request writer).1
            ≡ falling (record request { claims = some c }) writer)))
    ⊎ IsRefused quoting auth (Auth.handler quoting encoder jwt none auth falling request writer).1
unfolding lookup
handler-IsAuthorized_example =
    handler-IsAuthorized quoting encoder jwt decoding auth_config auth none none false falling
      request writer is_auth refl

abbrev public_key : RsaPublicKey
public_key = record { modulus = 15; exponent = 3 }

abbrev jwks : JwksResolver
jwks = record { url = "https://keys"; keys = [] }

abbrev signed : Token
signed = record { method = rs256; kid = some "k1"; claims = none }

abbrev fetched : Option Jwks
fetched = some (record { key_id = some "k1"; exported = some public_key } ∷ [])

jwks_key_func_lem_example :
    ((jwks_key_func fetched jwks signed).1
      ≡ to_rsa_key (lookup "k1" (jwks_key_func fetched jwks signed).0.keys))
    × ((jwks_key_func none jwks signed).0 ≡ jwks)
jwks_key_func_lem_example = jwks_key_func_lem fetched jwks signed "k1" refl refl refl

-- A token of the key set, with a key that only a fetch gives.
abbrev by_key_set : Token
by_key_set = record { method = rs256; kid = some "k1"; claims = some claims }

abbrev rsa_jwt : Jwt
rsa_jwt = record {
  unverified = λ alg text. if str_eq text "abc" then some by_key_set else none;
  verified = λ k t. some true;
}

abbrev rsa_auth : Auth
rsa_auth = record auth { alg = "RS256"; resolver = jwks_resolver jwks }

handler_passes_example :
    (Auth.handler quoting encoder rsa_jwt fetched rsa_auth falling request writer).1
    ≡ falling (record request { claims = some claims }) writer
unfolding lookup equal_fold
handler_passes_example =
    handler_passes quoting encoder rsa_jwt rsa_auth fetched falling request writer "bearer" "abc"
      claims refl refl
      (record {
        token = by_key_set;
        key = rsa_key public_key;
        audience = "you" ∷ "us" ∷ [];
        is_token = refl;
        is_given = by_fetched [] [] refl refl refl refl refl refl tt;
        is_verified = refl;
        has_claims = refl;
        is_issued = refl;
        is_for = refl;
        is_meant = refl;
      })
