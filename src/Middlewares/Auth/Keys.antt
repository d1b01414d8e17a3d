-- ===== src/Middlewares/Auth/Keys.antt =====
-- builtin/middlewares/auth/hmac.go, rsa.go and jwks.go: the key that a token is verified with.
pub mod Families
pub mod Given
use aastro.Prelude.{
  ℕ, Bool, true, false, not, ◌&&◌, List, [], ◌∷◌, Option, none, some, String, if◌then◌else◌, str_eq,
  lookup, insert, is_empty,
}
use aastro.Middlewares.{Claims}

-- The types of a token's signing method (github.com/golang-jwt/jwt); of the RSA ones, RS256 is one.
pub data Method : Type 0 where
  hmac_method rs256 other_rsa_method other_method : Method

-- A token by what is read of it: its method, "kid" of its header if that is a string, and its claims;
-- none if they are of another type than `*jwt.MapClaims`.
pub record Token : Type 0 where
  pub method : Method
  pub kid : Option String
  pub claims : Option Claims

-- `*rsa.PublicKey`.
pub record RsaPublicKey : Type 0 where
  pub modulus : ℕ
  pub exponent : ℕ

pub data Key : Type 0 where
  hmac_key : List ℕ → Key
  rsa_key : RsaPublicKey → Key

-- A key of a set that `jwk.Fetch` gives: `KeyID`, none where there is none, and the RSA key that
-- `jwk.Export` makes of it, none for an error.
pub record Jwk : Type 0 where
  pub key_id : Option String
  pub exported : Option RsaPublicKey

abbrev pub Jwks : Type 0
Jwks = List Jwk

-- `url` and `keys` of `jwksResolver`.
pub record JwksResolver : Type 0 where
  pub url : String
  pub keys : List (String × RsaPublicKey)

pub data KeyResolver : Type 0 where
  hmac_resolver : List ℕ → KeyResolver
  rsa_resolver : Option RsaPublicKey → KeyResolver
  jwks_resolver : JwksResolver → KeyResolver

unfoldable pub add_key :
    Option String
    → Option RsaPublicKey
    → List (String × RsaPublicKey)
    → List (String × RsaPublicKey)
add_key (some kid) (some key) keys = if str_eq kid "" then keys else insert kid key keys
add_key _ _ keys = keys

-- The loop of `refresh`.
unfoldable pub collect_keys : Jwks → List (String × RsaPublicKey) → List (String × RsaPublicKey)
collect_keys [] new_keys = new_keys
collect_keys (k ∷ set) new_keys = collect_keys set (add_key k.key_id k.exported new_keys)

-- `refresh`, by what `jwk.Fetch` gives; none is an error.
unfoldable pub refresh : Option Jwks → JwksResolver → Option JwksResolver
refresh none r = none
refresh (some set) r = some (record r { keys = collect_keys set [] })

abbrev pub to_rsa_key : Option RsaPublicKey → Option Key
to_rsa_key none = none
to_rsa_key (some key) = some (rsa_key key)

unfoldable pub after_refresh :
    JwksResolver → String → Option JwksResolver → JwksResolver × Option Key
after_refresh r kid none = (r, none)
after_refresh r kid (some r') = (r', to_rsa_key (lookup kid r'.keys))

unfoldable pub known_or_refresh :
    Option Jwks → JwksResolver → String → Option RsaPublicKey → JwksResolver × Option Key
known_or_refresh fetched r kid (some key) = (r, some (rsa_key key))
known_or_refresh fetched r kid none = after_refresh r kid (refresh fetched r)

unfoldable pub with_kid : Option Jwks → JwksResolver → Option String → JwksResolver × Option Key
with_kid fetched r none = (r, none)
with_kid fetched r (some kid) =
    if str_eq r.url "" then (r, none) else known_or_refresh fetched r kid (lookup kid r.keys)

abbrev is_rs256 : Method → Bool
is_rs256 rs256 = true
is_rs256 _ = false

abbrev is_rsa : Method → Bool
is_rsa rs256 = true
is_rsa other_rsa_method = true
is_rsa _ = false

abbrev is_hmac : Method → Bool
is_hmac hmac_method = true
is_hmac _ = false

-- `KeyFunc` of the three resolvers; `fetched` is what a fetch would give, and no key is an error.
unfoldable pub jwks_key_func : Option Jwks → JwksResolver → Token → JwksResolver × Option Key
jwks_key_func fetched r token =
    if is_rs256 token.method then with_kid fetched r token.kid else (r, none)

unfoldable pub rsa_key_func : Option RsaPublicKey → Token → Option Key
rsa_key_func key token = if is_rsa token.method then to_rsa_key key else none

unfoldable pub hmac_key_func : List ℕ → Token → Option Key
hmac_key_func secret token =
    if is_hmac token.method && not (is_empty secret) then some (hmac_key secret) else none

unfoldable pub key_func : Option Jwks → KeyResolver → Token → KeyResolver × Option Key
key_func fetched (hmac_resolver secret) token = (hmac_resolver secret, hmac_key_func secret token)
key_func fetched (rsa_resolver key) token = (rsa_resolver key, rsa_key_func key token)
key_func fetched (jwks_resolver r) token =
    let (r', key) = jwks_key_func fetched r token in (jwks_resolver r', key)
