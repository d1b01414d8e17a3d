-- ===== src/Middlewares/Auth/Setup.antt =====
-- builtin/middlewares/auth/auth.go: `Init` and what it calls, with `parseHMACSecret` of hmac.go and
-- `parseRSAPublicKey` of rsa.go. The durations of the refresh are left out.
pub mod Usable
use aastro.Prelude.{
  ℕ, Bool, true, false, not, List, [], ◌∷◌, Option, none, some, String, if◌then◌else◌, str_eq,
  lookup, is_empty,
}
use aastro.Prelude.Fallible.{◌>>=◌, ◌>>◌, guard}
use aastro.Middlewares.{Value, Settings, string_value, as_string}
use aastro.Middlewares.Auth.{Auth, default_realm}
use aastro.Middlewares.Auth.Keys.{
  RsaPublicKey, Jwks, JwksResolver, KeyResolver, hmac_resolver, rsa_resolver, jwks_resolver,
  refresh,
}

pub data PublicKey : Type 0 where
  rsa_public : RsaPublicKey → PublicKey
  other_public : PublicKey

-- `base64.StdEncoding.DecodeString`, `pem.Decode`, `x509.ParsePKIXPublicKey` and `strings.TrimSpace`;
-- none is an error, or no block.
pub record Decoding : Type 0 where
  pub base64 : String → Option (List ℕ)
  pub pem : String → Option (List ℕ)
  pub pkix : List ℕ → Option PublicKey
  pub trim_space : String → String

-- `jwtConfig`, but for the durations. An empty secret is a nil one.
pub record JwtConfig : Type 0 where
  pub alg : String
  pub hmac_secret : List ℕ
  pub rsa_public_key : Option RsaPublicKey
  pub jwks_url : String

-- `newKeyResolver`, of which `newJWKSResolver` fetches once; none is an error.
abbrev to_resolver : Option JwksResolver → Option KeyResolver
to_resolver none = none
to_resolver (some r) = some (jwks_resolver r)

abbrev static_resolver : Option RsaPublicKey → Option KeyResolver
static_resolver none = none
static_resolver (some key) = some (rsa_resolver (some key))

unfoldable pub new_key_resolver : Option Jwks → JwtConfig → Option KeyResolver
new_key_resolver fetched cfg =
    if str_eq cfg.alg "HS256"
    then if is_empty cfg.hmac_secret then none else some (hmac_resolver cfg.hmac_secret)
    else if str_eq cfg.alg "RS256"
    then if str_eq cfg.jwks_url ""
      then static_resolver cfg.rsa_public_key
      else to_resolver (refresh fetched (record { url = cfg.jwks_url; keys = [] }))
    else none

-- `config["jwks_url"].(string)`, "" if it is none.
abbrev string_or_empty : Option String → String
string_or_empty none = ""
string_or_empty (some s) = s

module _ (decoding : Decoding) where
  open decoding use {base64, pem, pkix, trim_space}

  -- `parseHMACSecret`: none is an error, and a key that is missing gives nil.
  unfoldable pub parse_hmac_secret : Option Value → Option (List ℕ)
  parse_hmac_secret none = some []
  parse_hmac_secret (some (string_value s)) = base64 s
  parse_hmac_secret (some _) = none

  unfoldable pub to_rsa : Option PublicKey → Option (Option RsaPublicKey)
  to_rsa (some (rsa_public key)) = some (some key)
  to_rsa _ = none

  unfoldable pub from_block : Option (List ℕ) → Option (Option RsaPublicKey)
  from_block none = none
  from_block (some block) = to_rsa (pkix block)

  -- `parseRSAPublicKey`: none is an error, and a key that is missing gives nil.
  unfoldable pub parse_rsa_public_key : Option Value → Option (Option RsaPublicKey)
  parse_rsa_public_key none = some none
  parse_rsa_public_key (some (string_value s)) = from_block (pem s)
  parse_rsa_public_key (some _) = none

  -- The realm; none is an error.
  unfoldable pub resolve_realm : Option Value → Option String
  resolve_realm none = some default_realm
  resolve_realm (some (string_value s)) =
      let realm = trim_space s in some (if str_eq realm "" then default_realm else realm)
  resolve_realm (some _) = none

  -- `Init`; none is an error, that of the logger among them.
  unfoldable pub init : Option Jwks → Bool → Settings → Option Auth
  init fetched logger_fails config = do
    issuer ← as_string (lookup "issuer" config)
    audience ← as_string (lookup "audience" config)
    alg ← as_string (lookup "alg" config)
    guard (not (str_eq alg ""))
    realm ← resolve_realm (lookup "realm" config)
    secret ← parse_hmac_secret (lookup "hmac_secret" config)
    public_key ← parse_rsa_public_key (lookup "rsa_public_key" config)
    resolver ← new_key_resolver fetched (record {
      alg = alg;
      hmac_secret = secret;
      rsa_public_key = public_key;
      jwks_url = string_or_empty (as_string (lookup "jwks_url" config));
    })
    guard (not logger_fails)
    some (record {
      issuer = issuer;
      audience = audience;
      realm = realm;
      alg = alg;
      resolver = resolver;
    })
