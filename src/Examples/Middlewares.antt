-- ===== src/Examples/Middlewares.antt =====
-- The middlewares of builtin/middlewares at concrete requests.
use aastro.Prelude.{◌≡◌, refl, true, [], ◌∷◌, none, some, if◌then◌else◌, lookup}
use aastro.Prelude.Text.{has_part}
use aastro.Header.{values}
use aastro.Response.{HttpReply}
use aastro.Router.Handler.{itoa}
use aastro.Middlewares.{
  int_value, Claims, HttpRequest, Handler, Writer, Settings, string_value, bool_value, array_value,
  string_scalar, done, write_header,
}
use aastro.Upstream.{pos}
use aastro.Router.{writable}
use aastro.Middlewares.Cors as Cors
use aastro.Middlewares.Cors.{Cors}
use aastro.Middlewares.Cors.Access.{
  IsGranted, idle, origins_in, is_listed, handler-IsGranted, handler_answers,
}
use aastro.Middlewares.Compressor as Compressor
use aastro.Middlewares.Compressor.{Compressor, Compression}
use aastro.Middlewares.Compressor.Length.{flow_end, handler-length}

abbrev pub writer : Writer
writer = record { headers = []; sent = none; body = [] }

abbrev pub claims : Claims
claims = record { issuer = some "me"; audience = some ("you" ∷ "us" ∷ []) }

abbrev pub request : HttpRequest
request = record {
  method = "OPTIONS";
  headers =
      ("Origin", "http://x" ∷ [])
      ∷ ("Access-Control-Request-Method", "PUT" ∷ [])
      ∷ ("Accept-Encoding", "gzip" ∷ [])
      ∷ ("Authorization", "bearer abc" ∷ [])
      ∷ [];
  claims = none;
}

-- A handler that sends a status and panics.
abbrev pub falling : Handler
falling = λ r w. record { writer = w; panicked = true }

abbrev cors_config : Settings
cors_config =
    ("allowed_origins", array_value (string_scalar "http://y" ∷ string_scalar "http://x" ∷ []))
    ∷ ("allowed_methods", array_value (string_scalar "put" ∷ string_scalar "get" ∷ []))
    ∷ ("max_age", int_value (pos 600))
    ∷ ("allow_credentials", bool_value true)
    ∷ []

abbrev cors : Cors
cors = Cors.configure cors_config

configured : Cors.init cors_config ≡ some cors
unfolding Cors.init Cors.configure Cors.resolve_allowed_origins lookup
configured = refl

handler-IsGranted_example :
    IsGranted cors_config "http://x" (Cors.handler cors idle request writer).writer.headers
unfolding lookup
handler-IsGranted_example = handler-IsGranted cors_config cors request writer configured (record {
  no_origin = refl;
  no_methods = refl;
  no_headers = refl;
  no_credentials = refl;
  no_age = refl;
})

handler_answers_example :
    Cors.handler cors falling request writer
    ≡ done (
        if is_listed (origins_in cors_config) "http://x"
        then write_header 204 (record writer { headers = Cors.set_headers cors "http://x" [] })
        else write_header 403 writer)
unfolding lookup Cors.is_preflight origins_in Cors.strings_of
handler_answers_example =
    handler_answers cors_config cors falling request writer configured refl refl

abbrev compression : Compression
compression = record { gzip = λ s. 1 ∷ []; flate = λ s. 2 ∷ [] }

abbrev compressing : Compressor
compressing = record { enabled = true; alg = "gzip" }

abbrev reply : HttpReply
reply = record { status = 200; headers = []; body = 5 ∷ 6 ∷ 7 ∷ [] }

handler-length_example :
    (values "Content-Length"
        (Compressor.handler compression compressing (flow_end reply) request writer).writer.headers
      ≡ itoa 3 ∷ [])
    × ((Compressor.handler compression compressing (flow_end reply) request writer).writer.body
        ≡ 1 ∷ [])
unfolding lookup has_part Compressor.compressed writable
handler-length_example =
    handler-length compression compressing reply request writer (1 ∷ []) refl refl refl refl

abbrev brotli : Settings
brotli = ("enabled", bool_value true) ∷ ("alg", string_value "br") ∷ []
