-- ===== src/Middlewares/Compressor.antt =====
-- builtin/middlewares/compressor/compressor.go: responses are compressed.
pub mod Length
use aastro.Prelude.{
  ℕ, Bool, true, false, not, ◌&&◌, ◌||◌, List, [], ◌∷◌, ◌++◌, Option, none, some, String,
  if◌then◌else◌, lookup, str_eq,
}
use aastro.Header.{Header, get, set_header, delete_header}
use aastro.Middlewares.{Value, string_value, Settings, bool_or, HttpRequest, Handler, Writer, Ran}
use aastro.Prelude.Text.{to_lower, has_part}

pub record Compressor : Type 0 where
  pub enabled : Bool
  pub alg : String

-- An algorithm that is a string but no known one leaves `old`, which is "" at first.
abbrev known_alg : String → String → String
known_alg old alg = if str_eq alg "gzip" || str_eq alg "deflate" then alg else old

unfoldable pub resolve_alg : String → Option Value → String
resolve_alg old (some (string_value s)) = known_alg old (to_lower s)
resolve_alg old _ = "gzip"

-- `Init`, on the middleware as `NewMiddleware` makes it; none is an error, of the logger.
unfoldable pub init : Bool → Settings → Option Compressor
init logger_fails config =
    if logger_fails
    then none
    else some (record {
      enabled = bool_or false (lookup "enabled" config);
      alg = resolve_alg "" (lookup "alg" config);
    })

-- What packages compress/gzip and compress/flate make of all that is written until `Close`.
pub record Compression : Type 0 where
  pub gzip : List ℕ → List ℕ
  pub flate : List ℕ → List ℕ

-- The response that has passed through the compressing writer, onto `before`.
pub finish : List ℕ → Ran → Option (List ℕ) → Ran
finish before ran none = record { writer = record ran.writer { body = before }; panicked = true }
finish before ran (some body) = record {
  writer = record ran.writer { body = before ++ body };
  panicked = ran.panicked;
}

pub prepare : Compressor → Writer → Writer
prepare m w = record w {
  headers =
      delete_header "Content-Length"
        (set_header "Vary" "Accept-Encoding" (set_header "Content-Encoding" m.alg w.headers));
  body = [];
}

module _ (compression : Compression) where
  -- The body that has been compressed, and none where there is no writer to compress it: its first use, at
  -- the latest by the deferred `Close`, is a panic.
  unfoldable pub compressed : String → List ℕ → Option (List ℕ)
  compressed alg body =
      if str_eq alg "gzip"
      then some (compression.gzip body)
      else if str_eq alg "deflate"
      then some (compression.flate body)
      else none

  pub handler : Compressor → Handler → Handler
  handler m next r w =
      let ran = next r (prepare m w) in
      let squeezed = finish w.body ran (compressed m.alg ran.writer.body) in
      if not m.enabled
      then next r w
      else if has_part m.alg (get "Accept-Encoding" r.headers)
      then squeezed
      else next r w
