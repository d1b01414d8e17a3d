-- ===== src/Middlewares/Compressor/Length.antt =====
-- The middleware "compressor" around the handler of a flow (builtin/middlewares/compressor/compressor.go,
-- router.go).
use aastro.Prelude.{
  ℕ, true, false, ◌||◌, List, [], ◌∷◌, ◌++◌, Option, none, some, String, length, lookup, str_eq,
  ◌≡◌, refl, sym, ap, ◌∙◌,
}
use aastro.Header.{get, values, values_or_nil}
use aastro.Response.{HttpReply}
use aastro.Router.Handler.{send, itoa}
use aastro.Router.{copy_response, writable}
use aastro.Router.Outcome.{values-set_same}
use aastro.Router.Replies.{lookup-copy_headers_hop}
use aastro.Middlewares.{string_value, Settings, HttpRequest, Handler, Writer, Ran}
use aastro.Prelude.Text.{to_lower, has_part, has_part_empty}
use aastro.Middlewares.Compressor.{
  Compressor, Compression, compressed, finish, prepare, handler, init, resolve_alg,
}

-- The handler of a flow at its end: the reply of `send` on the writer, and a panic if there is none; what the
-- panic leaves in the headers is left out.
reply_on : Writer → Option HttpReply → Ran
reply_on w none = record { writer = w; panicked = true }
reply_on w (some reply) = record {
  writer = record {
    headers = reply.headers;
    sent = some (reply.status, reply.headers);
    body = w.body ++ reply.body;
  };
  panicked = false;
}

pub flow_end : HttpReply → Handler
flow_end resp r w = reply_on w (send w.headers (some resp))

alg_of : Option Compressor → String
alg_of none = ""
alg_of (some m) = m.alg

module _ (compression : Compression) (m : Compressor) where
  -- A response that is compressed declares the length that its body had before: the flow's handler sets
  -- Content-Length behind the compressor, which has deleted it before. `z` is the compressed body, and
  -- the status is one that can be written (100 to 999).
  pub handler-length :
      (resp : HttpReply) (r : HttpRequest) (w : Writer) (z : List ℕ)
      → m.enabled ≡ true
      → writable resp.status ≡ true
      → has_part m.alg (get "Accept-Encoding" r.headers) ≡ true
      → compressed compression m.alg resp.body ≡ some z
      → (values "Content-Length" (handler compression m (flow_end resp) r w).writer.headers
          ≡ itoa (length resp.body) ∷ [])
        × ((handler compression m (flow_end resp) r w).writer.body ≡ w.body ++ z)
  unfolding handler flow_end reply_on send prepare finish copy_response
  handler-length resp r w z on writes accepts is_z =
      simp (on, writes, accepts, is_z)
        (
          ap values_or_nil (lookup-copy_headers_hop "Content-Length" _ resp.headers refl)
              ∙ values-set_same "Content-Length" (itoa (length resp.body)) _,
          refl,
        )

  -- With a configured algorithm that is neither "gzip" nor "deflate" (in whatever case), and enabled: every request
  -- ends in a panic, whatever the handler behind is.
  pub unknown_alg_panics :
      (config : Settings) (s : String) (next : Handler) (r : HttpRequest) (w : Writer)
      → init false config ≡ some m
      → lookup "alg" config ≡ some (string_value s)
      → (str_eq (to_lower s) "gzip" || str_eq (to_lower s) "deflate") ≡ false
      → m.enabled ≡ true
      → (handler compression m next r w).panicked ≡ true
  unfolding handler init resolve_alg compressed finish alg_of
  unknown_alg_panics config s next r w ok has_alg unknown on =
      let empty : m.alg ≡ "" = ap alg_of (sym ok) ∙ rw has_alg (rw unknown refl) in
      simp (on, empty, has_part_empty (get "Accept-Encoding" r.headers)) refl
