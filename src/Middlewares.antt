-- ===== src/Middlewares.antt =====
-- builtin/middlewares: handlers that wrap the handler of a flow (sdk/middleware.go). A handler gets the
-- request and the writer, and leaves the writer and whether it has panicked.
pub mod Recoverer
pub mod Cors
pub mod Auth
pub mod Compressor
use Prim.Native.Char.{code}
use Prim.Native.String.{[] as empty_text, ◌∷◌ as char_then, ◌++◌ as text_append, slice}
use aastro.Prelude.{
  ℕ, ◌-◌, ◌+◌, leb, Bool, true, false, ◌&&◌, List, [], ◌∷◌, ◌++◌, Option, none, some, String,
  if◌then◌else◌, lookup,
}
use aastro.Header.{Header}
use aastro.Upstream.{ℤ}
use aastro.Response.{HttpReply, ProblemEncoder, write_error}
use aastro.UpstreamError.{ClientError}

-- A value of a middleware's configuration (`map[string]interface{}`); of an array, only the strings are
-- read.
pub data Scalar : Type 0 where
  string_scalar : String → Scalar
  other_scalar : Scalar

pub data Value : Type 0 where
  string_value : String → Value
  bool_value : Bool → Value
  int_value : ℤ → Value
  array_value : List Scalar → Value
  other_value : Value

abbrev pub Settings : Type 0
Settings = List (String × Value)

-- `config[key].(bool)`, and what `old` is kept as if there is none.
abbrev pub bool_or : Bool → Option Value → Bool
bool_or old (some (bool_value b)) = b
bool_or old _ = old

-- `config[key].(string)`.
abbrev pub as_string : Option Value → Option String
as_string (some (string_value s)) = some s
as_string _ = none

-- `jwt.MapClaims` by its `GetIssuer` and `GetAudience`; none is an error of theirs.
pub record Claims : Type 0 where
  pub issuer : Option String
  pub audience : Option (List String)

-- `claims` is what the middleware "auth" puts into the context of the request.
pub record HttpRequest : Type 0 where
  pub method : String
  pub headers : Header
  pub claims : Option Claims

-- `http.ResponseWriter`: the headers that can still be changed, the status and the headers that are sent,
-- and the body so far.
pub record Writer : Type 0 where
  pub headers : Header
  pub sent : Option (ℕ × Header)
  pub body : List ℕ

pub record Ran : Type 0 where
  pub writer : Writer
  pub panicked : Bool

abbrev pub Handler : Type 0
Handler = HttpRequest → Writer → Ran

abbrev pub done : Writer → Ran
done w = record { writer = w; panicked = false }

-- The status that is sent stays.
abbrev pub or_sent : Option (ℕ × Header) → ℕ × Header → ℕ × Header
or_sent none new = new
or_sent (some old) new = old

-- `WriteHeader`, of which a second call changes nothing.
unfoldable pub write_header : ℕ → Writer → Writer
write_header status w = record w { sent = some (or_sent w.sent (status, w.headers)) }

-- `WriteError` (response.go) on a writer that may have been written to.
pub write_error_to : ProblemEncoder → ClientError → ℕ → Writer → Writer
write_error_to encoder code status w =
    let reply = write_error encoder w.headers code status in
    record {
      headers = reply.headers;
      sent = some (or_sent w.sent (reply.status, reply.headers));
      body = w.body ++ reply.body;
    }

-- The handler that `chiRouter.With(middlewares...)` makes: the first middleware is the outermost.
pub chain : List (Handler → Handler) → Handler → Handler
chain [] next = next
chain (m ∷ ms) next = m (chain ms next)
