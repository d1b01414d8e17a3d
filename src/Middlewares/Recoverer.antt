-- ===== src/Middlewares/Recoverer.antt =====
-- builtin/middlewares/recoverer/recoverer.go: a panic of what it wraps becomes an error of the gateway. What it
-- logs is left out; the logger that `Init` makes can fail.
use aastro.Prelude.{Bool, false, Option, none, some, if◌then◌else◌, lookup}
use aastro.Response.{ProblemEncoder}
use aastro.UpstreamError.{internal_error}
use aastro.Middlewares.{Settings, bool_or, Handler, Ran, write_error_to, done}

pub record Recoverer : Type 0 where
  pub enabled : Bool
  pub include_stack : Bool

-- `Init`, on the middleware as `NewMiddleware` makes it; none is an error, of the logger.
pub init : Bool → Settings → Option Recoverer
init logger_fails config =
    if logger_fails
    then none
    else some (record {
      enabled = bool_or false (lookup "enabled" config);
      include_stack = bool_or false (lookup "include_stack" config);
    })

module _ (encoder : ProblemEncoder) where
  -- The deferred function.
  unfoldable pub recover : Ran → Ran
  recover ran =
      if ran.panicked then done (write_error_to encoder internal_error 500 ran.writer) else ran

  unfoldable pub handler : Recoverer → Handler → Handler
  handler m next = if m.enabled then (λ r w. recover (next r w)) else next
