-- ===== src/Plugins/Gateway.antt =====
-- A plugin for responses in the handler of a flow (builtin/plugins/masker/masker.go, sdk/plugin.go, router.go).
use aastro.Prelude.{ℕ, List, Option, none, some}
use aastro.Header.{Header}
use aastro.Aggregator
use aastro.Scatter.{Outside}
use aastro.Router.{RequestIds}
use aastro.Response.{HttpReply, ProblemEncoder}
use aastro.Router.Handler.{
  FlowRequest, Context, Executed, panics, fails, leaves, Plugin, plugin_type_response,
  after_response_plugins, execute_plugins,
}
use aastro.Plugins.{Bytes, JsonCodec, Reader, buffered}
use aastro.Plugins.Masker.{execute}

-- `Execute` on the context: a response whose body is as the plugin leaves it. The body that the gateway hands
-- over is in memory and never nil.
abbrev pub with_body : Context → HttpReply → Option (Option Reader) → Executed
with_body ctx reply none = fails
with_body ctx reply (some none) = leaves ctx
with_body ctx reply (some (some body)) =
    leaves (record ctx { response = some (record reply { body = body.bytes }) })

abbrev pub on_response :
    (Option Reader → Option (Option Reader)) → Context → Option HttpReply → Executed
on_response f ctx none = leaves ctx
on_response f ctx (some reply) = with_body ctx reply (f (some (buffered reply.body)))

pub response_plugin : (Option Reader → Option (Option Reader)) → Plugin
response_plugin f = record {
  type = plugin_type_response;
  execute = λ ctx. on_response f ctx ctx.response;
}

pub masker : List (List ℕ) → JsonCodec → Plugin
masker fields codec = response_plugin (execute fields codec)

abbrev a_reply : ℕ → Header → Bytes → HttpReply
a_reply status headers body = record { status = status; headers = headers; body = body }

abbrev replied : FlowRequest → ℕ → Header → Bytes → Context
replied req status headers body = record {
  request = req;
  response = some (a_reply status headers body);
}

module _ (sums : Aggregator.Codec) (encoder : ProblemEncoder) (ids : RequestIds)
    (outside : ℕ → Outside) where
  after_plugin : Header → List Plugin → Executed → Option HttpReply
  after_plugin written plugins left =
      after_response_plugins sums encoder ids outside written (elim left [
        | panics ↦ panics
        | fails ↦ fails
        | leaves ctx ↦ execute_plugins plugin_type_response plugins ctx
      ])
