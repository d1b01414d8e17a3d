-- ===== src/Router/Handler/Behaved.antt =====
-- Plugins that behave, and what a flow's plugins then leave (router.go, `executePlugins`).
use aastro.Prelude.{◌≡◌, Bool, true, false, List, [], ◌∷◌, Option, none, some, All, if◌then◌else◌}
use aastro.Response.{HttpReply}
use aastro.Router.{writable}
use aastro.Router.Handler.{
  PluginType, Context, Plugin, execute_plugins, Executed, panics, fails, leaves, same_type,
}

-- A response that `send` can write: there is one, and its status is writable.
abbrev pub sendable : Option HttpReply → Bool
sendable none = false
sendable (some reply) = writable reply.status

-- What a plugin comes to, but for a panic.
abbrev pub Runs : Executed → Type 0
Runs panics = ⊥
Runs fails = Unit
Runs (leaves ctx) = Unit

-- No panic, and after no error a response that can be sent.
abbrev pub Keeps : Executed → Type 0
Keeps panics = ⊥
Keeps fails = Unit
Keeps (leaves ctx) = sendable ctx.response ≡ true

-- A plugin that never panics, and leaves a response that can be sent where there was one.
pub record IsWellBehaved (p : Plugin) : Type 0 where
  pub runs : (ctx : Context) → Runs (p.execute ctx)
  pub keeps : (ctx : Context) → sendable ctx.response ≡ true → Keeps (p.execute ctx)

if-Keeps : (b : Bool) (x y : Executed) → Keeps x → Keeps y → Keeps (if b then x else y)
if-Keeps true x y p q = p
if-Keeps false x y p q = q

if-Runs : (b : Bool) (x y : Executed) → Runs x → Runs y → Runs (if b then x else y)
if-Runs true x y p q = p
if-Runs false x y p q = q

-- The context goes from one plugin to the next.
Keeps-then :
    (e : Executed) (more : Context → Executed)
    → Keeps e
    → ((ctx : Context) → sendable ctx.response ≡ true → Keeps (more ctx))
    → Keeps (elim e [ panics ↦ panics | fails ↦ fails | leaves ctx ↦ more ctx ])
Keeps-then panics more h go = h
Keeps-then fails more h go = tt
Keeps-then (leaves ctx) more h go = go ctx h

Runs-then :
    (e : Executed) (more : Context → Executed)
    → Runs e
    → ((ctx : Context) → Runs (more ctx))
    → Runs (elim e [ panics ↦ panics | fails ↦ fails | leaves ctx ↦ more ctx ])
Runs-then panics more h go = h
Runs-then fails more h go = tt
Runs-then (leaves ctx) more h go = go ctx

pub execute_plugins-Keeps :
    (type : PluginType) (ps : List Plugin) (ctx : Context)
    → All IsWellBehaved ps
    → sendable ctx.response ≡ true
    → Keeps (execute_plugins type ps ctx)
unfolding execute_plugins
execute_plugins-Keeps type [] ctx h has = has
execute_plugins-Keeps type (p ∷ ps) ctx (h, hs) has =
    if-Keeps (same_type p.type type) _ _
      (Keeps-then (p.execute ctx) (execute_plugins type ps) (h.keeps ctx has)
        (λ c has'. execute_plugins-Keeps type ps c hs has'))
      (execute_plugins-Keeps type ps ctx hs has)

pub execute_plugins-Runs :
    (type : PluginType) (ps : List Plugin) (ctx : Context)
    → All IsWellBehaved ps
    → Runs (execute_plugins type ps ctx)
unfolding execute_plugins
execute_plugins-Runs type [] ctx h = tt
execute_plugins-Runs type (p ∷ ps) ctx (h, hs) =
    if-Runs (same_type p.type type) _ _
      (Runs-then (p.execute ctx) (execute_plugins type ps) (h.runs ctx)
        (λ c. execute_plugins-Runs type ps c hs))
      (execute_plugins-Runs type ps ctx hs)
