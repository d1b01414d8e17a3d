-- ===== src/Forwarding/Target.antt =====
-- upstream.go: the request that is made for an upstream (`newRequest`).
-- The expansion of the path's parameters, which is a regular expression and go-chi's, and the query of a
-- URL are parameters, and so is whether net/http accepts the method and the URL.
use Prim.Native.Char.{code}
use Prim.Native.String.{[] as empty_text, ◌∷◌ as char_then, ◌++◌ as text_append}
use text.Mathlib.TextLemmas.{nil-append, cons-append, append_assoc}
use aastro.Prelude.{
  ℕ, ◌==◌, ◌≡◌, refl, Bool, true, false, List, [], ◌∷◌, String, Option, none, some, if◌then◌else◌,
  str_eq, contains,
}
use aastro.Header.{Header}
use aastro.Router.ClientIp.{Net}
use aastro.Router.ClientIp.Chain.{non_empty}
use aastro.Upstream.{UpstreamConfig}
use aastro.Upstream.Retry.{effective_method}
use aastro.Forwarding.{Texts, Original, resolve_headers}
use aastro.Forwarding.Queries.{resolve_queries}

pub record Target : Type 0 where
  pub method : String
  pub url : String
  pub body : List ℕ
  pub query : Header
  pub header : Header

-- `strings.TrimPrefix(path, "/")`.
trim_slash : String → String
trim_slash empty_text = ""
trim_slash (char_then c s) = if code c == 47 then s else char_then c s

-- `strings.HasSuffix(host, "/")`.
pub ends_slash : String → Bool
ends_slash empty_text = false
ends_slash (char_then c s) = let rest = ends_slash s in if str_eq s "" then code c == 47 else rest

host_path : String → String → String
host_path host path =
    let trimmed = trim_slash path in
    if ends_slash host then text_append host trimmed else text_append host (text_append "/" trimmed)

abbrev body_methods : List String
body_methods = "POST" ∷ "PUT" ∷ "PATCH" ∷ "QUERY" ∷ []

-- The parts of `newRequest` that other code does.
pub record Library : Type 1 where
  pub net : Net
  pub texts : Texts
  pub expand_path_params : String → String
  pub url_param : String → String
  pub params : List (String × String)
  pub query_of : String → Header
  pub accepts : String → String → Bool

new_request :
    (lib : Library)
    → List lib.net.Network
    → UpstreamConfig
    → String
    → Header
    → Original
    → List ℕ
    → String
    → Option Target
new_request lib trusted cfg original_method original_query r body host =
    let url = host_path host (lib.expand_path_params cfg.path) in
    let method = effective_method cfg original_method in
    if lib.accepts method url
    then some (record {
      method = method;
      url = url;
      body = if contains body_methods method then body else [];
      query =
          resolve_queries lib.url_param cfg.forward_queries cfg.forward_params lib.params
            original_query (lib.query_of url);
      header = resolve_headers lib.texts lib.net trusted cfg.forward_headers r [];
    })
    else none

append_slash-non_empty : (s : String) → str_eq (text_append s "/") "" ≡ false
append_slash-non_empty empty_text = refl
append_slash-non_empty (char_then c s) = rw cons-append (non_empty _ _)

ends_slash-append : (host : String) → ends_slash (text_append host "/") ≡ true
unfolding ends_slash
ends_slash-append empty_text = refl
ends_slash-append (char_then c s) =
    rw cons-append (rw (append_slash-non_empty s) (ends_slash-append s))

trim_slash-slash : (path : String) → trim_slash (text_append "/" path) ≡ path
unfolding trim_slash
trim_slash-slash path = rw cons-append (nil-append path)

-- One slash stands between host and path, however they are configured: a host that does not end with a slash
-- and a path that does not begin with one are joined by a slash, and a slash at the end of the host, at the
-- beginning of the path, or at both, changes nothing.
host_path_lem :
    (host path : String)
    → ends_slash host ≡ false
    → trim_slash path ≡ path
    → (host_path host path ≡ text_append host (text_append "/" path))
      × (host_path (text_append host "/") path ≡ host_path host path)
      × (host_path host (text_append "/" path) ≡ host_path host path)
      × (host_path (text_append host "/") (text_append "/" path) ≡ host_path host path)
unfolding host_path
host_path_lem host path no_end no_start =
    let end = ends_slash-append host in
    let start = trim_slash-slash path in
    let joined = append_assoc host "/" path in
    (
      rw (no_end, no_start) refl,
      rw (end, no_end, no_start) joined,
      rw (no_end, no_start, start) refl,
      rw (end, no_end, no_start, start) joined,
    )
