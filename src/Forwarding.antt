-- ===== src/Forwarding.antt =====
-- upstream.go: the headers of a request to an upstream (`resolveHeaders` and what it calls).
-- `Texts` stands for parts of Go's packages net/http, net and strconv: the canonical form of a header's
-- name, the port of "host:port", and `strconv.Atoi` of a number that is not negative.
pub mod Spoofing
pub mod Queries
pub mod Target
use Prim.Native.Char.{code}
use Prim.Native.String.{[] as empty_text, ◌∷◌ as char_then, ◌++◌ as text_append}
use aastro.Prelude.{
  ℕ, ◌==◌, leb, Bool, true, false, not, ◌&&◌, ◌||◌, List, [], ◌∷◌, Option, none, some, String,
  if◌then◌else◌, str_eq,
}
use aastro.Header.{Header, get, set_header, add_header}
use aastro.Router.ClientIp.{Net, Request, ip_in_nets, extract_client_ip}

pub record Texts : Type 0 where
  pub canonical : String → String
  pub port_of : String → Option String
  pub atoi : String → Option ℕ

-- What is read of the request that came in; `client_ip` is the one of its context, "" if there is none.
pub record Original : Type 0 where
  pub request : Request
  pub client_ip : String
  pub host : String
  pub url_host : String
  pub is_tls : Bool

-- `strings.TrimSuffix(s, "*")` where `strings.HasSuffix(s, "*")`.
strip_star : String → Option String
strip_star empty_text = none
strip_star (char_then c s) =
    let rest : Option String = elim (strip_star s) [
      | none ↦ none
      | some t ↦ some (char_then c t)
    ] in
    if str_eq s "" then (if code c == 42 then some "" else none) else rest

-- `strings.HasPrefix`, the prefix first.
has_prefix : String → String → Bool
has_prefix empty_text t = true
has_prefix (char_then c p) empty_text = false
has_prefix (char_then c p) (char_then d t) = code c == code d && has_prefix p t

add_all : String → List String → Header → Header
add_all name [] h = h
add_all name (v ∷ vs) h = add_all name vs (add_header name v h)

-- `forwardHeadersByPrefix`, onto the headers of the target.
forward_headers_by_prefix : String → Header → Header → Header
forward_headers_by_prefix prefix [] target = target
forward_headers_by_prefix prefix ((name, vs) ∷ src) target =
    forward_headers_by_prefix prefix src
      (if has_prefix prefix name then add_all name vs target else target)

-- `effectiveHost`.
pub effective_host : Original → String
effective_host r = if str_eq r.host "" then r.url_host else r.host

or_text : String → String → String
or_text s default = if str_eq s "" then default else s

-- `xff + ", " + s` where there is one.
abbrev after_list : String → String → String
after_list before s = if str_eq before "" then s else text_append before (text_append ", " s)

-- `fmt.Sprintf("for=%s; proto=%s; host=%s", …)`.
abbrev pub forwarded_hop : String → String → String → String
forwarded_hop ip proto host =
    text_append "for="
      (text_append ip (text_append "; proto=" (text_append proto (text_append "; host=" host))))

module _ (texts : Texts) where
  open texts use {canonical, port_of, atoi}

  -- One pattern that is not "*".
  forward_one : Header → String → Option String → Header → Header
  forward_one src pattern (some prefix) target = forward_headers_by_prefix prefix src target
  forward_one src pattern none target =
      let v = get (canonical pattern) src in
      if str_eq v "" then target else add_header (canonical pattern) v target

  -- The loop over the patterns.
  pub forward_patterns : List String → Header → Header → Header
  forward_patterns [] src target = target
  forward_patterns (pattern ∷ ps) src target =
      if str_eq pattern "*"
      then src
      else forward_patterns ps src (forward_one src pattern (strip_star pattern) target)

  port_or : Option String → Bool → String
  port_or (some port) is_tls = port
  port_or none is_tls = if is_tls then "443" else "80"

  -- `resolvePort`.
  pub resolve_port : String → Bool → String
  resolve_port host is_tls = port_or (port_of host) is_tls

  in_range : Option ℕ → Bool
  in_range none = false
  in_range (some n) = leb 1 n && leb n 65535

  is_valid_port : String → Bool
  is_valid_port p = in_range (atoi p)

  -- `setUntrustedForwardingHeaders`.
  pub set_untrusted : Original → String → String → String → Header → Header
  set_untrusted r client_ip proto port target =
      let host = effective_host r in
      set_header "Forwarded" (forwarded_hop client_ip proto host) (
        set_header "X-Forwarded-Port" port (
          set_header "X-Forwarded-Host" host
            (set_header "X-Forwarded-Proto" proto (set_header "X-Forwarded-For" client_ip target))))

  -- `appendTrustedForwardingHeaders`.
  append_trusted : Original → String → String → String → Header → Header
  append_trusted r client_ip proto port target =
      let src = r.request.header in
      let p = get "X-Forwarded-Proto" src in
      let proto' = if str_eq p "http" || str_eq p "https" then p else proto in
      let host = or_text (get "X-Forwarded-Host" src) (effective_host r) in
      let port' = get "X-Forwarded-Port" src in
      set_header "Forwarded"
        (after_list (get "Forwarded" src) (forwarded_hop client_ip proto' host))
        (set_header "X-Forwarded-Port" (if is_valid_port port' then port' else port) (
          set_header "X-Forwarded-Host" host (
            set_header "X-Forwarded-Proto" proto' (
              set_header "X-Forwarded-For" (after_list (get "X-Forwarded-For" src) client_ip)
                target))))

  module _ (net : Net) (trusted : List net.Network) where
    -- `resolveHeaders` from the client's address on; with an address that cannot be parsed it stops.
    pub with_client : Original → String → Option net.Ip → Header → Header
    with_client r client_ip none target = target
    with_client r client_ip (some ip) target =
        let port = resolve_port (effective_host r) r.is_tls in
        let proto = if r.is_tls then "https" else "http" in
        if ip_in_nets net ip trusted
        then append_trusted r client_ip proto port target
        else set_untrusted r client_ip proto port target

    -- `resolveHeaders`, for a target with the headers `target`.
    pub resolve_headers : List String → Original → Header → Header
    resolve_headers patterns r target =
        let forwarded = forward_patterns patterns r.request.header target in
        let typed = set_header "Content-Type" (get "Content-Type" r.request.header) forwarded in
        let client_ip = or_text r.client_ip (extract_client_ip net trusted r.request) in
        with_client r client_ip (net.parse_ip client_ip) typed
