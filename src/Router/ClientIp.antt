-- ===== src/Router/ClientIp.antt =====
-- router.go: the address of the client, from the proxies' headers.
-- `Net` stands for package net of Go: addresses with their text form, networks, and the splitting of
-- "host:port". `split_comma` and `trim_space` are `strings.Split(s, ",")` and `strings.TrimSpace`.
pub mod Chain
use Prim.Native.Char.{Char, code}
use Prim.Native.String.{[] as empty_text, ◌∷◌ as char_then}
use aastro.Prelude.{
  ℕ, ◌==◌, leb, Bool, true, false, ◌&&◌, ◌||◌, not, List, [], ◌∷◌, Option, none, some, String,
  if◌then◌else◌, str_eq,
}
use aastro.Header.{Header, get}

pub record Net : Type 1 where
  pub Ip : Type 0
  pub Network : Type 0
  pub parse_ip : String → Option Ip
  pub ip_text : Ip → String
  pub split_host_port : String → Option String
  pub holds : Network → Ip → Bool

-- What is read of a request.
pub record Request : Type 0 where
  pub remote_addr : String
  pub header : Header

-- `unicode.IsSpace`.
is_space : Char → Bool
is_space c =
    let n = code c in
    leb 9 n && leb n 13
    || n == 32
    || n == 133
    || n == 160
    || n == 5760
    || leb 8192 n && leb n 8202
    || n == 8232
    || n == 8233
    || n == 8239
    || n == 8287
    || n == 12288

trim_left : String → String
trim_left empty_text = ""
trim_left (char_then c s) = let rest = trim_left s in if is_space c then rest else char_then c s

trim_right : String → String
trim_right empty_text = ""
trim_right (char_then c s) =
    let rest = trim_right s in if str_eq rest "" && is_space c then "" else char_then c rest

unfoldable pub trim_space : String → String
unfolding trim_left trim_right is_space
trim_space s = trim_right (trim_left s)

-- A character before the first part.
abbrev pub onto_first : Char → List String → List String
onto_first c [] = char_then c "" ∷ []
onto_first c (p ∷ ps) = char_then c p ∷ ps

unfoldable pub split_comma : String → List String
split_comma empty_text = "" ∷ []
split_comma (char_then c s) =
    let rest = split_comma s in if code c == 44 then "" ∷ rest else onto_first c rest

-- How the loop over the parts stands: it has passed trusted proxies only, it has met a part that is
-- no address, or it has found the client.
pub data Walk (Ip : Type 0) : Type 0 where
  onward : Walk Ip
  stopped : Walk Ip
  client : Ip → Walk Ip

module _ (net : Net) where
  open net use {Ip, Network, parse_ip, ip_text, split_host_port, holds}

  unfoldable pub ip_in_nets : Ip → List Network → Bool
  ip_in_nets ip [] = false
  ip_in_nets ip (n ∷ ns) = let rest = ip_in_nets ip ns in if holds n ip then true else rest

  peer_string : Request → Option Ip → String
  peer_string r none = r.remote_addr
  peer_string r (some peer) = ip_text peer

  abbrev host_of : String → Option String → String
  host_of remote none = remote
  host_of remote (some host) = host

  unfoldable pub remote_ip : Request → Option Ip
  remote_ip r = parse_ip (host_of r.remote_addr (split_host_port r.remote_addr))

  module _ (trusted : List Network) where
    pub hop : Option Ip → Walk Ip
    hop none = stopped
    hop (some ip) = if ip_in_nets ip trusted then onward else client ip

    abbrev then_hop : Walk Ip → Walk Ip → Walk Ip
    then_hop onward w = w
    then_hop stopped w = stopped
    then_hop (client ip) w = client ip

    -- The loop, from the last part to the first.
    pub walk : List String → Walk Ip
    walk [] = onward
    walk (p ∷ ps) = let later = walk ps in then_hop later (hop (parse_ip (trim_space p)))

    real_ip : Request → Option Ip → Option Ip → String
    real_ip r peer none = peer_string r peer
    real_ip r peer (some ip) = ip_text ip

    -- After the loop, `X-Real-IP` and the peer.
    pub from_walk : Request → Option Ip → Walk Ip → String
    from_walk r peer (client ip) = ip_text ip
    from_walk r peer onward = real_ip r peer (parse_ip (trim_space (get "X-Real-Ip" r.header)))
    from_walk r peer stopped = real_ip r peer (parse_ip (trim_space (get "X-Real-Ip" r.header)))

    pub forwarded_walk : String → Walk Ip
    forwarded_walk xff = if str_eq xff "" then onward else walk (split_comma xff)

    pub from_peer : Request → Option Ip → String
    from_peer r none = peer_string r none
    from_peer r (some peer) =
        if ip_in_nets peer trusted
        then from_walk r (some peer) (forwarded_walk (get "X-Forwarded-For" r.header))
        else peer_string r (some peer)

    pub extract_client_ip : Request → String
    extract_client_ip r = from_peer r (remote_ip r)
