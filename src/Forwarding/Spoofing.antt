-- ===== src/Forwarding/Spoofing.antt =====
-- What an upstream is told of the client, whatever the client has written in its headers.
use aastro.Prelude.{◌≡◌, refl, ◌∙◌, false, List, [], ◌∷◌, none, some, String, if◌then◌else◌, str_eq}
use aastro.Header.{Header, values, set_header}
use aastro.Router.ClientIp.{Net, ip_in_nets, extract_client_ip}
use aastro.Router.Outcome.{values-set_same, values-set_other}
use aastro.Forwarding.{
  Texts, Original, effective_host, or_text, forwarded_hop, forward_patterns, resolve_port,
  set_untrusted, with_client, resolve_headers,
}

-- Under a header that was set later.
below :
    (k j v : String) (h : Header) (vs : List String)
    → str_eq k j ≡ false
    → values j h ≡ vs
    → values j (set_header k v h) ≡ vs
below k j v h vs apart same = values-set_other k j v h apart ∙ same

module _ (texts : Texts) (net : Net) (trusted : List net.Network) where
  -- The address that is used for the client, and the scheme of its connection.
  abbrev client_of : Original → String
  client_of r =
      if str_eq r.client_ip "" then extract_client_ip net trusted r.request else r.client_ip

  abbrev proto_of : Original → String
  proto_of r = if r.is_tls then "https" else "http"

  -- All five forwarding headers hold one value, made from the address that is used for the client, the
  -- scheme of its connection and the host that the request names.
  pub record IsOwn (r : Original) (h : Header) : Type 0 where
    for_client : values "X-Forwarded-For" h ≡ client_of r ∷ []
    pub proto : values "X-Forwarded-Proto" h ≡ proto_of r ∷ []
    pub host : values "X-Forwarded-Host" h ≡ effective_host r ∷ []
    pub port : values "X-Forwarded-Port" h ≡ resolve_port texts (effective_host r) r.is_tls ∷ []
    pub forwarded :
        values "Forwarded" h ≡ forwarded_hop (client_of r) (proto_of r) (effective_host r) ∷ []

  set_untrusted-IsOwn :
      (r : Original) (target : Header)
      → IsOwn r (
          set_untrusted texts r
            (client_of r)
            (proto_of r)
            (resolve_port texts (effective_host r) r.is_tls)
            target)
  unfolding set_untrusted
  set_untrusted-IsOwn r target =
      let xff = set_header "X-Forwarded-For" (client_of r) target in
      let proto = set_header "X-Forwarded-Proto" (proto_of r) xff in
      let host = set_header "X-Forwarded-Host" (effective_host r) proto in
      let port =
        set_header "X-Forwarded-Port" (resolve_port texts (effective_host r) r.is_tls) host in
      record {
        for_client = below "Forwarded" "X-Forwarded-For" _ port _ refl (
            below "X-Forwarded-Port" "X-Forwarded-For" _ host _ refl (
              below "X-Forwarded-Host" "X-Forwarded-For" _ proto _ refl (
                below "X-Forwarded-Proto" "X-Forwarded-For" _ xff _ refl
                  (values-set_same "X-Forwarded-For" _ target))));
        proto = below "Forwarded" "X-Forwarded-Proto" _ port _ refl (
            below "X-Forwarded-Port" "X-Forwarded-Proto" _ host _ refl (
              below "X-Forwarded-Host" "X-Forwarded-Proto" _ proto _ refl
                (values-set_same "X-Forwarded-Proto" _ xff)));
        host = below "Forwarded" "X-Forwarded-Host" _ port _ refl (
            below "X-Forwarded-Port" "X-Forwarded-Host" _ host _ refl
              (values-set_same "X-Forwarded-Host" _ proto));
        port =
            below "Forwarded" "X-Forwarded-Port" _ port _ refl
              (values-set_same "X-Forwarded-Port" _ host);
        forwarded = values-set_same "Forwarded" _ port;
      }

  -- Where the address that is used for the client parses and is in no trusted network: whatever forwarding
  -- headers come with the request and whatever patterns the upstream forwards ("*" included), the
  -- upstream gets one value of each of the five, which depends on none of them but for the address. It
  -- is made of that address, the scheme of the connection and the host that the request names (the
  -- client's own Host).
  pub resolve_headers-IsOwn :
      (patterns : List String) (r : Original) (target : Header) (ip : net.Ip)
      → net.parse_ip (client_of r) ≡ some ip
      → ip_in_nets net ip trusted ≡ false
      → IsOwn r (resolve_headers texts net trusted patterns r target)
  unfolding resolve_headers with_client or_text
  resolve_headers-IsOwn patterns r target ip parsed outside =
      rw (parsed, outside) (set_untrusted-IsOwn r _)

  -- Where the address of the client cannot be parsed, an upstream that forwards every header ("*" first)
  -- gets the forwarding headers as the client has written them: each header but the content type is the
  -- client's.
  pub resolve_headers_unparsed :
      (patterns : List String) (r : Original) (target : Header) (name : String)
      → net.parse_ip (client_of r) ≡ none
      → str_eq "Content-Type" name ≡ false
      → values name (resolve_headers texts net trusted ("*" ∷ patterns) r target)
        ≡ values name r.request.header
  unfolding resolve_headers with_client or_text forward_patterns
  resolve_headers_unparsed patterns r target name parsed apart =
      rw parsed (values-set_other "Content-Type" name _ r.request.header apart)
