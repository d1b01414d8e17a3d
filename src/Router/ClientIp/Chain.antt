-- ===== src/Router/ClientIp/Chain.antt =====
-- Which part of `X-Forwarded-For` is the client's address.
use Prim.Native.Char.{Char, code}
use Prim.Native.String.{[] as empty_text, ◌∷◌ as char_then, ◌++◌ as text_append}
use text.Mathlib.TextLemmas.{nil-append, cons-append, cons≢nil}
use aastro.Prelude.{
  ◌==◌, ◌≡◌, ◌≢◌, refl, ap, ◌∙◌, arith, true, false, List, [], ◌∷◌, ◌++◌, some, String, str_eq, All,
  inl, inr, Bool-cases, str_eq_iff,
}
use Prim.{⊥}
use aastro.Header.{get}
use aastro.Router.ClientIp.{
  Net, Request, trim_space, onto_first, split_comma, onward, client, ip_in_nets, remote_ip, hop,
  walk, from_walk, forwarded_walk, from_peer, extract_client_ip,
}

abbrev HasParts : List String → Type 0
HasParts [] = ⊥
HasParts (p ∷ ps) = Unit

onto_first-HasParts : (c : Char) (ps : List String) → HasParts (onto_first c ps)
onto_first-HasParts c [] = tt
onto_first-HasParts c (p ∷ ps) = tt

split_comma-HasParts : (s : String) → HasParts (split_comma s)
unfolding split_comma
split_comma-HasParts empty_text = tt
split_comma-HasParts (char_then c s) = elim (Bool-cases (code c == 44)) [
  | inl e ↦ simp e tt
  | inr e ↦ simp e (onto_first-HasParts c (split_comma s))
]

onto_first-append :
    (c : Char) (xs ys : List String) → HasParts xs → onto_first c (xs ++ ys) ≡ onto_first c xs ++ ys
onto_first-append c [] ys h = elim h [ ]
onto_first-append c (x ∷ xs) ys h = refl

-- The parts of a text on both sides of a comma.
split_comma-append :
    (s t : String)
    → split_comma (text_append s (text_append "," t)) ≡ split_comma s ++ split_comma t
unfolding split_comma
split_comma-append empty_text t =
    let step : split_comma (text_append "," t) ≡ "" ∷ split_comma t =
      rw cons-append (rw nil-append refl) in
    rw nil-append step
split_comma-append (char_then c s) t =
    let rest = split_comma-append s t in
    let onto = onto_first-append c (split_comma s) (split_comma t) (split_comma-HasParts s) in
    rw cons-append (elim (Bool-cases (code c == 44)) [
      | inl e ↦ simp e (ap (λ ps. "" ∷ ps) rest)
      | inr e ↦ simp e (ap (onto_first c) rest ∙ onto)
    ])

pub non_empty : (c : Char) (s : String) → str_eq (char_then c s) "" ≡ false
non_empty c s =
    let proper : char_then c s ≢ "" = λ e. cons≢nil e in
    ground (arith, str_eq_iff (char_then c s) "", proper)

append-non_empty : (s t : String) → str_eq (text_append s (text_append "," t)) "" ≡ false
append-non_empty empty_text t = rw nil-append (rw cons-append (non_empty _ _))
append-non_empty (char_then c s) t = rw cons-append (non_empty _ _)

module _ (net : Net) (trusted : List net.Network) where
  open net use {Ip, parse_ip, ip_text}

  -- A part that holds the address of a trusted proxy.
  abbrev IsProxy : String → Type 0
  IsProxy p = hop net trusted (parse_ip (trim_space p)) ≡ onward

  walk-proxies : (ps : List String) → All IsProxy ps → walk net trusted ps ≡ onward
  unfolding walk
  walk-proxies [] h = refl
  walk-proxies (p ∷ ps) (h, hs) = rw (walk-proxies ps hs) h

  walk-append :
      (ip : Ip) (ps qs : List String)
      → walk net trusted qs ≡ client ip
      → walk net trusted (ps ++ qs) ≡ client ip
  unfolding walk
  walk-append ip [] qs h = h
  walk-append ip (p ∷ ps) qs h = rw (walk-append ip ps qs h) refl

  -- The header ends, from the client's address on, with what the trusted proxies have written.
  pub record EndsWith (ip : Ip) (right : String) : Type 0 where
    pub entry : String
    pub proxies : List String
    pub parts : split_comma right ≡ entry ∷ proxies
    pub address : parse_ip (trim_space entry) ≡ some ip
    pub outside : ip_in_nets net ip trusted ≡ false
    pub all_proxies : All IsProxy proxies

  walk-EndsWith :
      (ip : Ip) (right : String)
      → EndsWith ip right
      → walk net trusted (split_comma right) ≡ client ip
  walk-EndsWith ip right e =
      let tail = walk-proxies e.proxies e.all_proxies in
      rw e.parts (unfold walk hop in ground (arith, tail, e.address, e.outside))

  -- The address of the client cannot be forged: where a request comes from a trusted proxy and its
  -- `X-Forwarded-For` ends with an address outside the trusted networks and then trusted proxies only,
  -- the client is that address, whatever the client itself has written to the left of it.
  pub extract_client_ip-unforged :
      (r : Request) (peer ip : Ip) (left right : String)
      → remote_ip net r ≡ some peer
      → ip_in_nets net peer trusted ≡ true
      → get "X-Forwarded-For" r.header ≡ text_append left (text_append "," right)
      → EndsWith ip right
      → extract_client_ip net trusted r ≡ ip_text ip
  unfolding extract_client_ip from_peer forwarded_walk
  extract_client_ip-unforged r peer ip left right from proxy header ends =
      rw
        (
          from,
          proxy,
          header,
          append-non_empty left right,
          split_comma-append left right,
          walk-append ip (split_comma left) (split_comma right) (walk-EndsWith ip right ends),
        )
        (unfold from_walk in refl)
