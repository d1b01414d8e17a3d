-- ===== src/Router/Fingerprint.antt =====
-- router.go: the identifiers of a request (`getOrCreateRequestID`, `computeFingerprint`). SHA-256 with the hexadecimal
-- digits, the parsed query and a new UUID are from outside. A map is a list of its entries in the order in which
-- Go happens to range over it.
use Prim.Native.String.{◌++◌ as text_append}
use aastro.Prelude.{
  true, List, [], ◌∷◌, String, str_eq, contains, map, insert, str_eq_iff, if◌then◌else◌, ◌≡◌, refl,
  inl, inr, Bool-cases,
}
use aastro.Prelude.Sorting.{
  sort_texts, Shuffled, none_left, behind, exchanged, followed, same, sort_texts-Shuffled,
}
use aastro.Header.{Header, get}
use aastro.Prelude.Text.{join}

abbrev pub fingerprint_ignored_headers : List String
fingerprint_ignored_headers =
    "User-Agent" ∷ "Cookie" ∷ "Authorization" ∷ "X-Request-Id" ∷ "X-Forwarded-For"
    ∷ "X-Forwarded-Proto" ∷ "X-Forwarded-Host" ∷ "X-Forwarded-Port" ∷ "X-Real-Ip" ∷ "Forwarded"
    ∷ "Host" ∷ "Accept-Encoding" ∷ "Accept-Language" ∷ []

-- The names of a map's keys.
abbrev pub names : Header → List String
names h = map (λ e. e.0) h

pub without_ignored : List String → List String
without_ignored [] = []
without_ignored (name ∷ ns) =
    let rest = without_ignored ns in
    if contains fingerprint_ignored_headers name then rest else name ∷ rest

-- What a request shows of itself. `query` is `URL.Query()`.
pub record Shape : Type 0 where
  pub method : String
  pub header : Header
  pub raw_query : String
  pub query : Header

query_part : Shape → String
query_part r = if str_eq r.raw_query "" then "" else join "," (sort_texts (names r.query))

module _ (digest : String → String) where
  pub compute_fingerprint : Shape → String → String
  compute_fingerprint r flow_path = digest (
      text_append r.method (
        text_append "|" (
          text_append flow_path (
            text_append "|" (
              text_append (join "," (sort_texts (without_ignored (names r.header))))
                (text_append "|" (query_part r)))))))

-- `fresh` is the new UUID.
pub get_or_create_request_id : String → Header → String
get_or_create_request_id fresh h =
    if str_eq (get "X-Request-Id" h) "" then fresh else get "X-Request-Id" h

without_ignored-Shuffled :
    {ns ms : List String} → Shuffled ns ms → Shuffled (without_ignored ns) (without_ignored ms)
unfolding without_ignored
without_ignored-Shuffled none_left = none_left
without_ignored-Shuffled (behind {x} h) =
    elim (Bool-cases (contains fingerprint_ignored_headers x)) [
      | inl e ↦ rw e (without_ignored-Shuffled h)
      | inr e ↦ rw e (behind (without_ignored-Shuffled h))
    ]
without_ignored-Shuffled (exchanged {x} {y} {xs}) =
    elim (Bool-cases (contains fingerprint_ignored_headers x)) [
      | inl e ↦ rw e (
          same (
            if contains fingerprint_ignored_headers y
            then without_ignored xs
            else y ∷ without_ignored xs))
      | inr e ↦ elim (Bool-cases (contains fingerprint_ignored_headers y)) [
        | inl e' ↦ rw (e, e') (same (x ∷ without_ignored xs))
        | inr e' ↦ rw (e, e') exchanged
      ]
    ]
without_ignored-Shuffled (followed h k) =
    followed (without_ignored-Shuffled h) (without_ignored-Shuffled k)

without_ignored-insert :
    (k : String) (vs : List String) (h : Header)
    → contains fingerprint_ignored_headers k ≡ true
    → without_ignored (names (insert k vs h)) ≡ without_ignored (names h)
unfolding without_ignored insert
without_ignored-insert k vs [] ignored = rw ignored refl
without_ignored-insert k vs ((at, old) ∷ h) ignored = elim (Bool-cases (str_eq at k)) [
  | inl e ↦ rw e (rw ((str_eq_iff at k).0 e) refl)
  | inr e ↦ rw e (rw (without_ignored-insert k vs h ignored) refl)
]

-- The fingerprint of a request on a flow is the same for every request with the same method, the same raw query,
-- and the same names of headers and of queries, in whatever order Go ranges over them and whatever
-- their values; and a header that is ignored, set to whatever value, leaves it as it is.
pub compute_fingerprint_lem :
    (digest : String → String) (r s : Shape) (flow_path k : String) (vs : List String)
    → r.method ≡ s.method
    → r.raw_query ≡ s.raw_query
    → Shuffled (names r.header) (names s.header)
    → Shuffled (names r.query) (names s.query)
    → contains fingerprint_ignored_headers k ≡ true
    → (compute_fingerprint digest r flow_path ≡ compute_fingerprint digest s flow_path)
      × (compute_fingerprint digest (record r { header = insert k vs r.header }) flow_path
          ≡ compute_fingerprint digest r flow_path)
unfolding compute_fingerprint query_part
compute_fingerprint_lem digest r s flow_path k vs method raw header query ignored = (
  simp
      (
        method,
        raw,
        sort_texts-Shuffled (without_ignored-Shuffled header),
        sort_texts-Shuffled query,
      )
      refl,
  simp (without_ignored-insert k vs r.header ignored) refl,
)
