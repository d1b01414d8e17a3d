-- ===== src/Upstream/Attempt/Response.antt =====
-- What a response of one attempt looks like.
use aastro.Prelude.{
  ℕ, ◌≡◌, ◌≤◌, ◌<◌, refl, ◌⊎◌, inl, inr, List, [], ◌∷◌, length, String, arith, Bool-cases,
  if◌then◌else◌, Option, none, some, lookup, contains, lookup-insert, is_empty, str_eq_iff,
}
use aastro.Header.{Header}
use aastro.UpstreamError.{
  UpstreamErrorKind, canceled, redirect, client_error, bad_status, read_error, body_too_large,
  UpstreamError, GoError,
}
use aastro.Upstream.{
  UpstreamPolicy, UpstreamResponse, Answer, do_failed, answered, HttpResponse, Stream,
}
use aastro.Upstream.Attempt.{
  classify_do_error, read_body, checked, with_body, receive, filter_headers, unblocked,
}

-- What the rest of the gateway relies on in a response, by its error: the status of an answer of the
-- upstream is in the class that the error says, and any other error comes with no headers and no body.
abbrev pub Fits : Option UpstreamErrorKind → UpstreamResponse → Type 0
Fits none r = r.status < 300
Fits (some redirect) r = (300 ≤ r.status) × (r.status < 400)
Fits (some client_error) r = (400 ≤ r.status) × (r.status < 500)
Fits (some bad_status) r = 500 ≤ r.status
Fits (some _) r = (r.headers ≡ []) × (r.body ≡ [])

abbrev pub kind_of : Option UpstreamError → Option UpstreamErrorKind
kind_of none = none
kind_of (some e) = some e.kind

abbrev pub IsBounded : UpstreamPolicy → UpstreamResponse → Type 0
IsBounded policy r =
    (policy.max_response_body_size ≡ 0) ⊎ (length r.body ≤ policy.max_response_body_size)

checked_bounded :
    (policy : UpstreamPolicy) (s : Stream) (p : List ℕ × Option GoError) (got : List ℕ)
    → checked policy s p ≡ inl got
    → (policy.max_response_body_size ≡ 0) ⊎ (length got ≤ policy.max_response_body_size)
unfolding checked
checked_bounded policy s (xs, some e) got h = cc
checked_bounded policy s (xs, none) got h = ground arith

read_body_kind :
    (policy : UpstreamPolicy) (s : Stream) (e : UpstreamError)
    → read_body policy s ≡ inr e
    → (e.kind ≡ canceled) ⊎ (e.kind ≡ read_error) ⊎ (e.kind ≡ body_too_large)
unfolding read_body
read_body_kind policy s e h = ground arith

Fits-cut :
    (r : UpstreamResponse) (k : UpstreamErrorKind)
    → (k ≡ canceled) ⊎ (k ≡ read_error) ⊎ (k ≡ body_too_large)
    → r.headers ≡ []
    → r.body ≡ []
    → Fits (some k) r
Fits-cut r k (inl e) h b = rw e (h, b)
Fits-cut r k (inr (inl e)) h b = rw e (h, b)
Fits-cut r k (inr (inr e)) h b = rw e (h, b)

with_body-Fits :
    (policy : UpstreamPolicy) (r : HttpResponse) (b : List ℕ ⊎ UpstreamError)
    → ((e : UpstreamError)
        → b ≡ inr e
        → (e.kind ≡ canceled) ⊎ (e.kind ≡ read_error) ⊎ (e.kind ≡ body_too_large))
    → Fits (kind_of (with_body policy r b).err) (with_body policy r b)
unfolding with_body
with_body-Fits policy r (inr e) h = Fits-cut _ e.kind (h e refl) refl refl
with_body-Fits policy r (inl got) h = ground arith

receive-Fits :
    (policy : UpstreamPolicy) (a : Answer)
    → Fits (kind_of (receive policy a).err) (receive policy a)
unfolding receive classify_do_error
receive-Fits policy (do_failed e) = ground arith
receive-Fits policy (answered r) = with_body-Fits policy r _ (read_body_kind policy r.body)

receive-IsBounded : (policy : UpstreamPolicy) (a : Answer) → IsBounded policy (receive policy a)
unfolding receive with_body read_body
receive-IsBounded policy (do_failed e) = ground arith
receive-IsBounded policy (answered r) =
    bounded (read_body policy r.body) (checked_bounded policy r.body _)
  where
    bounded :
        (b : List ℕ ⊎ UpstreamError)
        → ((got : List ℕ)
            → b ≡ inl got
            → (policy.max_response_body_size ≡ 0) ⊎ (length got ≤ policy.max_response_body_size))
        → IsBounded policy (with_body policy r b)
    bounded (inl got) h = h got refl
    bounded (inr e) h = ground arith

-- Whatever `client.Do` gives: a response with no error has a status below 300, one of kind redirect,
-- client_error or bad_status has its status in 300-399, 400-499 or from 500 on, any other error has
-- no headers and no body; and where the policy sets a limit, the body is within it.
pub receive-Fits-IsBounded :
    (policy : UpstreamPolicy) (a : Answer)
    → Fits (kind_of (receive policy a).err) (receive policy a) × IsBounded policy (receive policy a)
receive-Fits-IsBounded policy a = (receive-Fits policy a, receive-IsBounded policy a)

lookup-unblocked :
    (k : String) (bl : List String) (h : Header)
    → lookup k (unblocked bl h) ≡ (if contains bl k then none else lookup k h)
unfolding unblocked lookup
lookup-unblocked k bl [] = ground arith
lookup-unblocked k bl ((j, vs) ∷ h) = elim (Bool-cases (contains bl j)) [
  | inl blocked ↦ ground (arith, str_eq_iff j k, lookup-unblocked k bl h)
  | inr kept ↦
      ground (arith, str_eq_iff j k, lookup-unblocked k bl h, lookup-insert j k vs (unblocked bl h))
]

-- A header of the blacklist is not in the filtered headers, and every other one is there unchanged.
lookup-filter_headers :
    (policy : UpstreamPolicy) (k : String) (h : Header)
    → lookup k (filter_headers policy h)
      ≡ (if contains policy.header_blacklist k then none else lookup k h)
unfolding filter_headers
lookup-filter_headers policy k h = elim (Bool-cases (is_empty policy.header_blacklist)) [
  | inl empty ↦ ground arith
  | inr some_keys ↦ rw some_keys (lookup-unblocked k policy.header_blacklist h)
]
