-- ===== src/Router/Outcome/Bodies.antt =====
-- Status and body of the reply to an aggregated response.
use mathlib.Core.Bool.{and-false}
use mathlib.Core.List.{append_assoc, append-nil}
use aastro.Prelude.{
  ℕ, ◌≡◌, ◌≤◌, refl, sym, ap, ◌∙◌, ◌⊎◌, inl, inr, true, false, ◌||◌, List, [], ◌∷◌, ◌++◌, ltb, map,
  length, is_empty, arith, String, str_eq, ◌==◌,
}
use aastro.Header.{Header, values, set_header, add_header}
use aastro.UpstreamError.{ClientError}
use aastro.Response.{to_string, HttpReply, ProblemEncoder, must_marshal}
use aastro.Aggregator.{AggregatedResponse}
use aastro.Router.{
  RequestIds, build_response_body, resolve_status, status_from_errors, select_primary_error,
  problem_for_errors, problem_json, plain_json, add_partial_errors,
}
use aastro.Router.Outcome.{HasIds, values-add_same, values-add_other, status_for_error_range}

pub values-add_partial_errors :
    (es : List ClientError) (h : Header)
    → values "X-Partial-Errors" (add_partial_errors es h)
      ≡ values "X-Partial-Errors" h ++ map to_string es
unfolding add_partial_errors
values-add_partial_errors [] h = sym (append-nil _)
values-add_partial_errors (e ∷ es) h =
    let more = add_header "X-Partial-Errors" (to_string e) h in
    values-add_partial_errors es more
    ∙ ap (λ t. t ++ map to_string es) (values-add_same "X-Partial-Errors" (to_string e) h)
    ∙ append_assoc (values "X-Partial-Errors" h) (to_string e ∷ []) (map to_string es)

pub values-add_partial_other :
    (j : String) (es : List ClientError) (h : Header)
    → str_eq "X-Partial-Errors" j ≡ false
    → values j (add_partial_errors es h) ≡ values j h
unfolding add_partial_errors
values-add_partial_other j [] h n = refl
values-add_partial_other j (e ∷ es) h n =
    values-add_partial_other j es (add_header "X-Partial-Errors" (to_string e) h) n
    ∙ values-add_other "X-Partial-Errors" j (to_string e) h n

-- The status of an aggregated response is 0 where it has none, and else that of a client error.
abbrev pub HasOwnStatus : AggregatedResponse → Type 0
HasOwnStatus agg = (agg.status ≡ 0) ⊎ (400 ≤ agg.status)

pub status_from_errors_range :
    (errors : List ClientError)
    → let s = status_from_errors errors false in
      ((s ≡ 200) × (is_empty errors ≡ true)) ⊎ ((401 ≤ s) × (s ≤ 503) × (is_empty errors ≡ false))
unfolding status_from_errors
status_from_errors_range [] = inl (refl, refl)
status_from_errors_range (e ∷ es) =
    let (lo, hi) = status_for_error_range (select_primary_error (e ∷ es)) in inr (lo, hi, refl)

-- A reply with a body is never one of the statuses that forbid it.
pub resolve_status_body :
    (agg : AggregatedResponse)
    → HasOwnStatus agg
    → (resolve_status agg == 204 || resolve_status agg == 304) ≡ false
unfolding resolve_status
resolve_status_body agg own = ground (arith, status_from_errors_range agg.errors)

-- A reply with the aggregated data.
pub record IsData (agg : AggregatedResponse) (status : ℕ) (reply : HttpReply) : Type 0 where
  pub status_is : reply.status ≡ status
  pub body : reply.body ≡ agg.json
  pub typed : values "Content-Type" reply.headers ≡ plain_json ∷ []

-- A reply that is a problem document with all the errors.
pub record IsProblem (encoder : ProblemEncoder) (agg : AggregatedResponse) (reply : HttpReply)
    : Type 0 where
  pub status_is : (reply.status ≡ agg.status) ⊎ (reply.status ≡ status_from_errors agg.errors false)
  pub failure : 400 ≤ reply.status
  pub body : reply.body ≡ must_marshal encoder (problem_for_errors agg.errors reply.status)
  pub typed : values "Content-Type" reply.headers ≡ problem_json ∷ []

pub partial-HasIds :
    (ids : RequestIds) (es : List ClientError) (h : Header)
    → HasIds ids h
    → HasIds ids (add_partial_errors es h)
partial-HasIds ids es h (a, b) = (
  values-add_partial_other "X-Request-Id" es h refl ∙ a,
  values-add_partial_other "X-Request-Fingerprint" es h refl ∙ b,
)

has_some : (es : List ClientError) → is_empty es ≡ false → ltb 0 (length es) ≡ true
has_some [] h = cc
has_some (e ∷ es) h = ground arith

has_none : (es : List ClientError) → is_empty es ≡ true → ltb 0 (length es) ≡ false
has_none [] h = refl
has_none (e ∷ es) h = cc

pub problem_status :
    (agg : AggregatedResponse)
    → HasOwnStatus agg
    → agg.partial ≡ false
    → is_empty agg.errors ≡ false
    → ((resolve_status agg ≡ agg.status)
        ⊎ (resolve_status agg ≡ status_from_errors agg.errors false))
      × (400 ≤ resolve_status agg)
unfolding resolve_status
problem_status agg own whole some_errors = ground (arith, status_from_errors_range agg.errors)

pub clean_status :
    (agg : AggregatedResponse)
    → agg.status ≡ 0
    → agg.partial ≡ false
    → is_empty agg.errors ≡ true
    → resolve_status agg ≡ 200
unfolding resolve_status status_from_errors
clean_status agg none_own whole clean = ground arith

module _ (encoder : ProblemEncoder) (h : Header) (agg : AggregatedResponse) (s : ℕ) where
  pub body_partial :
      (s == 204 || s == 304) ≡ false
      → agg.partial ≡ true
      → build_response_body encoder h agg s
        ≡ (add_partial_errors agg.errors (set_header "Content-Type" plain_json h), agg.json)
  unfolding build_response_body
  body_partial t p = simp (t, p, and-false) refl

  pub body_problem :
      (s == 204 || s == 304) ≡ false
      → agg.partial ≡ false
      → is_empty agg.errors ≡ false
      → build_response_body encoder h agg s ≡ (
        set_header "Content-Type" problem_json h,
        must_marshal encoder (problem_for_errors agg.errors s),
      )
  unfolding build_response_body
  body_problem t p e = simp (t, p, has_some agg.errors e) refl

  pub body_clean :
      (s == 204 || s == 304) ≡ false
      → agg.partial ≡ false
      → is_empty agg.errors ≡ true
      → build_response_body encoder h agg s ≡ (set_header "Content-Type" plain_json h, agg.json)
  unfolding build_response_body
  body_clean t p e = simp (t, p, has_none agg.errors e) refl

pub partial_status : (agg : AggregatedResponse) → agg.partial ≡ true → resolve_status agg ≡ 206
unfolding resolve_status
partial_status agg p = simp p refl

-- A reply with the data and the status 206, with the error codes in "X-Partial-Errors".
abbrev pub IsPartial : RequestIds → AggregatedResponse → HttpReply → Type 0
IsPartial ids agg reply =
    IsData agg 206 reply
    × HasIds ids reply.headers
    × (values "X-Partial-Errors" reply.headers
        ≡ values "X-Partial-Errors" agg.headers ++ map to_string agg.errors)
