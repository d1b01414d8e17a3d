-- ===== src/Router/Outcome.antt =====
-- The replies of flows with one upstream, and of flows with several.
pub mod Bodies
pub mod Aggregated
pub mod Statuses
pub mod Failures
use mathlib.Core.List.{append_assoc, append-nil}
use aastro.Prelude.{
  ℕ, zero, suc, ◌+◌, ◌≡◌, ◌≢◌, ◌≤◌, ◌<◌, refl, sym, ap, ◌∙◌, ◌⊎◌, inl, inr, ◌↔◌, Bool, true, false,
  not, ◌&&◌, ◌||◌, List, [], ◌∷◌, ◌++◌, ltb, map, length, is_empty, arith, Bool-cases,
  if◌then◌else◌, lt→ltb, All, subst, Option, none, some, String, lookup, insert, lookup-insert,
  contains, str_eq, str_eq_iff, str_eq_refl, ◌==◌,
}
use aastro.Header.{Header, values, values_or_nil, first, get, set_header, add_header}
use aastro.UpstreamError.{
  ClientError, unset, UpstreamErrorKind, redirect, client_error, UpstreamError, map_upstream_error,
  is_propagatable, props,
}
use aastro.Response.{to_string, HttpReply, ProblemEncoder, must_marshal}
use aastro.Upstream.{UpstreamResponse}
use aastro.Upstream.Attempt.Response.{Fits, kind_of}
use aastro.Aggregator.{AggregatedResponse}
use aastro.Router.{
  RequestIds, forwards, forward, report, build_proxy_response, build_response, build_response_body,
  resolve_status, status_from_errors, status_for_error, select_primary_error, select_from,
  error_priority, problem_for_errors, problem_json, plain_json, add_partial_errors, with_ids,
}

pub values-set_same : (k v : String) (h : Header) → values k (set_header k v h) ≡ v ∷ []
values-set_same k v h =
    ap values_or_nil (lookup-insert k k (v ∷ []) h)
    ∙ ap (λ b. values_or_nil (if b then some (v ∷ []) else lookup k h)) (str_eq_refl k)

pub values-set_other :
    (k j v : String) (h : Header) → str_eq k j ≡ false → values j (set_header k v h) ≡ values j h
values-set_other k j v h n =
    ap values_or_nil (lookup-insert k j (v ∷ []) h)
    ∙ ap (λ b. values_or_nil (if b then some (v ∷ []) else lookup j h)) n

pub values-add_same :
    (k v : String) (h : Header) → values k (add_header k v h) ≡ values k h ++ v ∷ []
values-add_same k v h =
    ap values_or_nil (lookup-insert k k (values k h ++ v ∷ []) h)
    ∙ ap (λ b. values_or_nil (if b then some (values k h ++ v ∷ []) else lookup k h))
        (str_eq_refl k)

pub values-add_other :
    (k j v : String) (h : Header) → str_eq k j ≡ false → values j (add_header k v h) ≡ values j h
values-add_other k j v h n =
    ap values_or_nil (lookup-insert k j (values k h ++ v ∷ []) h)
    ∙ ap (λ b. values_or_nil (if b then some (values k h ++ v ∷ []) else lookup j h)) n

-- Both identifiers of the request are in the headers.
abbrev pub HasIds : RequestIds → Header → Type 0
HasIds ids h =
    (values "X-Request-Id" h ≡ ids.request_id ∷ [])
    × (values "X-Request-Fingerprint" h ≡ ids.fingerprint ∷ [])

pub with_ids-HasIds : (ids : RequestIds) (h : Header) → HasIds ids (with_ids ids h)
with_ids-HasIds ids h = (
  values-set_other "X-Request-Fingerprint" "X-Request-Id" ids.fingerprint _ refl
      ∙ values-set_same "X-Request-Id" ids.request_id h,
  values-set_same "X-Request-Fingerprint" ids.fingerprint _,
)

pub typed-HasIds :
    (ids : RequestIds) (v : String) (h : Header)
    → HasIds ids h
    → HasIds ids (set_header "Content-Type" v h)
typed-HasIds ids v h (a, b) = (
  values-set_other "Content-Type" "X-Request-Id" v h refl ∙ a,
  values-set_other "Content-Type" "X-Request-Fingerprint" v h refl ∙ b,
)

pub status_for_error_range :
    (e : ClientError) → (401 ≤ status_for_error e) × (status_for_error e ≤ 503)
unfolding status_for_error
status_for_error_range e = ground arith

-- What a client gets of an answer that is forwarded.
pub record IsForwarded (resp : UpstreamResponse) (reply : HttpReply) : Type 0 where
  pub status : reply.status ≡ resp.status
  pub body : reply.body ≡ resp.body
  pub below : reply.status < 500
  pub typed : str_eq (get "Content-Type" reply.headers) "" ≡ false

-- What a client gets of an error that is reported.
pub record IsReported (encoder : ProblemEncoder) (code : ClientError) (reply : HttpReply)
    : Type 0 where
  pub status : (reply.status ≡ 500) ⊎ (reply.status ≡ 502) ⊎ (reply.status ≡ 503)
  pub body : reply.body ≡ must_marshal encoder (problem_for_errors (code ∷ []) reply.status)
  pub typed : values "Content-Type" reply.headers ≡ problem_json ∷ []

forwarded_status :
    (resp : UpstreamResponse)
    → forwards resp.err ≡ true
    → Fits (kind_of resp.err) resp
    → resp.status < 500
unfolding is_propagatable forwards
forwarded_status resp f fits = ground arith

single_status : (c : ClientError) → status_from_errors (c ∷ []) false ≡ status_for_error c
unfolding status_from_errors select_primary_error select_from
single_status c = ap (λ b. status_for_error (if b then c else unset)) (lt→ltb 0 _ (omega arith))

reported_status :
    (e : Option UpstreamError)
    → (let s = status_for_error (map_upstream_error e) in (s ≡ 500) ⊎ (s ≡ 502) ⊎ (s ≡ 503))
unfolding map_upstream_error status_for_error
reported_status e = ground arith

module _ (encoder : ProblemEncoder) (ids : RequestIds) (resp : UpstreamResponse) where
  forward-IsForwarded :
      resp.status < 500
      → IsForwarded resp (forward encoder ids resp) × HasIds ids (forward encoder ids resp).headers
  unfolding forward
  forward-IsForwarded below =
      let headers = with_ids ids resp.headers in
      let has = with_ids-HasIds ids resp.headers in
      elim (Bool-cases (str_eq (get "Content-Type" headers) "")) [
        | inl untyped ↦
            let same = values-set_same "Content-Type" plain_json headers in
            (
              record {
                status = refl;
                body = refl;
                below = below;
                typed = rw untyped (ap (λ vs. str_eq (first vs) "") same);
              },
              rw untyped (typed-HasIds ids plain_json headers has),
            )
        | inr typed ↦ (
          record { status = refl; body = refl; below = below; typed = rw typed typed },
          rw typed has,
        )
      ]

  report-IsReported :
      (e : Option UpstreamError)
      → IsReported encoder (map_upstream_error e) (report encoder ids resp (map_upstream_error e))
        × HasIds ids (report encoder ids resp (map_upstream_error e)).headers
  unfolding report
  report-IsReported e =
      let headers = with_ids ids resp.headers in
      (
        record {
          status = rw (single_status (map_upstream_error e)) (reported_status e);
          body = refl;
          typed = values-set_same "Content-Type" problem_json headers;
        },
        typed-HasIds ids problem_json headers (with_ids-HasIds ids resp.headers),
      )

  -- A flow with one upstream, for a response as an attempt gives it: an answer of the upstream (no error,
  -- or its client error or redirect) is forwarded with its own status, below 500, and its body, and with
  -- a content type; any other error is reported by a problem document that names its one code, with
  -- status 500, 502 or 503. The request's identifiers are on both.
  pub build_proxy_response_lem :
      Fits (kind_of resp.err) resp
      → let reply = build_proxy_response encoder ids resp in
        HasIds ids reply.headers
        × (forwards resp.err ≡ true → IsForwarded resp reply)
        × (forwards resp.err ≡ false → IsReported encoder (map_upstream_error resp.err) reply)
  unfolding build_proxy_response
  build_proxy_response_lem fits = elim (Bool-cases (forwards resp.err)) [
    | inl answer ↦
        let (is, has) = forward-IsForwarded (forwarded_status resp answer fits) in
        rw answer (has, (λ h. is), λ h. cc)
    | inr error ↦ let (is, has) = report-IsReported resp.err in rw error (has, (λ h. cc), λ h. is)
  ]
