-- ===== src/Router/Outcome/Aggregated.antt =====
-- The reply of a flow with several upstreams, from the aggregated response on.
use aastro.Prelude.{ℕ, ◌≡◌, refl, sym, ap, ◌∙◌, true, false, List, ◌++◌, map, is_empty, subst}
use aastro.Header.{Header, values, set_header}
use aastro.Response.{to_string, ProblemEncoder}
use aastro.Aggregator.{AggregatedResponse}
use aastro.Router.{
  RequestIds, build_response, build_response_body, resolve_status, problem_json, plain_json,
  with_ids, reply_of,
}
use aastro.Router.Outcome.{HasIds, with_ids-HasIds, typed-HasIds, values-set_same, values-set_other}
use aastro.Router.Outcome.Bodies.{
  HasOwnStatus, resolve_status_body, IsData, IsProblem, IsPartial, partial-HasIds, problem_status,
  clean_status, body_partial, body_problem, body_clean, partial_status, values-add_partial_errors,
  values-add_partial_other,
}

module _ (encoder : ProblemEncoder) (ids : RequestIds) (agg : AggregatedResponse) where
  abbrev start : Header
  start = with_ids ids agg.headers

  built :
      (s : ℕ) (p : Header × List ℕ)
      → resolve_status agg ≡ s
      → build_response_body encoder start agg s ≡ p
      → build_response encoder ids agg ≡ reply_of s p
  unfolding build_response
  built s p e f =
      ap (λ t. reply_of t (build_response_body encoder start agg t)) e ∙ ap (reply_of s) f

  partial_reply : agg.partial ≡ true → IsPartial ids agg (build_response encoder ids agg)
  partial_reply p =
      let typed = set_header "Content-Type" plain_json start in
      let has = typed-HasIds ids plain_json start (with_ids-HasIds ids agg.headers) in
      subst (IsPartial ids agg)
        (sym (built 206 _ (partial_status agg p) (body_partial encoder start agg 206 refl p)))
        (
          record {
            status_is = refl;
            body = refl;
            typed =
                values-add_partial_other "Content-Type" agg.errors typed refl
                ∙ values-set_same "Content-Type" plain_json start;
          },
          partial-HasIds ids agg.errors typed has,
          values-add_partial_errors agg.errors typed
              ∙ ap (λ t. t ++ map to_string agg.errors) (untouched agg.headers),
        )
    where
      untouched :
          (h : Header)
          → values "X-Partial-Errors" (set_header "Content-Type" plain_json (with_ids ids h))
            ≡ values "X-Partial-Errors" h
      untouched h =
          values-set_other "Content-Type" "X-Partial-Errors" plain_json (with_ids ids h) refl
          ∙ values-set_other "X-Request-Fingerprint" "X-Partial-Errors" ids.fingerprint _ refl
          ∙ values-set_other "X-Request-Id" "X-Partial-Errors" ids.request_id h refl

  IsProblem-reply :
      HasOwnStatus agg
      → agg.partial ≡ false
      → is_empty agg.errors ≡ false
      → IsProblem encoder agg (build_response encoder ids agg)
        × HasIds ids (build_response encoder ids agg).headers
  IsProblem-reply own whole errs =
      let s = resolve_status agg in
      let (which, failure) = problem_status agg own whole errs in
      subst (λ r. IsProblem encoder agg r × HasIds ids r.headers)
        (sym (
          built s _ refl
            (body_problem encoder start agg s (resolve_status_body agg own) whole errs)))
        (
          record {
            status_is = which;
            failure = failure;
            body = refl;
            typed = values-set_same "Content-Type" problem_json start;
          },
          typed-HasIds ids problem_json start (with_ids-HasIds ids agg.headers),
        )

  clean_reply :
      agg.partial ≡ false
      → is_empty agg.errors ≡ true
      → agg.status ≡ 0
      → IsData agg 200 (build_response encoder ids agg)
        × HasIds ids (build_response encoder ids agg).headers
  clean_reply whole clean none_own =
      subst (λ r. IsData agg 200 r × HasIds ids r.headers)
        (sym (
          built 200 _ (clean_status agg none_own whole clean)
            (body_clean encoder start agg 200 refl whole clean)))
        (
          record {
            status_is = refl;
            body = refl;
            typed = values-set_same "Content-Type" plain_json start;
          },
          typed-HasIds ids plain_json start (with_ids-HasIds ids agg.headers),
        )

  -- A flow with several upstreams, where the aggregated response has no status of its own or one from
  -- 400 on: a partial result is sent with status 206 and its error codes in "X-Partial-Errors", behind
  -- those that an upstream sent; a failure is sent as a problem document with all its errors and a
  -- status from 400 on; and a result with no errors and no status is sent with status 200. The data is
  -- sent as it is, and the request's identifiers are on every reply.
  pub build_response_lem :
      HasOwnStatus agg
      → let reply = build_response encoder ids agg in
        (agg.partial ≡ true → IsPartial ids agg reply)
        × (agg.partial ≡ false
            → is_empty agg.errors ≡ false
            → IsProblem encoder agg reply × HasIds ids reply.headers)
        × (agg.partial ≡ false
            → is_empty agg.errors ≡ true
            → agg.status ≡ 0
            → IsData agg 200 reply × HasIds ids reply.headers)
  build_response_lem own = (partial_reply, IsProblem-reply own, clean_reply)
