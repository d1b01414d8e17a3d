-- ===== src/Upstream/Call/Policy.antt =====
-- Whole calls: that they return, how often they send, and what the policy makes of a response.
use aastro.Prelude.{
  ℕ, suc, ◌+◌, ◌≡◌, ◌≤◌, refl, sym, ap, subst, ◌∙◌, ◌⊎◌, inl, inr, ◌↔◌, true, false, String, length,
  arith, Bool-cases, Option, none, some, is_empty,
}
use aastro.UpstreamError.{
  UpstreamErrorKind, redirect, client_error, policy_violation, UpstreamError, is_status_failure,
}
use aastro.Upstream.{ℤ, pos, negsuc, HttpUpstream, UpstreamResponse, Exchange}
use aastro.Upstream.Attempt.Response.{kind_of}
use aastro.Upstream.Retry.{is_idempotent, effective_method}
use aastro.Upstream.Retry.Rounds.{IsWithin, call_with_retry-Delivers, call_with_retry-negsuc}
use aastro.Upstream.Call.{
  update_breaker, update_circuit_breaker, exempt, violates, violated, apply_policy, settle, call,
}

update-IsWithin :
    (now : ℕ) (r : UpstreamResponse) (u : HttpUpstream)
    → (let v = update_circuit_breaker now r u in
        (v.cfg ≡ u.cfg) × (v.state ≡ u.state) × (v.sent ≡ u.sent))
unfolding update_circuit_breaker update_breaker
update-IsWithin now r u = ground arith

apply_policy_keeps :
    (r : UpstreamResponse) (u : HttpUpstream)
    → (let v = (apply_policy (u, r)).0 in
        (v.cfg ≡ u.cfg)
        × (v.state ≡ u.state)
        × (v.sent ≡ u.sent)
        × (v.circuit_breaker ≡ u.circuit_breaker))
unfolding apply_policy
apply_policy_keeps r u = ground arith

-- The kinds of response that a client may get as the upstream's own answer.
abbrev IsAnswer : Option UpstreamErrorKind → Type 0
IsAnswer k = (k ≡ none) ⊎ (k ≡ some client_error) ⊎ (k ≡ some redirect)

-- The response after the policy, by the one before: its status, headers and body are the same; an
-- answer of the upstream that passes has a body if one is required; and the kind of error is the same
-- or has become a policy violation.
pub record Settles (u : HttpUpstream) (r r' : UpstreamResponse) : Type 0 where
  pub status : r'.status ≡ r.status
  pub headers : r'.headers ≡ r.headers
  pub body : r'.body ≡ r.body
  pub required :
      IsAnswer (kind_of r'.err) → u.cfg.policy.require_body ≡ true → is_empty r'.body ≡ false
  pub kind : (kind_of r'.err ≡ kind_of r.err) ⊎ (kind_of r'.err ≡ some policy_violation)

violated_kind :
    (e : Option UpstreamError)
    → (kind_of (violated e) ≡ kind_of e) ⊎ (kind_of (violated e) ≡ some policy_violation)
unfolding violated
violated_kind none = ground arith
violated_kind (some e) = ground arith

violated-IsAnswer : (e : Option UpstreamError) → IsAnswer (kind_of (violated e)) → ⊥
unfolding violated
violated-IsAnswer none h = ground arith
violated-IsAnswer (some e) h = ground arith

passing_body :
    (u : HttpUpstream) (r : UpstreamResponse)
    → violates u.cfg.policy r ≡ false
    → IsAnswer (kind_of r.err)
    → u.cfg.policy.require_body ≡ true
    → is_empty r.body ≡ false
unfolding violates exempt is_status_failure
passing_body u r v a q = ground arith

policy-Settles : (r : UpstreamResponse) (u : HttpUpstream) → Settles u r (apply_policy (u, r)).1
unfolding apply_policy
policy-Settles r u = elim (Bool-cases (violates u.cfg.policy r)) [
  | inl bad ↦ rw bad (record {
    status = refl;
    headers = refl;
    body = refl;
    required = λ a q. absurd (violated-IsAnswer r.err a);
    kind = violated_kind r.err;
  })
  | inr fine ↦ rw fine (record {
    status = refl;
    headers = refl;
    body = refl;
    required = passing_body u r fine;
    kind = inl refl;
  })
]

Settles-before :
    {u w : HttpUpstream} {r r' : UpstreamResponse} → w.cfg ≡ u.cfg → Settles w r r' → Settles u r r'
Settles-before c s = record {
  status = s.status;
  headers = s.headers;
  body = s.body;
  required = λ a q. s.required a (ap (λ g. g.policy.require_body) c ∙ q);
  kind = s.kind;
}

-- The outcome of a call, from what `callWithRetry` leaves.
pub settle-some :
    (now : ℕ) (u : HttpUpstream) (r : UpstreamResponse)
    → (let (v, r') = settle now (u, some r) in
        (v.cfg ≡ u.cfg)
        × (v.state ≡ u.state)
        × (v.sent ≡ u.sent)
        × ((checked : UpstreamResponse) × (r' ≡ some checked) × Settles u r checked))
unfolding settle
settle-some now u r =
    let w = update_circuit_breaker now r u in
    let updated = update-IsWithin now r u in
    let kept = apply_policy_keeps r w in
    (
      kept.0 ∙ updated.0,
      kept.1 ∙ updated.1,
      kept.2 ∙ updated.2,
      ((apply_policy (w, r)).1, refl, Settles-before updated.0 (policy-Settles r w)),
    )

-- What a call does to the upstream and gives back, with at most `n` requests.
pub record IsCall (n : ℕ) (u : HttpUpstream) (p : HttpUpstream × Option UpstreamResponse)
    : Type 0 where
  pub cfg : p.0.cfg ≡ u.cfg
  pub connections : p.0.state.active_connections ≡ u.state.active_connections
  pub sends : length p.0.sent ≤ length u.sent + n
  pub response : UpstreamResponse
  pub returned : p.1 ≡ some response
  pub required :
      IsAnswer (kind_of response.err)
      → u.cfg.policy.require_body ≡ true
      → is_empty response.body ≡ false

settle-IsCall :
    (n now : ℕ) (u : HttpUpstream) (p : HttpUpstream × Option UpstreamResponse)
    (r : UpstreamResponse)
    → IsWithin n u p.0
    → p.1 ≡ some r
    → IsCall n u (settle now p)
settle-IsCall n now u (v, o) r w e =
    let (c, s, l, (checked, returned, settled)) = settle-some now v r in
    subst (λ (x : Option UpstreamResponse). IsCall n u (settle now (v, x))) (sym e)
      (record {
        cfg = c ∙ w.cfg;
        connections = ap (λ t. t.active_connections) s ∙ w.connections;
        sends = rw l w.sends;
        response = checked;
        returned = returned;
        required = (Settles-before {u = u} {w = v} w.cfg settled).required;
      })

-- With `maxRetries` at least 0 a call returns a response after at most `maxRetries` + 1 requests, and
-- after at most one if the method is not idempotent; every connection that it counted is given back;
-- and if the policy requires a body, a response with no error or with the upstream's client error or
-- redirect has one.
pub call-IsCall :
    (n : ℕ) (original : String) (world : ℕ → Exchange) (now : ℕ) (u : HttpUpstream)
    → u.cfg.policy.retry.max_retries ≡ pos n
    → IsCall (suc n) u (call original world now u)
      × (is_idempotent (effective_method u.cfg original) ≡ false
          → IsCall 1 u (call original world now u))
unfolding call
call-IsCall n original world now u m =
    let ((within, (r, e)), once) = call_with_retry-Delivers n original world u m in
    (
      settle-IsCall (suc n) now u _ r within e,
      λ i. let (within', (r', e')) = once i in settle-IsCall 1 now u _ r' within' e',
    )

call-negsuc :
    (n : ℕ) (original : String) (world : ℕ → Exchange) (now : ℕ) (u : HttpUpstream)
    → u.cfg.policy.retry.max_retries ≡ negsuc n
    → call original world now u ≡ (u, none)
unfolding call settle
call-negsuc n original world now u m = rw (call_with_retry-negsuc n original world u m) refl

-- A call panics, at the nil response that its loop leaves, exactly when `maxRetries` is negative.
pub call_panics_iff :
    (original : String) (world : ℕ → Exchange) (now : ℕ) (u : HttpUpstream)
    → ((call original world now u).1 ≡ none)
      ↔ ((n : ℕ) × (u.cfg.policy.retry.max_retries ≡ negsuc n))
call_panics_iff original world now u = (
  λ e. by_sign u.cfg.policy.retry.max_retries refl e,
  λ (n, m). ap (λ p. p.1) (call-negsuc n original world now u m),
)
  where
    by_sign :
        (i : ℤ)
        → u.cfg.policy.retry.max_retries ≡ i
        → (call original world now u).1 ≡ none
        → (n : ℕ) × (u.cfg.policy.retry.max_retries ≡ negsuc n)
    by_sign (pos n) m e = cc ((call-IsCall n original world now u m).0.returned)
    by_sign (negsuc n) m e = (n, m)
