-- ===== src/Upstream/Retry/Rounds.antt =====
-- The loop of `callWithRetry`: how often it sends, and that it ends with a response.
use aastro.Prelude.{
  ℕ, zero, suc, ◌+◌, ◌≡◌, ◌≤◌, refl, subst, ◌∙◌, inl, inr, Bool, true, false, not, ◌||◌, length,
  String, arith, Bool-cases, Option, none, some, Option-cases,
}
use aastro.UpstreamError.{GoError}
use aastro.Breaker.{CircuitBreaker}
use aastro.Upstream.{pos, negsuc, HttpUpstream, UpstreamResponse, Exchange}
use aastro.Upstream.Attempt.{do_call}
use aastro.Upstream.Attempt.Effects.{IsOneAttempt, do_call-IsOneAttempt}
use aastro.Upstream.Retry.{
  is_idempotent, should_retry, ask_breaker, count_retry, backoff, Turn, finished, retrying,
  after_call, after_ask, in_context, round, is_last, run_rounds, next_attempt, call_with_retry,
  effective_method,
}

-- What rounds of the loop leave alone, and the number of requests that they may send.
pub record IsWithin (n : ℕ) (u v : HttpUpstream) : Type 0 where
  pub cfg : v.cfg ≡ u.cfg
  pub connections : v.state.active_connections ≡ u.state.active_connections
  pub sends : length v.sent ≤ length u.sent + n

-- A turn that goes on is no last one, and its response is to be retried.
abbrev MayGoOn : Bool → String → HttpUpstream → Turn → Type 0
MayGoOn last method u (finished r) = Unit
MayGoOn last method u (retrying r) =
    (last ≡ false) × (should_retry method r u.cfg.policy.retry ≡ true)

after_call_lem :
    (last : Bool) (method : String) (x : Exchange) (u v : HttpUpstream) (r : UpstreamResponse)
    → let (w, t) = after_call last method u.cfg.policy.retry x (v, r) in
      (w ≡ v) × MayGoOn last method u t
unfolding after_call
after_call_lem last method x u v r =
    elim (Bool-cases (last || not (should_retry method r u.cfg.policy.retry))) [
      | inl ends ↦ rw ends (refl, tt)
      | inr goes ↦ elim (Option-cases (backoff u.cfg.policy.retry x)) [
        | inl waited ↦ rw (goes, waited) (refl, ground arith)
        | inr (e, stopped) ↦ rw (goes, stopped) (refl, tt)
      ]
    ]

ask_breaker_keeps :
    (b : Option CircuitBreaker) (now : ℕ) (u : HttpUpstream)
    → (let v = (ask_breaker b now u).0 in (v.cfg ≡ u.cfg) × (v.state ≡ u.state) × (v.sent ≡ u.sent))
unfolding ask_breaker
ask_breaker_keeps none now u = (refl, refl, refl)
ask_breaker_keeps (some b) now u = (refl, refl, refl)

one_attempt-IsWithin : (n : ℕ) {u v : HttpUpstream} → IsOneAttempt u v → IsWithin (suc n) u v
one_attempt-IsWithin n {u} {v} a = record {
  cfg = a.cfg;
  connections = a.connections;
  sends = elim a.sends [ inl same ↦ rw same (omega arith) | inr (i, one) ↦ rw one (omega arith) ];
}

-- A step that changes nothing of what matters here.
unsent-IsWithin :
    (n : ℕ) {u v : HttpUpstream}
    → (v.cfg ≡ u.cfg) × (v.state ≡ u.state) × (v.sent ≡ u.sent)
    → IsWithin n u v
unsent-IsWithin n (c, s, l) = ground arith

IsWithin-trans :
    {m n : ℕ} {u v w : HttpUpstream} → IsWithin m u v → IsWithin n v w → IsWithin (m + n) u w
IsWithin-trans a b = ground arith

pub count_retry_keeps :
    (k : ℕ) (u : HttpUpstream)
    → (let v = count_retry k u in (v.cfg ≡ u.cfg) × (v.state ≡ u.state) × (v.sent ≡ u.sent))
count_retry_keeps k u = ground arith

after_ask_lem :
    (last : Bool) (method : String) (x : Exchange) (u : HttpUpstream) (allowed : Bool)
    → let (v, t) = after_ask last method x (u, allowed) in IsWithin 1 u v × MayGoOn last method u t
unfolding after_ask
after_ask_lem last method x u false = (unsent-IsWithin 1 (refl, refl, refl), tt)
after_ask_lem last method x u true =
    let (same, goes) = after_call_lem last method x u (do_call x u).0 (do_call x u).1 in
    (rw same (one_attempt-IsWithin 0 (do_call-IsOneAttempt x u)), goes)

may_go_on :
    (last : Bool) (method : String) (u v : HttpUpstream) (t : Turn)
    → u.cfg ≡ v.cfg
    → MayGoOn last method u t
    → MayGoOn last method v t
may_go_on last method u v (finished r) e g = tt
may_go_on last method u v (retrying r) e g = rw (← e) g

in_context_lem :
    (ctx : Option GoError) (last : Bool) (method : String) (x : Exchange) (u : HttpUpstream)
    → let (v, t) = in_context ctx last method x u in IsWithin 1 u v × MayGoOn last method u t
unfolding in_context
in_context_lem (some e) last method x u = (unsent-IsWithin 1 (refl, refl, refl), tt)
in_context_lem none last method x u =
    let asked = ask_breaker_keeps u.circuit_breaker x.now u in
    let v = (ask_breaker u.circuit_breaker x.now u).0 in
    let (within, goes) = after_ask_lem last method x v (ask_breaker u.circuit_breaker x.now u).1 in
    (IsWithin-trans (unsent-IsWithin 0 asked) within, may_go_on last method v u _ asked.0 goes)

-- One round sends at most one request, and goes on only with a response that is to be retried.
round_lem :
    (last : Bool) (k : ℕ) (method : String) (x : Exchange) (u : HttpUpstream)
    → let (v, t) = round last k method x u in IsWithin 1 u v × MayGoOn last method u t
unfolding round
round_lem last k method x u =
    let counted = count_retry_keeps k u in
    let (within, goes) = in_context_lem x.ctx_err last method x (count_retry k u) in
    (
      IsWithin-trans (unsent-IsWithin 0 counted) within,
      may_go_on last method (count_retry k u) u _ counted.0 goes,
    )

-- What the loop promises with `n` sends allowed and from the upstream `u` on: a response, and no
-- more than those sends.
abbrev Delivers : ℕ → HttpUpstream → HttpUpstream × Option UpstreamResponse → Type 0
Delivers n u (v, resp) = IsWithin n u v × ((r : UpstreamResponse) × (resp ≡ some r))

next_attempt-Delivers :
    (n : ℕ) (more : UpstreamResponse → HttpUpstream → HttpUpstream × Option UpstreamResponse)
    (u v : HttpUpstream) (t : Turn)
    → IsWithin 1 u v
    → ((r : UpstreamResponse) → t ≡ retrying r → Delivers n v (more r v))
    → Delivers (suc n) u (next_attempt more (v, t))
next_attempt-Delivers n more u v (finished r) w go =
    (record { cfg = w.cfg; connections = w.connections; sends = omega (arith, w.sends) }, (r, refl))
next_attempt-Delivers n more u v (retrying r) w go =
    let (within, delivered) = go r refl in
    (
      record {
        cfg = within.cfg ∙ w.cfg;
        connections = within.connections ∙ w.connections;
        sends = omega (arith, w.sends, within.sends);
      },
      delivered,
    )

true_is_last :
    (method : String) (u : HttpUpstream) (r : UpstreamResponse)
    → (true ≡ false) × (should_retry method r u.cfg.policy.retry ≡ true)
    → ⊥
true_is_last method u r (e, s) = cc

run_rounds-Delivers :
    (k attempt : ℕ) (method : String) (world : ℕ → Exchange) (resp : Option UpstreamResponse)
    (u : HttpUpstream)
    → Delivers (suc k) u (run_rounds (suc k) attempt method world resp u)
unfolding run_rounds
run_rounds-Delivers zero attempt method world resp u =
    let (within, goes) = round_lem true attempt method (world attempt) u in
    next_attempt-Delivers 0 (λ r v. run_rounds 0 (attempt + 1) method world (some r) v) u _ _ within
      (λ r e. absurd (true_is_last method u r (subst (MayGoOn true method u) e goes)))
run_rounds-Delivers (suc k) attempt method world resp u =
    let (within, goes) = round_lem false attempt method (world attempt) u in
    next_attempt-Delivers (suc k) (λ r v. run_rounds (suc k) (attempt + 1) method world (some r) v)
      u _ _ within (λ r e. run_rounds-Delivers k (attempt + 1) method world (some r) _)

not_idempotent :
    (last : Bool) (method : String) (u : HttpUpstream) (r : UpstreamResponse)
    → is_idempotent method ≡ false
    → MayGoOn last method u (retrying r)
    → ⊥
unfolding should_retry
not_idempotent last method u r n (_, s) = ground arith

run_rounds-Delivers_once :
    (k attempt : ℕ) (method : String) (world : ℕ → Exchange) (resp : Option UpstreamResponse)
    (u : HttpUpstream)
    → is_idempotent method ≡ false
    → Delivers 1 u (run_rounds (suc k) attempt method world resp u)
unfolding run_rounds
run_rounds-Delivers_once k attempt method world resp u n =
    let (within, goes) = round_lem (is_last k) attempt method (world attempt) u in
    next_attempt-Delivers 0 (λ r v. run_rounds k (attempt + 1) method world (some r) v) u _ _ within
      (λ r e.
        absurd
          (not_idempotent (is_last k) method u r n (subst (MayGoOn (is_last k) method u) e goes)))

-- With `maxRetries` at least 0 the retried call ends with a response after at most `maxRetries` + 1
-- requests, and after at most one if the method is not idempotent.
pub call_with_retry-Delivers :
    (n : ℕ) (original : String) (world : ℕ → Exchange) (u : HttpUpstream)
    → u.cfg.policy.retry.max_retries ≡ pos n
    → Delivers (suc n) u (call_with_retry original world u)
      × (is_idempotent (effective_method u.cfg original) ≡ false
          → Delivers 1 u (call_with_retry original world u))
unfolding call_with_retry
call_with_retry-Delivers n original world u e = simp e (
  run_rounds-Delivers n 0 (effective_method u.cfg original) world none u,
  run_rounds-Delivers_once n 0 (effective_method u.cfg original) world none u,
)

-- With a negative `maxRetries` the loop makes no round, and leaves no response.
pub call_with_retry-negsuc :
    (n : ℕ) (original : String) (world : ℕ → Exchange) (u : HttpUpstream)
    → u.cfg.policy.retry.max_retries ≡ negsuc n
    → call_with_retry original world u ≡ (u, none)
unfolding call_with_retry run_rounds
call_with_retry-negsuc n original world u e = simp e refl
