-- ===== src/Upstream/Retry/Gate.antt =====
-- Rounds of the loop under the circuit breaker.
use aastro.Prelude.{
  ℕ, ◌≡◌, refl, sym, ap, subst, ◌∙◌, ◌⊎◌, inl, inr, Bool, true, false, String, arith, Option, none,
  some,
}
use aastro.UpstreamError.{GoError, UpstreamError, props, canceled, circuit_open}
use aastro.Breaker.{CircuitBreaker, allow}
use aastro.Upstream.{
  RetryPolicy, HttpUpstream, UpstreamConfig, UpstreamResponse, Exchange, DoError, do_failed,
  failed_response,
}
use aastro.Upstream.Attempt.{do_call, receive, classify_do_error}
use aastro.Upstream.Attempt.Effects.{do_call-IsOneAttempt, do_call-receive}
use aastro.Upstream.Retry.{
  is_idempotent, should_retry, retry_response, by_eligibility, ask_breaker, count_retry, backoff,
  Turn, finished, retrying, after_call, after_ask, in_context, round, report_breaker,
}
use aastro.Upstream.Retry.Rounds.{count_retry_keeps}

-- An attempt that the upstream does not answer: the request is built, `client.Do` fails by a timeout
-- or a connection error, and the context lives on through the backoff.
pub record IsUnanswered (x : Exchange) : Type 0 where
  pub alive : x.ctx_err ≡ none
  pub built : x.request_err ≡ none
  pub waited : x.backoff_err ≡ none
  pub error : DoError
  pub failed : x.answer ≡ do_failed error
  pub not_canceled : error.is_canceled ≡ false

-- The breaker after a round, its configuration, and how the round ends.
abbrev Turns : HttpUpstream → CircuitBreaker → Turn → HttpUpstream × Turn → Type 0
Turns u b t (v, t') = (v.circuit_breaker ≡ some b) × (v.cfg ≡ u.cfg) × (t' ≡ t)

should_retry-unanswered :
    (method : String) (u : HttpUpstream) (x : Exchange)
    → is_idempotent method ≡ true
    → IsUnanswered x
    → should_retry method (receive u.cfg.policy x.answer) u.cfg.policy.retry ≡ true
unfolding should_retry retry_response by_eligibility receive classify_do_error props
should_retry-unanswered method u x i f = ground arith

backoff-none : (retry : RetryPolicy) (x : Exchange) → x.backoff_err ≡ none → backoff retry x ≡ none
backoff-none retry x e = ground arith

after_call-retrying :
    (method : String) (retry : RetryPolicy) (x : Exchange) (u : HttpUpstream) (r : UpstreamResponse)
    → should_retry method r retry ≡ true
    → x.backoff_err ≡ none
    → after_call false method retry x (u, r) ≡ (u, retrying r)
unfolding after_call
after_call-retrying method retry x u r s w = simp (s, backoff-none retry x w) refl

after_ask-unanswered :
    (method : String) (x : Exchange) (u : HttpUpstream)
    → is_idempotent method ≡ true
    → IsUnanswered x
    → after_ask false method x (u, true)
      ≡ ((do_call x u).0, retrying (receive u.cfg.policy x.answer))
unfolding after_ask
after_ask-unanswered method x u i f =
    let same = do_call-receive x u f.built in
    ap (λ r. after_call false method u.cfg.policy.retry x ((do_call x u).0, r)) same
    ∙ after_call-retrying method u.cfg.policy.retry x (do_call x u).0 _
        (should_retry-unanswered method u x i f) f.waited

count_retry-breaker :
    (k : ℕ) (u : HttpUpstream) → (count_retry k u).circuit_breaker ≡ u.circuit_breaker
count_retry-breaker k u = ground arith

ask_breaker-some :
    (ob : Option CircuitBreaker) (b c : CircuitBreaker) (now : ℕ) (u : HttpUpstream)
    (allowed : Bool)
    → ob ≡ some b
    → allow now b ≡ (c, allowed)
    → ask_breaker ob now u ≡ (record u { circuit_breaker = some c }, allowed)
unfolding ask_breaker
ask_breaker-some ob b c now u allowed e a = rw e (rw a refl)

in_context-none :
    (ctx : Option GoError) (last : Bool) (method : String) (x : Exchange) (u : HttpUpstream)
    → ctx ≡ none
    → in_context ctx last method x u
      ≡ after_ask last method x (ask_breaker u.circuit_breaker x.now u)
unfolding in_context
in_context-none ctx last method x u e = rw e refl

-- A round that the breaker lets through and the upstream does not answer goes on to retry.
pub round-unanswered :
    (k : ℕ) (method : String) (x : Exchange) (u : HttpUpstream) (b c : CircuitBreaker)
    → is_idempotent method ≡ true
    → IsUnanswered x
    → u.circuit_breaker ≡ some b
    → allow x.now b ≡ (c, true)
    → Turns u c (retrying (receive u.cfg.policy x.answer)) (round false k method x u)
unfolding round
round-unanswered k method x u b c i f e a =
    let v = count_retry k u in
    let kept = count_retry_keeps k u in
    let w : HttpUpstream = record v { circuit_breaker = some c } in
    let asked =
      ask_breaker-some v.circuit_breaker b c x.now v true (count_retry-breaker k u ∙ e) a in
    let run =
      in_context-none x.ctx_err false method x v f.alive
      ∙ ap (after_ask false method x) asked
      ∙ after_ask-unanswered method x w i f in
    let one = do_call-IsOneAttempt x w in
    subst (Turns u c (retrying (receive u.cfg.policy x.answer))) (sym run) (
      one.breaker,
      one.cfg ∙ kept.0,
      ap (λ (g : UpstreamConfig). retrying (receive g.policy x.answer)) kept.0,
    )

-- How a round ends that sends nothing: with an error that gives the breaker no signal and is exempt
-- from the policy, and with the breaker as it was.
pub data IsUnsent (u : HttpUpstream) (b : CircuitBreaker) : HttpUpstream × Turn → Type 0 where
  unsent :
      (v : HttpUpstream) (e : UpstreamError)
      → v.circuit_breaker ≡ some b
      → v.cfg ≡ u.cfg
      → v.sent ≡ u.sent
      → (e.kind ≡ canceled) ⊎ (e.kind ≡ circuit_open)
      → IsUnsent u b (v, finished (failed_response e))

in_context-denied :
    (ctx : Option GoError) (last : Bool) (method : String) (x : Exchange) (u : HttpUpstream)
    (b : CircuitBreaker)
    → u.circuit_breaker ≡ some b
    → allow x.now b ≡ (b, false)
    → IsUnsent u b (in_context ctx last method x u)
unfolding in_context
in_context-denied (some g) last method x u b e a = unsent u _ e refl refl (inl refl)
in_context-denied none last method x u b e a =
    let asked = ask_breaker-some u.circuit_breaker b b x.now u false e a in
    subst (IsUnsent u b) (sym (ap (after_ask last method x) asked)) (
      unfold after_ask in
      unsent (report_breaker (record u { circuit_breaker = some b })) _ refl refl refl (inr refl))

IsUnsent-before :
    {u v : HttpUpstream} {b : CircuitBreaker} {p : HttpUpstream × Turn}
    → v.cfg ≡ u.cfg
    → v.sent ≡ u.sent
    → IsUnsent v b p
    → IsUnsent u b p
IsUnsent-before c s (unsent w e g h l k) = unsent w e g (h ∙ c) (l ∙ s) k

-- A round of a breaker that denies it sends nothing.
pub round-denied :
    (last : Bool) (k : ℕ) (method : String) (x : Exchange) (u : HttpUpstream) (b : CircuitBreaker)
    → u.circuit_breaker ≡ some b
    → allow x.now b ≡ (b, false)
    → IsUnsent u b (round last k method x u)
unfolding round
round-denied last k method x u b e a =
    let kept = count_retry_keeps k u in
    IsUnsent-before kept.0 kept.2 (
      in_context-denied x.ctx_err last method x (count_retry k u) b (count_retry-breaker k u ∙ e) a)
