-- ===== src/Upstream/Retry/Probe.antt =====
-- The retried call of an upstream whose breaker is open or half open.
use aastro.Prelude.{
  ℕ, suc, ◌+◌, ◌≡◌, ◌≤◌, refl, sym, subst, ◌∙◌, ◌⊎◌, true, false, String, arith, Option, none, some,
  le→leb,
}
use aastro.UpstreamError.{UpstreamError, canceled, circuit_open}
use aastro.Breaker.{CircuitBreaker, open_circuit, half_open}
use aastro.Breaker.HalfOpen.{IsProbing, probing_denies, expired_grants, half_open_first}
use aastro.Upstream.{pos, HttpUpstream, UpstreamResponse, Exchange, failed_response}
use aastro.Upstream.Attempt.{receive}
use aastro.Upstream.Retry.{
  is_idempotent, Turn, retrying, round, run_rounds, next_attempt, call_with_retry, effective_method,
}
use aastro.Upstream.Retry.Gate.{IsUnanswered, round-unanswered, IsUnsent, unsent, round-denied}

-- The upstream and response of a call that sent nothing.
pub data IsQuiet (u : HttpUpstream) (b : CircuitBreaker)
    : HttpUpstream × Option UpstreamResponse → Type 0 where
  quiet :
      (v : HttpUpstream) (e : UpstreamError)
      → v.circuit_breaker ≡ some b
      → v.cfg ≡ u.cfg
      → v.sent ≡ u.sent
      → (e.kind ≡ canceled) ⊎ (e.kind ≡ circuit_open)
      → IsQuiet u b (v, some (failed_response e))

next_attempt-IsQuiet :
    (more : UpstreamResponse → HttpUpstream → HttpUpstream × Option UpstreamResponse)
    {u : HttpUpstream} {b : CircuitBreaker} {p : HttpUpstream × Turn}
    → IsUnsent u b p
    → IsQuiet u b (next_attempt more p)
next_attempt-IsQuiet more (unsent v e h c s k) = quiet v e h c s k

module _ (n : ℕ) (original : String) (world : ℕ → Exchange) (u : HttpUpstream)
    (b : CircuitBreaker) where
  run_rounds-denied :
      (k : ℕ) (method : String) (resp : Option UpstreamResponse)
      → u.circuit_breaker ≡ some b
      → IsProbing b
      → IsQuiet u b (run_rounds (suc n) k method world resp u)
  unfolding run_rounds
  run_rounds-denied k method resp e p =
      next_attempt-IsQuiet (λ r v. run_rounds n (k + 1) method world (some r) v)
        (round-denied _ k method (world k) u b e (probing_denies _ b p))

  -- An upstream whose breaker has its trial handed out sends nothing, and its breaker stays so.
  pub call_with_retry-denied :
      u.cfg.policy.retry.max_retries ≡ pos n
      → u.circuit_breaker ≡ some b
      → IsProbing b
      → IsQuiet u b (call_with_retry original world u)
  unfolding call_with_retry
  call_with_retry-denied m e p =
      simp m (run_rounds-denied 0 (effective_method u.cfg original) none e p)

-- A call that leaves the breaker `b` and an error that gives it no signal.
pub data LeavesBreaker (u : HttpUpstream) (b : CircuitBreaker)
    : HttpUpstream × Option UpstreamResponse → Type 0 where
  leaves :
      (v : HttpUpstream) (e : UpstreamError)
      → v.circuit_breaker ≡ some b
      → v.cfg ≡ u.cfg
      → (e.kind ≡ canceled) ⊎ (e.kind ≡ circuit_open)
      → LeavesBreaker u b (v, some (failed_response e))

IsQuiet-LeavesBreaker :
    {u v : HttpUpstream} {b : CircuitBreaker} {p : HttpUpstream × Option UpstreamResponse}
    → v.cfg ≡ u.cfg
    → IsQuiet v b p
    → LeavesBreaker u b p
IsQuiet-LeavesBreaker c (quiet w e g h s k) = leaves w e g (h ∙ c) k

LeavesBreaker-before :
    {u v : HttpUpstream} {b : CircuitBreaker} {p : HttpUpstream × Option UpstreamResponse}
    → v.cfg ≡ u.cfg
    → LeavesBreaker v b p
    → LeavesBreaker u b p
LeavesBreaker-before c (leaves w e g h k) = leaves w e g (h ∙ c) k

next_attempt-retrying :
    (more : UpstreamResponse → HttpUpstream → HttpUpstream × Option UpstreamResponse)
    (v : HttpUpstream) (t : Turn) (r : UpstreamResponse)
    → t ≡ retrying r
    → next_attempt more (v, t) ≡ more r v
next_attempt-retrying more v t r e = rw e refl

-- The breaker that a probe which is retried leaves behind.
abbrev pub probing : CircuitBreaker → CircuitBreaker
probing b = record b { state = half_open; half_open_trial = true }

abbrev probe_started : CircuitBreaker → CircuitBreaker
probe_started b = record b { state = half_open; half_open_trial = false }

module _ (m : ℕ) (method : String) (world : ℕ → Exchange) (b : CircuitBreaker)
    (idempotent : is_idempotent method ≡ true) where
  second_round :
      (u : HttpUpstream) (resp : Option UpstreamResponse)
      → u.circuit_breaker ≡ some (probe_started b)
      → IsUnanswered (world 1)
      → LeavesBreaker u (probing b) (run_rounds (suc (suc m)) 1 method world resp u)
  unfolding run_rounds
  second_round u resp e f =
      let more = λ (r : UpstreamResponse) (v : HttpUpstream).
        run_rounds (suc m) (1 + 1) method world (some r) v in
      let p = round false 1 method (world 1) u in
      let turned =
        round-unanswered 1 method (world 1) u (probe_started b) (probing b) idempotent f e
          (half_open_first (world 1).now (probe_started b) refl refl) in
      subst (LeavesBreaker u (probing b)) (sym (next_attempt-retrying more p.0 p.1 _ turned.2)) (
        IsQuiet-LeavesBreaker turned.1 (
          run_rounds-denied m method world p.0 (probing b) (1 + 1) method
            (some (receive u.cfg.policy (world 1).answer)) turned.0 (refl, refl)))

  first_round :
      (u : HttpUpstream) (resp : Option UpstreamResponse)
      → u.circuit_breaker ≡ some b
      → b.state ≡ open_circuit
      → b.last_failure_at + b.reset_timeout ≤ (world 0).now
      → IsUnanswered (world 0)
      → IsUnanswered (world 1)
      → LeavesBreaker u (probing b) (run_rounds (suc (suc (suc m))) 0 method world resp u)
  unfolding run_rounds
  first_round u resp e o late f g =
      let more = λ (r : UpstreamResponse) (v : HttpUpstream).
        run_rounds (suc (suc m)) (0 + 1) method world (some r) v in
      let p = round false 0 method (world 0) u in
      let turned =
        round-unanswered 0 method (world 0) u b (probe_started b) idempotent f e
          (expired_grants (world 0).now b o (le→leb _ _ (omega arith))) in
      subst (LeavesBreaker u (probing b)) (sym (next_attempt-retrying more p.0 p.1 _ turned.2)) (
        LeavesBreaker-before turned.1
          (second_round p.0 (some (receive u.cfg.policy (world 0).answer)) turned.0 g))

-- An open breaker whose reset timeout has passed, with two or more retries of an idempotent method:
-- when the upstream answers neither of the first two attempts, the third is denied by the breaker,
-- and the call ends with an error that gives the breaker no signal. The trial stays handed out.
pub call_with_retry-probing :
    (m : ℕ) (original : String) (world : ℕ → Exchange) (u : HttpUpstream) (b : CircuitBreaker)
    → u.cfg.policy.retry.max_retries ≡ pos (suc (suc m))
    → is_idempotent (effective_method u.cfg original) ≡ true
    → u.circuit_breaker ≡ some b
    → b.state ≡ open_circuit
    → b.last_failure_at + b.reset_timeout ≤ (world 0).now
    → IsUnanswered (world 0)
    → IsUnanswered (world 1)
    → LeavesBreaker u (probing b) (call_with_retry original world u)
unfolding call_with_retry
call_with_retry-probing m original world u b retries idempotent e o late f g =
    simp retries
      (first_round m (effective_method u.cfg original) world b idempotent u none e o late f g)
