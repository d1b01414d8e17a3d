-- ===== src/Upstream/Call/Stuck.antt =====
-- Whole calls of an upstream whose breaker has its trial handed out.
use aastro.Prelude.{
  ℕ, suc, ◌+◌, ◌≡◌, ◌≤◌, refl, sym, ap, subst, ◌∙◌, ◌⊎◌, inl, inr, true, String, arith, Option,
  some, List, [], ◌∷◌,
}
use aastro.UpstreamError.{
  UpstreamError, canceled, circuit_open, breaker_outcome_for, is_status_failure,
}
use aastro.Breaker.{CircuitBreaker, open_circuit}
use aastro.Breaker.HalfOpen.{IsProbing}
use aastro.Upstream.{pos, HttpUpstream, UpstreamResponse, Exchange, failed_response}
use aastro.Upstream.Retry.{is_idempotent, effective_method, call_with_retry}
use aastro.Upstream.Retry.Gate.{IsUnanswered}
use aastro.Upstream.Retry.Probe.{
  IsQuiet, quiet, LeavesBreaker, leaves, probing, call_with_retry-denied, call_with_retry-probing,
}
use aastro.Upstream.Call.{
  record_outcome, update_breaker, update_circuit_breaker, exempt, violates, apply_policy, settle,
  call,
}

-- Such an error leaves the breaker as it is.
update-no_signal :
    (now : ℕ) (e : UpstreamError) (u : HttpUpstream) (b : CircuitBreaker)
    → (e.kind ≡ canceled) ⊎ (e.kind ≡ circuit_open)
    → u.circuit_breaker ≡ some b
    → (let v = update_circuit_breaker now (failed_response e) u in
        (v.circuit_breaker ≡ some b) × (v.cfg ≡ u.cfg) × (v.sent ≡ u.sent))
unfolding update_circuit_breaker update_breaker record_outcome breaker_outcome_for
update-no_signal now e u b k h = ground arith

policy-exempt :
    (e : UpstreamError) (u : HttpUpstream)
    → (e.kind ≡ canceled) ⊎ (e.kind ≡ circuit_open)
    → apply_policy (u, failed_response e) ≡ (u, failed_response e)
unfolding apply_policy violates exempt is_status_failure
policy-exempt e u (inl k) = rw k refl
policy-exempt e u (inr k) = rw k refl

settled :
    (now : ℕ) (v : HttpUpstream) (e : UpstreamError)
    → (e.kind ≡ canceled) ⊎ (e.kind ≡ circuit_open)
    → settle now (v, some (failed_response e))
      ≡ (update_circuit_breaker now (failed_response e) v, some (failed_response e))
unfolding settle
settled now v e k =
    ap
      (λ (p : HttpUpstream × UpstreamResponse).
        let r : HttpUpstream × Option UpstreamResponse = (p.0, some p.1) in r)
      (policy-exempt e (update_circuit_breaker now (failed_response e) v) k)

settle-IsQuiet :
    (now : ℕ) {u : HttpUpstream} {b : CircuitBreaker} {p : HttpUpstream × Option UpstreamResponse}
    → IsQuiet u b p
    → IsQuiet u b (settle now p)
settle-IsQuiet now {u} {b} (quiet v e h c s k) =
    let (h', c', s') = update-no_signal now e v b k h in
    subst (IsQuiet u b) (sym (settled now v e k)) (quiet _ e h' (c' ∙ c) (s' ∙ s) k)

settle-LeavesBreaker :
    (now : ℕ) {u : HttpUpstream} {b : CircuitBreaker} {p : HttpUpstream × Option UpstreamResponse}
    → LeavesBreaker u b p
    → LeavesBreaker u b (settle now p)
settle-LeavesBreaker now {u} {b} (leaves v e h c k) =
    let (h', c', s') = update-no_signal now e v b k h in
    subst (LeavesBreaker u b) (sym (settled now v e k)) (leaves _ e h' (c' ∙ c) k)

-- A call that a client makes: its method, what each attempt would meet, and the time of its report.
pub record Incoming : Type 0 where
  pub method : String
  pub world : ℕ → Exchange
  pub reported_at : ℕ

-- Calls one after another.
pub serve : List Incoming → HttpUpstream → HttpUpstream
serve [] u = u
serve (c ∷ cs) u = serve cs (call c.method c.world c.reported_at u).0

IsQuiet_lem :
    {u : HttpUpstream} {b : CircuitBreaker} {p : HttpUpstream × Option UpstreamResponse}
    → IsQuiet u b p
    → (p.0.circuit_breaker ≡ some b) × (p.0.cfg ≡ u.cfg) × (p.0.sent ≡ u.sent)
IsQuiet_lem (quiet v e h c s k) = (h, c, s)

LeavesBreaker_lem :
    {u : HttpUpstream} {b : CircuitBreaker} {p : HttpUpstream × Option UpstreamResponse}
    → LeavesBreaker u b p
    → (p.0.circuit_breaker ≡ some b) × (p.0.cfg ≡ u.cfg)
LeavesBreaker_lem (leaves v e h c k) = (h, c)

-- An upstream whose half-open trial is handed out, with no call in flight, is cut off for good: however
-- many calls come, whatever their methods and at whatever times, none sends a request, and the
-- breaker stays as it is.
serve-cut_off :
    (n : ℕ) (cs : List Incoming) (u : HttpUpstream) (b : CircuitBreaker)
    → u.cfg.policy.retry.max_retries ≡ pos n
    → u.circuit_breaker ≡ some b
    → IsProbing b
    → ((serve cs u).sent ≡ u.sent) × ((serve cs u).circuit_breaker ≡ some b)
unfolding serve call
serve-cut_off n [] u b m e p = (refl, e)
serve-cut_off n (c ∷ cs) u b m e p =
    let (h, same, s) =
      IsQuiet_lem
        (settle-IsQuiet c.reported_at (call_with_retry-denied n c.method c.world u b m e p)) in
    let v = (settle c.reported_at (call_with_retry c.method c.world u)).0 in
    let (s', h') = serve-cut_off n cs v b (ap (λ g. g.policy.retry.max_retries) same ∙ m) h p in
    (s' ∙ s, h')

-- One call can cut an upstream off for good. Its breaker is open and the reset timeout has passed, two or
-- more retries of an idempotent method are configured, and the upstream answers neither of the first
-- two attempts: then none of the calls that follow, however many, sends a request, though the upstream
-- may be well again. The calls come one after another.
pub probe_cuts_off :
    (m : ℕ) (original : String) (world : ℕ → Exchange) (now : ℕ) (cs : List Incoming)
    (u : HttpUpstream) (b : CircuitBreaker)
    → u.cfg.policy.retry.max_retries ≡ pos (suc (suc m))
    → is_idempotent (effective_method u.cfg original) ≡ true
    → u.circuit_breaker ≡ some b
    → b.state ≡ open_circuit
    → b.last_failure_at + b.reset_timeout ≤ (world 0).now
    → IsUnanswered (world 0)
    → IsUnanswered (world 1)
    → (let v = (call original world now u).0 in
        ((serve cs v).sent ≡ v.sent) × ((serve cs v).circuit_breaker ≡ some (probing b)))
unfolding call
probe_cuts_off m original world now cs u b retries idempotent e o late f g =
    let (h, same) = LeavesBreaker_lem (
      settle-LeavesBreaker now
        (call_with_retry-probing m original world u b retries idempotent e o late f g)) in
    serve-cut_off (suc (suc m)) cs _ (probing b)
      (ap (λ c. c.policy.retry.max_retries) same ∙ retries) h (refl, refl)
