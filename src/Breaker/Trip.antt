-- ===== src/Breaker/Trip.antt =====
-- When the breaker opens, and what it promises while it is open.
use aastro.Prelude.{
  ℕ, ◌+◌, ◌-◌, ◌≤◌, ◌<◌, ◌≡◌, refl, ◌⊎◌, inl, inr, ◌↔◌, true, false, List, [], ◌∷◌, arith, All,
  length, map, ap, ◌∙◌, Bool-cases, leb, leb→le,
}
use aastro.Breaker.{
  closed, open_circuit, CircuitBreaker, new, allow, on_failure, on_success, Event, ask, failed,
  succeeded, apply, run,
}

-- What holds of a breaker between two calls: a closed breaker is below its threshold (a threshold
-- of 0 acts as 1), and the counter never passes the threshold, so that its `int` does not wrap.
pub record IsValid (b : CircuitBreaker) : Type 0 where
  pub below : b.state ≡ closed → (b.failures < b.threshold) ⊎ (b.failures ≡ 0)
  pub bounded : (b.failures ≤ b.threshold) ⊎ (b.failures ≤ 1)

new-IsValid : (n t : ℕ) → IsValid (new n t)
unfolding new
new-IsValid n t = ground arith

apply-IsValid : (e : Event) (b : CircuitBreaker) → IsValid b → IsValid (apply e b)
unfolding apply allow on_failure on_success
apply-IsValid (ask now) b v = ground arith
apply-IsValid (failed now) b v = ground arith
apply-IsValid succeeded b v = ground arith

run-IsValid : (es : List Event) (b : CircuitBreaker) → IsValid b → IsValid (run es b)
unfolding run
run-IsValid [] b v = v
run-IsValid (e ∷ es) b v = run-IsValid es (apply e b) (apply-IsValid e b v)

-- Whatever sequence of calls a new breaker receives, at whatever times: while it is closed its
-- failure count is below the threshold (or 0), and the count never passes the larger of the
-- threshold and 1.
pub run-new-IsValid :
    (threshold timeout : ℕ) (es : List Event) → IsValid (run es (new threshold timeout))
run-new-IsValid threshold timeout es = run-IsValid es _ (new-IsValid threshold timeout)

-- An open breaker stays open, whatever fails.
failed-open :
    (ts : List ℕ) (b : CircuitBreaker)
    → b.state ≡ open_circuit
    → (run (map failed ts) b).state ≡ open_circuit
unfolding run apply
failed-open [] b o = o
failed-open (t ∷ ts) b o = failed-open ts (on_failure t b) (unfold on_failure in ground arith)

-- One failure of a closed breaker below its threshold.
failure_trips :
    (t : ℕ) (b : CircuitBreaker)
    → b.state ≡ closed
    → leb b.threshold (b.failures + 1) ≡ true
    → (on_failure t b).state ≡ open_circuit
unfolding on_failure
failure_trips t b c h = ground arith

failure_counts :
    (t : ℕ) (b : CircuitBreaker)
    → b.state ≡ closed
    → leb b.threshold (b.failures + 1) ≡ false
    → ((on_failure t b).state ≡ closed)
      × ((on_failure t b).failures ≡ b.failures + 1)
      × ((on_failure t b).threshold ≡ b.threshold)
unfolding on_failure
failure_counts t b c h = ground arith

-- A closed breaker with `b.failures` failures, below its threshold, that then sees only failures
-- is open exactly when the failures reach the threshold.
pub trips_iff :
    (ts : List ℕ) (b : CircuitBreaker)
    → b.state ≡ closed
    → b.failures < b.threshold
    → ((run (map failed ts) b).state ≡ open_circuit) ↔ (b.threshold ≤ b.failures + length ts)
unfolding run apply
trips_iff [] b c h = ground arith
trips_iff (t ∷ ts) b c h = elim (Bool-cases (leb b.threshold (b.failures + 1))) [
  | inl reached ↦ ground (arith, failed-open ts (on_failure t b) (failure_trips t b c reached))
  | inr more ↦ ground (arith, failure_counts t b c more, trips_iff ts (on_failure t b))
]

success_resets :
    (b : CircuitBreaker)
    → b.state ≡ closed
    → ((on_success b).state ≡ closed)
      × ((on_success b).failures ≡ 0)
      × ((on_success b).threshold ≡ b.threshold)
unfolding on_success
success_resets b c = ground arith

-- A success of a closed breaker with a positive threshold starts the count anew: of what happened
-- before it nothing counts, and the breaker is open exactly when the failures that follow it reach
-- the threshold.
trips_after_success_iff :
    (ts : List ℕ) (b : CircuitBreaker)
    → b.state ≡ closed
    → 0 < b.threshold
    → ((run (succeeded ∷ map failed ts) b).state ≡ open_circuit) ↔ (b.threshold ≤ length ts)
unfolding run apply
trips_after_success_iff ts b c h = ground (arith, success_resets b c, trips_iff ts (on_success b))

-- A time from the last failure on at which the reset timeout has not passed.
abbrev IsEarly : CircuitBreaker → ℕ → Type 0
IsEarly b t = (b.last_failure_at ≤ t) × (t < b.last_failure_at + b.reset_timeout)

early_denied :
    (now : ℕ) (b : CircuitBreaker)
    → b.state ≡ open_circuit
    → IsEarly b now
    → allow now b ≡ (b, false)
unfolding allow
early_denied now b o h = elim (Bool-cases (leb b.reset_timeout (now - b.last_failure_at))) [
  | inl late ↦ absurd (omega (arith, leb→le _ _ late))
  | inr early ↦ rw (o, early) refl
]

-- While the reset timeout since the last failure has not passed, every request of an open breaker is
-- denied, and none of them changes the breaker.
open_denies :
    (ts : List ℕ) (b : CircuitBreaker) (now : ℕ)
    → b.state ≡ open_circuit
    → All (IsEarly b) ts
    → IsEarly b now
    → (run (map ask ts) b ≡ b) × ((allow now b).1 ≡ false)
unfolding run apply
open_denies [] b now o h k = (refl, rw (early_denied now b o k))
open_denies (t ∷ ts) b now o h k =
    let (same, denied) = open_denies ts b now o h.1 k in
    (ap (λ r. run (map ask ts) r.0) (early_denied t b o h.0) ∙ same, denied)
