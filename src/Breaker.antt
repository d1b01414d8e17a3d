-- ===== src/Breaker.antt =====
-- internal/circuitbreaker/circuitbreaker.go: the circuit breaker of one upstream.
-- A method that mutates `*CircuitBreaker` under its mutex returns the new record; the time that
-- `time.Now` gives inside the method is an argument, in nanoseconds of Go's monotonic clock (so
-- `time.Since` is a difference that never goes below 0).
pub mod Trip
pub mod HalfOpen
use aastro.Prelude.{ℕ, ◌+◌, ◌-◌, Bool, true, false, List, [], ◌∷◌, leb, if◌then◌else◌}

pub data State : Type 0 where
  closed open_circuit half_open : State

pub record CircuitBreaker : Type 0 where
  pub state : State
  pub failures : ℕ
  pub last_failure_at : ℕ
  pub threshold : ℕ
  pub reset_timeout : ℕ
  pub half_open_trial : Bool

pub new : ℕ → ℕ → CircuitBreaker
new threshold reset_timeout = record {
  state = closed;
  failures = 0;
  last_failure_at = 0;
  threshold = threshold;
  reset_timeout = reset_timeout;
  half_open_trial = false;
}

-- The `switch` of `Allow`.
allow_in : State → ℕ → CircuitBreaker → CircuitBreaker × Bool
allow_in open_circuit now b =
    if leb b.reset_timeout (now - b.last_failure_at)
    then (record b { state = half_open; half_open_trial = false }, true)
    else (b, false)
allow_in half_open now b =
    if b.half_open_trial then (b, false) else (record b { half_open_trial = true }, true)
allow_in closed now b = (b, true)

pub allow : ℕ → CircuitBreaker → CircuitBreaker × Bool
unfolding allow_in
allow now b = allow_in b.state now b

-- The `switch` of `OnFailure`, after `lastFailureAt` is set.
fail_in : State → CircuitBreaker → CircuitBreaker
fail_in half_open b = record b { state = open_circuit; failures = b.threshold }
fail_in closed b =
    if leb b.threshold (b.failures + 1)
    then record b { failures = b.failures + 1; state = open_circuit }
    else record b { failures = b.failures + 1 }
fail_in open_circuit b = b

pub on_failure : ℕ → CircuitBreaker → CircuitBreaker
unfolding fail_in
on_failure now b = fail_in b.state (record b { last_failure_at = now })

-- The `switch` of `OnSuccess`.
succeed_in : State → CircuitBreaker → CircuitBreaker
succeed_in half_open b = record b { state = closed; failures = 0 }
succeed_in closed b = record b { failures = 0 }
succeed_in open_circuit b = b

pub on_success : CircuitBreaker → CircuitBreaker
unfolding succeed_in
on_success b = succeed_in b.state b

-- What a client may do to the breaker; each call holds the mutex, so calls by concurrent requests
-- are some sequence of these.
pub data Event : Type 0 where
  ask : ℕ → Event
  failed : ℕ → Event
  succeeded : Event

pub apply : Event → CircuitBreaker → CircuitBreaker
apply (ask now) b = (allow now b).0
apply (failed now) b = on_failure now b
apply succeeded b = on_success b

pub run : List Event → CircuitBreaker → CircuitBreaker
unfolding apply
run [] b = b
run (e ∷ es) b = run es (apply e b)
