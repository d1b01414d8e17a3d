-- ===== src/Examples/Breakers.antt =====
-- Breakers with a threshold of 3 failures and a reset timeout of 10, and what they do.
use aastro.Prelude.{ℕ, ◌+◌, ◌≤◌, ◌≡◌, refl, ◌↔◌, true, false, [], ◌∷◌, arith, length, map}
use aastro.Breaker.{closed, open_circuit, half_open, CircuitBreaker, new, ask, failed, run}
use aastro.Breaker.Trip.{IsValid, run-new-IsValid, trips_iff}

-- One failure away from opening, open since the time 20, and with its trial handed out.
abbrev two_failures : CircuitBreaker
two_failures = record {
  state = closed;
  failures = 2;
  last_failure_at = 15;
  threshold = 3;
  reset_timeout = 10;
  half_open_trial = false;
}

abbrev pub opened : CircuitBreaker
opened = record two_failures { state = open_circuit; failures = 3; last_failure_at = 20 }

abbrev on_trial : CircuitBreaker
on_trial = record opened { state = half_open; half_open_trial = true }

run-new-IsValid_example : IsValid (run (failed 1 ∷ failed 2 ∷ ask 3 ∷ failed 4 ∷ []) (new 3 10))
run-new-IsValid_example = run-new-IsValid 3 10 (failed 1 ∷ failed 2 ∷ ask 3 ∷ failed 4 ∷ [])

trips_iff_example :
    ((run (map failed (20 ∷ [])) two_failures).state ≡ open_circuit)
    ↔ (3 ≤ 2 + length {A = ℕ} (20 ∷ []))
trips_iff_example = trips_iff (20 ∷ []) two_failures refl (omega arith)
