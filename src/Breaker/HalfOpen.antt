-- ===== src/Breaker/HalfOpen.antt =====
-- The half-open state: how many requests it lets through, and how it is left.
use aastro.Prelude.{
  ℕ, suc, ◌+◌, ◌-◌, ◌≤◌, ◌≡◌, refl, inl, inr, true, false, List, [], ◌∷◌, arith, map, ap, ◌∙◌,
  Bool-cases, leb, le→leb, if◌then◌else◌,
}
use aastro.Breaker.{
  closed, open_circuit, half_open, CircuitBreaker, allow, on_failure, on_success, ask, apply, run,
}

-- How many of the requests that ask at the times `ts`, one after another and with no outcome
-- reported in between, are let through.
pub granted : List ℕ → CircuitBreaker → ℕ
granted [] b = 0
granted (t ∷ ts) b = let rest = granted ts (allow t b).0 in if (allow t b).1 then suc rest else rest

-- A breaker that is half open with its trial handed out.
abbrev pub IsProbing : CircuitBreaker → Type 0
IsProbing b = (b.state ≡ half_open) × (b.half_open_trial ≡ true)

pub probing_denies : (t : ℕ) (b : CircuitBreaker) → IsProbing b → allow t b ≡ (b, false)
unfolding allow
probing_denies t b (s, p) = rw (s, p) refl

granted-probing : (ts : List ℕ) (b : CircuitBreaker) → IsProbing b → granted ts b ≡ 0
unfolding granted
granted-probing [] b p = refl
granted-probing (t ∷ ts) b p = rw (probing_denies t b p) (granted-probing ts b p)

-- The number of requests that a half-open breaker has left to let through.
abbrev budget : CircuitBreaker → ℕ
budget b = if b.half_open_trial then 0 else 1

pub half_open_first :
    (t : ℕ) (b : CircuitBreaker)
    → b.state ≡ half_open
    → b.half_open_trial ≡ false
    → allow t b ≡ (record b { half_open_trial = true }, true)
unfolding allow
half_open_first t b s p = rw (s, p) refl

granted-half_open :
    (ts : List ℕ) (b : CircuitBreaker) → b.state ≡ half_open → granted ts b ≤ budget b
unfolding granted
granted-half_open [] b s = omega arith
granted-half_open (t ∷ ts) b s = elim (Bool-cases b.half_open_trial) [
  | inl taken ↦ rw (granted-probing (t ∷ ts) b (s, taken)) (omega arith)
  | inr free ↦
      rw (half_open_first t b s free) (
        rw (free, granted-probing ts (record b { half_open_trial = true }) (s, refl)) (omega arith))
]

pub expired_grants :
    (t : ℕ) (b : CircuitBreaker)
    → b.state ≡ open_circuit
    → leb b.reset_timeout (t - b.last_failure_at) ≡ true
    → allow t b ≡ (record b { state = half_open; half_open_trial = false }, true)
unfolding allow
expired_grants t b o h = rw (o, h) refl

waiting_denies :
    (t : ℕ) (b : CircuitBreaker)
    → b.state ≡ open_circuit
    → leb b.reset_timeout (t - b.last_failure_at) ≡ false
    → allow t b ≡ (b, false)
unfolding allow
waiting_denies t b o h = rw (o, h) refl

-- An open breaker lets through at most two requests, however many ask and whenever they ask,
-- until one of them reports its outcome.
granted-open-le_two : (ts : List ℕ) (b : CircuitBreaker) → b.state ≡ open_circuit → granted ts b ≤ 2
unfolding granted
granted-open-le_two [] b o = omega arith
granted-open-le_two (t ∷ ts) b o = elim (Bool-cases (leb b.reset_timeout (t - b.last_failure_at))) [
  | inl expired ↦ rw (expired_grants t b o expired) (
      omega (
        arith,
        granted-half_open ts (record b { state = half_open; half_open_trial = false }) refl,
      ))
  | inr waiting ↦ rw (waiting_denies t b o waiting) (granted-open-le_two ts b o)
]

-- An open breaker lets two requests through: once the reset timeout since the last failure has passed,
-- the first two that ask are both let through, although the half-open state keeps a flag for a single trial.
granted-open_two :
    (t u : ℕ) (b : CircuitBreaker)
    → b.state ≡ open_circuit
    → b.last_failure_at + b.reset_timeout ≤ t
    → granted (t ∷ u ∷ []) b ≡ 2
unfolding granted
granted-open_two t u b o h = rw (expired_grants t b o (le→leb _ _ (omega arith))) (
    rw (half_open_first u (record b { state = half_open; half_open_trial = false }) refl refl) refl)

-- A breaker whose trial is handed out denies every request, at every time, and is not changed by
-- any: with no report of an outcome there is no way out, and no timeout applies.
probing_absorbs :
    (ts : List ℕ) (b : CircuitBreaker) → IsProbing b → (run (map ask ts) b ≡ b) × (granted ts b ≡ 0)
unfolding run apply
probing_absorbs [] b p = (refl, granted-probing [] b p)
probing_absorbs (t ∷ ts) b p = (
  ap (λ r. run (map ask ts) r.0) (probing_denies t b p) ∙ (probing_absorbs ts b p).0,
  granted-probing (t ∷ ts) b p,
)

-- The outcome of a trial decides: a failure opens the breaker with the reset timeout counted from
-- that failure, and a success closes it with no failures.
trial_decides :
    (now : ℕ) (b : CircuitBreaker)
    → b.state ≡ half_open
    → ((on_failure now b).state ≡ open_circuit)
      × ((on_failure now b).last_failure_at ≡ now)
      × ((on_success b).state ≡ closed)
      × ((on_success b).failures ≡ 0)
unfolding on_failure on_success
trial_decides now b s = ground arith
