-- ===== src/Scatter/Spending.antt =====
-- How many requests a scatter sends (scatter.go and upstream.go).
use native.Mathlib.Nat.{mul-le-mul_right}
use aastro.Prelude.{
  ℕ, suc, ◌+◌, ◌*◌, ◌≤◌, ◌≡◌, refl, ap, ◌∙◌, subst, List, [], ◌∷◌, length, map, All, String, arith,
}
use aastro.Upstream.{ℤ, pos, negsuc, HttpUpstream, UpstreamConfig}
use aastro.Upstream.Call.Policy.{call-IsCall}
use aastro.Scatter.{Outside, call_upstream, goroutine, results_from}
use aastro.Scatter.Results.{HasRetries}

-- The requests that one call may send: `maxRetries` and one.
abbrev pub requests_of : ℤ → ℕ
requests_of (pos n) = suc n
requests_of (negsuc n) = 0

abbrev pub budget : UpstreamConfig → ℕ
budget cfg = requests_of cfg.policy.retry.max_retries

-- What `k` requests of a client may do to the upstreams: each has its configuration, and has been sent at
-- most its budget for each of them.
abbrev pub IsSpent : ℕ → List HttpUpstream → List HttpUpstream → Type 0
IsSpent k [] [] = Unit
IsSpent k (u ∷ us) (v ∷ vs) =
    (v.cfg ≡ u.cfg) × (length v.sent ≤ length u.sent + k * budget u.cfg) × IsSpent k us vs
IsSpent k [] (v ∷ vs) = ⊥
IsSpent k (u ∷ us) [] = ⊥

pub IsSpent-refl : (k : ℕ) (us : List HttpUpstream) → IsSpent k us us
IsSpent-refl k [] = tt
IsSpent-refl k (u ∷ us) = (refl, omega arith, IsSpent-refl k us)

added : (k b m n o : ℕ) → n ≤ m + 1 * b → o ≤ n + k * b → o ≤ m + suc k * b
added k b m n o h g = ground arith

pub IsSpent-trans :
    (k : ℕ) (us vs ws : List HttpUpstream)
    → IsSpent 1 us vs
    → IsSpent k vs ws
    → IsSpent (suc k) us ws
IsSpent-trans k [] [] [] h g = tt
IsSpent-trans k (u ∷ us) (v ∷ vs) (w ∷ ws) (c, l, h) (d, m, g) = (
  d ∙ c,
  added k (budget u.cfg) (length u.sent) (length v.sent) (length w.sent) l
      (subst (λ cfg. length w.sent ≤ length v.sent + k * budget cfg) c m),
  IsSpent-trans k us vs ws h g,
)
IsSpent-trans k [] [] (w ∷ ws) h g = absurd g
IsSpent-trans k [] (v ∷ vs) ws h g = absurd h
IsSpent-trans k (u ∷ us) [] ws h g = absurd h
IsSpent-trans k (u ∷ us) (v ∷ vs) [] h g = absurd g

pub IsSpent-mono : (k l : ℕ) (us vs : List HttpUpstream) → k ≤ l → IsSpent k us vs → IsSpent l us vs
IsSpent-mono k l [] [] h s = tt
IsSpent-mono k l (u ∷ us) (v ∷ vs) h (c, m, s) =
    let more = mul-le-mul_right (budget u.cfg) h in
    (c, omega (arith, m, more), IsSpent-mono k l us vs h s)
IsSpent-mono k l [] (v ∷ vs) h s = absurd s
IsSpent-mono k l (u ∷ us) [] h s = absurd s

pub HasRetries-IsSpent :
    (k : ℕ) (us vs : List HttpUpstream) → IsSpent k us vs → All HasRetries us → All HasRetries vs
HasRetries-IsSpent k [] [] s h = tt
HasRetries-IsSpent k (u ∷ us) (v ∷ vs) (c, m, s) ((n, e), hs) = (
  (n, ap (λ (cfg : UpstreamConfig). cfg.policy.retry.max_retries) c ∙ e),
  HasRetries-IsSpent k us vs s hs,
)
HasRetries-IsSpent k [] (v ∷ vs) s h = absurd s
HasRetries-IsSpent k (u ∷ us) [] s h = absurd s

call_upstream-IsSpent :
    (method : String) (o : Outside) (u : HttpUpstream)
    → HasRetries u
    → (let v = (call_upstream method o u).0 in
        (v.cfg ≡ u.cfg) × (length v.sent ≤ length u.sent + 1 * budget u.cfg))
unfolding call_upstream
call_upstream-IsSpent method o u (n, e) =
    let c = (call-IsCall n method o.world o.reported_at u e).0 in
    let sends = c.sends in
    let most : budget u.cfg ≡ suc n = ap requests_of e in (c.cfg, omega (arith, sends, most))

-- One upstream, for one request.
pub one-IsSpent :
    (method : String) (o : Outside) (u : HttpUpstream)
    → HasRetries u
    → IsSpent 1 (u ∷ []) ((call_upstream method o u).0 ∷ [])
one-IsSpent method o u h = let (c, m) = call_upstream-IsSpent method o u h in (c, m, tt)

-- The scatter of one request.
pub results_from-IsSpent :
    (method : String) (outside : ℕ → Outside) (i : ℕ) (us : List HttpUpstream)
    → All HasRetries us
    → IsSpent 1 us (map (λ r. r.0) (results_from method outside i us))
unfolding results_from goroutine
results_from-IsSpent method outside i [] h = tt
results_from-IsSpent method outside i (u ∷ us) (h, hs) =
    let (c, m) = call_upstream-IsSpent method (outside i) u h in
    (c, m, results_from-IsSpent method outside (i + 1) us hs)
