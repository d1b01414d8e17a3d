-- ===== src/Scatter/Results.antt =====
-- The results of a scatter: every upstream answers.
use aastro.Prelude.{
  ℕ, suc, ◌+◌, ◌≡◌, refl, ap, List, [], ◌∷◌, some, String, length, map, All, subst, sym,
}
use aastro.Upstream.{pos, HttpUpstream, UpstreamResponse}
use aastro.Upstream.Call.Policy.{call-IsCall}
use aastro.Scatter.{
  Outside, Slot, returned, slot_of, unwrap_all, call_upstream, goroutine, results_from,
}

-- Retries that the configuration does not make negative.
abbrev pub HasRetries : HttpUpstream → Type 0
HasRetries u = (n : ℕ) × (u.cfg.policy.retry.max_retries ≡ pos n)

pub call_upstream-returned :
    (method : String) (o : Outside) (u : HttpUpstream)
    → HasRetries u
    → (r : UpstreamResponse) × ((call_upstream method o u).1 ≡ returned r)
unfolding call_upstream
call_upstream-returned method o u (n, e) =
    let c = (call-IsCall n method o.world o.reported_at u e).0 in
    (c.response, ap slot_of c.returned)

-- A response for each upstream.
abbrev Answered : List HttpUpstream → List Slot → Type 0
Answered us ss = (rs : List UpstreamResponse) × (unwrap_all ss ≡ some rs) × (length rs ≡ length us)

Answered-cons :
    (u : HttpUpstream) (us : List HttpUpstream) (r : UpstreamResponse) (ss : List Slot)
    → Answered us ss
    → Answered (u ∷ us) (returned r ∷ ss)
unfolding unwrap_all
Answered-cons u us r ss (rs, e, l) = (r ∷ rs, rw e refl, ap suc l)

module _ (method : String) (outside : ℕ → Outside) where
  -- Whatever the calls meet, the scatter of upstreams whose retries are not negative ends with a
  -- response for each of them, and none panics.
  pub results_from-Answered :
      (i : ℕ) (us : List HttpUpstream)
      → All HasRetries us
      → Answered us (map (λ r. r.1) (results_from method outside i us))
  unfolding results_from goroutine unwrap_all
  results_from-Answered i [] h = ([], refl, refl)
  results_from-Answered i (u ∷ us) (h, hs) =
      let (r, same) = call_upstream-returned method (outside i) u h in
      subst (λ s. Answered (u ∷ us) (s ∷ map (λ r. r.1) (results_from method outside (i + 1) us)))
        (sym same)
        (Answered-cons u us r (map (λ r. r.1) (results_from method outside (i + 1) us))
          (results_from-Answered (i + 1) us hs))

  pub length-results_from :
      (i : ℕ) (us : List HttpUpstream)
      → length (map (λ r. r.0) (results_from method outside i us)) ≡ length us
  unfolding results_from
  length-results_from i [] = refl
  length-results_from i (u ∷ us) = ap suc (length-results_from (i + 1) us)
