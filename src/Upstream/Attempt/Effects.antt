-- ===== src/Upstream/Attempt/Effects.antt =====
-- What one attempt changes in the upstream.
use aastro.Prelude.{
  ℕ, zero, suc, ◌+◌, ◌-◌, ◌≡◌, refl, ap, ◌∙◌, ◌⊎◌, inl, inr, List, [], ◌∷◌, get_or, set, arith,
  Bool-cases, none, Option-cases,
}
use aastro.Upstream.{HttpUpstream, Exchange}
use aastro.Upstream.Balance.{select_host}
use aastro.Upstream.Attempt.{acquire, release, exchange, receive, do_call, is_least_conns}

raise_lower :
    (cs : List ℕ) (i : ℕ)
    → (let up = set cs i (get_or cs i 0 + 1) in set up i (get_or up i 0 - 1)) ≡ cs
raise_lower [] i = refl
raise_lower (c ∷ cs) zero = ap (λ x. x ∷ cs) (omega arith)
raise_lower (c ∷ cs) (suc i) = ap (λ t. c ∷ t) (raise_lower cs i)

-- Only the counters of the state, and the hosts that requests went to, may differ; at most one
-- request is sent.
pub record IsOneAttempt (u v : HttpUpstream) : Type 0 where
  pub cfg : v.cfg ≡ u.cfg
  pub breaker : v.circuit_breaker ≡ u.circuit_breaker
  pub metrics : v.metrics ≡ u.metrics
  pub connections : v.state.active_connections ≡ u.state.active_connections
  pub sends : (v.sent ≡ u.sent) ⊎ ((i : ℕ) × (v.sent ≡ i ∷ u.sent))

select_host_keeps :
    (u : HttpUpstream)
    → (let v = (select_host u).1 in
        (v.cfg ≡ u.cfg)
        × (v.circuit_breaker ≡ u.circuit_breaker)
        × (v.metrics ≡ u.metrics)
        × (v.state.active_connections ≡ u.state.active_connections)
        × (v.sent ≡ u.sent))
unfolding select_host
select_host_keeps u = ground arith

abbrev SameButSent : HttpUpstream → HttpUpstream → Type 0
SameButSent u v =
    (v.cfg ≡ u.cfg)
    × (v.circuit_breaker ≡ u.circuit_breaker)
    × (v.metrics ≡ u.metrics)
    × (v.state ≡ u.state)

exchange_keeps :
    (x : Exchange) (i : ℕ) (u : HttpUpstream)
    → SameButSent u (exchange x i u).0
      × (((exchange x i u).0.sent ≡ u.sent) ⊎ ((j : ℕ) × ((exchange x i u).0.sent ≡ j ∷ u.sent)))
unfolding exchange
exchange_keeps x i u = elim (Option-cases x.request_err) [
  | inl built ↦ rw built ((refl, refl, refl, refl), inr (i, refl))
  | inr (e, failed) ↦ rw failed ((refl, refl, refl, refl), inl refl)
]

release-acquire :
    (i : ℕ) (u v : HttpUpstream)
    → v.cfg ≡ u.cfg
    → v.state ≡ (acquire i u).state
    → (release i v).state.active_connections ≡ u.state.active_connections
unfolding release acquire
release-acquire i u v c s = elim (Bool-cases (is_least_conns u.cfg.lb_mode)) [
  | inl least ↦ ground (arith, raise_lower u.state.active_connections i)
  | inr other ↦ ground arith
]

acquire_keeps :
    (i : ℕ) (u : HttpUpstream)
    → (let v = acquire i u in
        (v.cfg ≡ u.cfg)
        × (v.circuit_breaker ≡ u.circuit_breaker)
        × (v.metrics ≡ u.metrics)
        × (v.sent ≡ u.sent))
unfolding acquire
acquire_keeps i u = ground arith

release_keeps :
    (i : ℕ) (u : HttpUpstream)
    → (let v = release i u in
        (v.cfg ≡ u.cfg)
        × (v.circuit_breaker ≡ u.circuit_breaker)
        × (v.metrics ≡ u.metrics)
        × (v.sent ≡ u.sent))
unfolding release
release_keeps i u = ground arith

-- One attempt, whatever it meets, leaves the breaker, the metrics and the configuration alone, sends
-- at most one request, and gives back the connection that it counted: the counts of the active
-- connections are what they were.
pub do_call-IsOneAttempt : (x : Exchange) (u : HttpUpstream) → IsOneAttempt u (do_call x u).0
unfolding do_call
do_call-IsOneAttempt x u =
    let i = (select_host u).0 in
    let chosen = (select_host u).1 in
    let kept = select_host_keeps u in
    let up = acquire i chosen in
    let up_kept = acquire_keeps i chosen in
    let x_kept = exchange_keeps x i up in
    let after = (exchange x i up).0 in
    let down_kept = release_keeps i after in
    let balanced = release-acquire i chosen after (x_kept.0.0 ∙ up_kept.0) x_kept.0.3 in
    record {
      cfg = down_kept.0 ∙ x_kept.0.0 ∙ up_kept.0 ∙ kept.0;
      breaker = down_kept.1 ∙ x_kept.0.1 ∙ up_kept.1 ∙ kept.1;
      metrics = down_kept.2 ∙ x_kept.0.2 ∙ up_kept.2 ∙ kept.2;
      connections = balanced ∙ kept.3;
      sends = ground (arith, down_kept.3, up_kept.3, kept.4, x_kept.1);
    }

exchange-receive :
    (x : Exchange) (i : ℕ) (u : HttpUpstream)
    → x.request_err ≡ none
    → (exchange x i u).1 ≡ receive u.cfg.policy x.answer
unfolding exchange
exchange-receive x i u built = ground arith

-- The response of an attempt whose request is built is that of its answer.
pub do_call-receive :
    (x : Exchange) (u : HttpUpstream)
    → x.request_err ≡ none
    → (do_call x u).1 ≡ receive u.cfg.policy x.answer
unfolding do_call
do_call-receive x u built =
    let i = (select_host u).0 in
    let chosen = (select_host u).1 in
    exchange-receive x i (acquire i chosen) built
    ∙ ap (λ c. receive c.policy x.answer) ((acquire_keeps i chosen).0 ∙ (select_host_keeps u).0)
