-- ===== src/Upstream/Balance/Rotation.antt =====
-- The choice of a host in turn.
use native.Mathlib.Nat.{mod-lt}
use aastro.Prelude.{ℕ, zero, suc, ◌+◌, ◌%◌, ◌^◌, ◌≡◌, ◌≢◌, ◌<◌, sym, ◌∙◌, length, arith}
use aastro.Upstream.{round_robin, HttpUpstream}
use aastro.Upstream.Balance.{select_host}

-- The upstream after `k` selections, and the host that the next one gives.
after_selections : ℕ → HttpUpstream → HttpUpstream
after_selections zero u = u
after_selections (suc k) u = after_selections k (select_host u).1

nth_host : ℕ → HttpUpstream → ℕ
unfolding after_selections
nth_host k u = (select_host (after_selections k u)).0

abbrev IsRotating : HttpUpstream → Type 0
IsRotating u = (u.cfg.lb_mode ≡ round_robin) × (1 < length u.cfg.hosts)

-- One selection, before the counter wraps.
rotates :
    (u : HttpUpstream)
    → IsRotating u
    → u.state.current_host_idx + 1 < 2 ^ 64
    → ((select_host u).0 ≡ (u.state.current_host_idx + 1) % length u.cfg.hosts)
      × ((select_host u).1.cfg ≡ u.cfg)
      × ((select_host u).1.state.current_host_idx ≡ u.state.current_host_idx + 1)
unfolding select_host
rotates u (mode, many) h = ground arith

nth_host_lem :
    (k : ℕ) (u : HttpUpstream)
    → IsRotating u
    → u.state.current_host_idx + 1 + k < 2 ^ 64
    → nth_host k u ≡ (u.state.current_host_idx + 1 + k) % length u.cfg.hosts
unfolding nth_host
nth_host_lem zero u r h = ground (arith, rotates u r)
nth_host_lem (suc k) u r h = ground (arith, rotates u r, nth_host_lem k (select_host u).1)

mod_injective : (a k l n : ℕ) → k < l → l < n → (a + k) % n ≢ (a + l) % n
mod_injective a k l n h lt e = grind arith

-- In turn, with more than one host and a counter that does not wrap meanwhile: of as many
-- selections in a row as there are hosts no two give the same host, and each gives one of the hosts.
nth_host_distinct :
    (u : HttpUpstream) (k l : ℕ)
    → u.cfg.lb_mode ≡ round_robin
    → 1 < length u.cfg.hosts
    → u.state.current_host_idx + length u.cfg.hosts < 2 ^ 64
    → k < l
    → l < length u.cfg.hosts
    → (nth_host k u ≢ nth_host l u) × (nth_host k u < length u.cfg.hosts)
nth_host_distinct u k l mode many room h lt =
    let at_k = nth_host_lem k u (mode, many) (omega arith) in
    let at_l = nth_host_lem l u (mode, many) (omega arith) in
    (
      λ e. mod_injective (u.state.current_host_idx + 1) k l _ h lt (sym at_k ∙ e ∙ at_l),
      rw at_k (mod-lt _ (omega arith)),
    )
