-- ===== src/Upstream/Balance.antt =====
-- `selectHost` of upstream.go: which host of the upstream is next.
pub mod Least
pub mod Rotation
use aastro.Prelude.{ℕ, ◌+◌, ◌%◌, ◌^◌, ◌-◌, List, ◌∷◌, length, ltb, ◌==◌, if◌then◌else◌, String}
use aastro.Upstream.{LbMode, round_robin, least_conns, other_mode, HttpUpstream}

abbrev pub max_int64 : ℕ
max_int64 = 2 ^ 63 - 1

-- The loop over the hosts and their counts, from host `i` on, with the least count and its host so far.
pub scan : List String → List ℕ → ℕ → ℕ → ℕ → ℕ
scan (h ∷ hs) (c ∷ cs) i min_conns selected =
    scan hs cs (i + 1) (if ltb c min_conns then c else min_conns)
      (if ltb c min_conns then i else selected)
scan _ _ i min_conns selected = selected

-- `atomic.AddUint64(&currentHostIdx, 1)`, and the host that it selects.
abbrev next_idx : HttpUpstream → ℕ
next_idx u = (u.state.current_host_idx + 1) % 2 ^ 64

select_by : LbMode → HttpUpstream → ℕ × HttpUpstream
unfolding scan
select_by round_robin u = (
  next_idx u % length u.cfg.hosts,
  record u { state = record (u.state) { current_host_idx = next_idx u } },
)
select_by least_conns u = (scan u.cfg.hosts u.state.active_connections 0 max_int64 0, u)
select_by (other_mode m) u = (0, u)

-- `selectHost`. With no hosts it panics in the source, and gives 0 here: a configuration that is
-- validated gives every upstream a host.
unfoldable pub select_host : HttpUpstream → ℕ × HttpUpstream
unfolding select_by
select_host u = if length u.cfg.hosts == 1 then (0, u) else select_by u.cfg.lb_mode u
