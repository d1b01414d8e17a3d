-- ===== src/Examples/Upstreams.antt =====
-- Upstreams of three hosts, and the calls of them.
use aastro.Prelude.{ℕ, ◌+◌, ◌≡◌, refl, true, false, List, [], ◌∷◌, arith, Option, none, some}
use aastro.Breaker.{CircuitBreaker}
use aastro.Upstream.{
  LbMode, round_robin, least_conns, pos, UpstreamPolicy, HttpUpstream, DoError, do_failed, answered,
  Exchange,
}
use aastro.Upstream.Balance.{select_host}
use aastro.Upstream.Balance.Least.{Least, select_host-Least}
use aastro.Upstream.Attempt.{receive, do_call}
use aastro.Upstream.Attempt.Response.{Fits, kind_of, IsBounded, receive-Fits-IsBounded}
use aastro.Upstream.Attempt.Effects.{IsOneAttempt, do_call-IsOneAttempt}
use aastro.Upstream.Retry.{is_idempotent, effective_method}
use aastro.Upstream.Retry.Gate.{IsUnanswered}
use aastro.Upstream.Retry.Probe.{probing}
use aastro.Upstream.Call.{call}
use aastro.Upstream.Call.Stuck.{Incoming, serve, probe_cuts_off}
use aastro.Upstream.Call.Policy.{IsCall, call-IsCall}
use aastro.Examples.Breakers.{opened}

abbrev pub policy : UpstreamPolicy
policy = record {
  header_blacklist = "Server" ∷ [];
  require_body = true;
  max_response_body_size = 4;
  retry = record { max_retries = pos 2; retry_on_statuses = 503 ∷ []; backoff_delay = 5 };
}

abbrev pub upstream : LbMode → Option CircuitBreaker → HttpUpstream
upstream mode breaker = record {
  cfg = record {
    name = "users";
    hosts = "http://a" ∷ "http://b" ∷ "http://c" ∷ [];
    path = "/users";
    method = "";
    forward_headers = [];
    forward_queries = [];
    forward_params = [];
    lb_mode = mode;
    policy = policy;
  };
  state = record { current_host_idx = 7; active_connections = 4 ∷ 2 ∷ 5 ∷ [] };
  circuit_breaker = breaker;
  metrics = record { retries_total = 0; policy_violations = 0; breaker_state = none };
  sent = [];
}

abbrev refused_connection : DoError
refused_connection = record {
  is_deadline_exceeded = false;
  is_canceled = false;
  err = "connection refused" ∷ [];
}

-- An attempt to which nothing answers, and one that the upstream answers.
abbrev unanswered : ℕ → Exchange
unanswered t = record {
  ctx_err = none;
  now = t;
  request_err = none;
  answer = do_failed refused_connection;
  backoff_err = none;
}

abbrev pub well : ℕ → Exchange
well t = record (unanswered t) {
  answer = answered (record {
    status = 200;
    header = ("Server", "nginx" ∷ []) ∷ [];
    body = record { bytes = 1 ∷ 2 ∷ []; read_err = none; ctx_err = none };
  });
}

abbrev pub down : ℕ → Exchange
down n = unanswered (30 + n)

abbrev later : List Incoming
later = record { method = "GET"; world = well; reported_at = 900 } ∷ []

unanswered-IsUnanswered : (t : ℕ) → IsUnanswered (unanswered t)
unanswered-IsUnanswered t = record {
  alive = refl;
  built = refl;
  waited = refl;
  error = refused_connection;
  failed = refl;
  not_canceled = refl;
}

call-IsCall_example :
    IsCall 3 (upstream round_robin none) (call "POST" well 40 (upstream round_robin none))
    × (is_idempotent (effective_method (upstream round_robin none).cfg "POST") ≡ false
        → IsCall 1 (upstream round_robin none) (call "POST" well 40 (upstream round_robin none)))
call-IsCall_example = call-IsCall 2 "POST" well 40 (upstream round_robin none) refl

probe_cuts_off_example :
    let v = (call "GET" down 60 (upstream round_robin (some opened))).0 in
    ((serve later v).sent ≡ v.sent) × ((serve later v).circuit_breaker ≡ some (probing opened))
unfolding is_idempotent effective_method
probe_cuts_off_example =
    probe_cuts_off 0 "GET" down 60 later (upstream round_robin (some opened)) opened refl refl refl
      refl (omega arith) (unanswered-IsUnanswered 30) (unanswered-IsUnanswered 31)

receive-Fits-IsBounded_example :
    Fits (kind_of (receive policy (well 1).answer).err) (receive policy (well 1).answer)
    × IsBounded policy (receive policy (well 1).answer)
receive-Fits-IsBounded_example = receive-Fits-IsBounded policy (well 1).answer

do_call-IsOneAttempt_example :
    IsOneAttempt (upstream least_conns none) (do_call (well 1) (upstream least_conns none)).0
do_call-IsOneAttempt_example = do_call-IsOneAttempt (well 1) (upstream least_conns none)

select_host-Least_example :
    Least (4 ∷ 2 ∷ 5 ∷ []) (select_host (upstream least_conns none)).0
    × ((select_host (upstream least_conns none)).1 ≡ upstream least_conns none)
select_host-Least_example =
    select_host-Least (upstream least_conns none) refl (omega arith) refl
      (omega arith, (omega arith, (omega arith, tt)))
