-- ===== src/Upstream/Attempt.antt =====
-- `doCall` of upstream.go and what it calls: one attempt, from the choice of a host to the
-- classified response.
pub mod Response
pub mod Effects
pub mod Passing
use aastro.Prelude.{
  ℕ, zero, suc, ◌+◌, ◌-◌, Bool, true, false, List, [], ◌∷◌, ◌&&◌, Option, none, some, String,
  length, ltb, leb, if◌then◌else◌, contains, insert, get_or, set, is_empty, ◌⊎◌, inl, inr,
}
use aastro.Header.{Header}
use aastro.UpstreamError.{
  UpstreamErrorKind, timeout, canceled, connection, redirect, client_error, bad_status, read_error,
  body_too_large, internal, UpstreamError, GoError,
}
use aastro.Upstream.{
  LbMode, round_robin, least_conns, other_mode, UpstreamPolicy, HttpUpstream, UpstreamResponse,
  Stream, HttpResponse, DoError, Answer, do_failed, answered, Exchange, failed_response,
}
use aastro.Upstream.Balance.{select_host}

classify_status : ℕ → Option UpstreamErrorKind
classify_status status =
    if leb 500 status
    then some bad_status
    else if leb 400 status
    then some client_error
    else if leb 300 status
    then some redirect
    else none

unfoldable pub classify_do_error : DoError → UpstreamErrorKind
classify_do_error e =
    if e.is_deadline_exceeded then timeout else if e.is_canceled then canceled else connection

-- `filterHeaders`. Go leaves the order of the loop open; here the last entry goes first.
unblocked : List String → Header → Header
unblocked blacklist [] = []
unblocked blacklist ((k, vs) ∷ h) =
    let rest = unblocked blacklist h in if contains blacklist k then rest else insert k vs rest

pub filter_headers : UpstreamPolicy → Header → Header
unfolding unblocked
filter_headers policy h =
    if is_empty policy.header_blacklist then h else unblocked policy.header_blacklist h

take : ℕ → List ℕ → List ℕ
take zero xs = []
take (suc n) [] = []
take (suc n) (x ∷ xs) = x ∷ take n xs

-- `io.ReadAll`, behind `io.LimitReader` where a limit is given. The limit hides the error behind
-- the bytes when it is reached before that error is read. A limit has no bound here, where one more than
-- the greatest int64 wraps around in the source.
pub read_all : Option ℕ → Stream → List ℕ × Option GoError
unfolding take
read_all none s = (s.bytes, s.read_err)
read_all (some limit) s =
    if leb limit (length s.bytes) then (take limit s.bytes, none) else (s.bytes, s.read_err)

-- `maxResponseBodySize` is a limit only if it is positive; one byte more than it is read.
abbrev limit_of : UpstreamPolicy → Option ℕ
limit_of policy =
    if ltb 0 policy.max_response_body_size then some (policy.max_response_body_size + 1) else none

abbrev read_failure : Option GoError → GoError → UpstreamError
read_failure (some ctx) e = record { kind = canceled; err = ctx }
read_failure none e = record { kind = read_error; err = e }

checked : UpstreamPolicy → Stream → List ℕ × Option GoError → List ℕ ⊎ UpstreamError
checked policy s (got, some e) = inr (read_failure s.ctx_err e)
checked policy s (got, none) =
    if ltb 0 policy.max_response_body_size && ltb policy.max_response_body_size (length got)
    then inr (record { kind = body_too_large; err = "response size exceeds limit" ∷ [] })
    else inl got

-- `readBody`, with the data on the left and the error on the right.
pub read_body : UpstreamPolicy → Stream → List ℕ ⊎ UpstreamError
unfolding read_all checked
read_body policy s = checked policy s (read_all (limit_of policy) s)

abbrev status_error : Option UpstreamErrorKind → Option UpstreamError
status_error none = none
status_error (some k) = some (record { kind = k; err = "upstream returned a failure status" ∷ [] })

-- The response of an answer whose body is read.
with_body : UpstreamPolicy → HttpResponse → List ℕ ⊎ UpstreamError → UpstreamResponse
unfolding classify_status
with_body policy r (inr e) = record { status = r.status; headers = []; body = []; err = some e }
with_body policy r (inl got) = record {
  status = r.status;
  headers = filter_headers policy r.header;
  body = got;
  err = status_error (classify_status r.status);
}

-- `doCall` from the result of `client.Do` on.
unfoldable pub receive : UpstreamPolicy → Answer → UpstreamResponse
unfolding with_body
receive policy (do_failed e) = failed_response (record { kind = classify_do_error e; err = e.err })
receive policy (answered r) = with_body policy r (read_body policy r.body)

abbrev set_connections : List ℕ → HttpUpstream → HttpUpstream
set_connections conns u = record u { state = record (u.state) { active_connections = conns } }

abbrev is_least_conns : LbMode → Bool
is_least_conns least_conns = true
is_least_conns round_robin = false
is_least_conns (other_mode m) = false

-- The count of host `i` is raised while the attempt runs.
acquire : ℕ → HttpUpstream → HttpUpstream
acquire i u =
    if is_least_conns u.cfg.lb_mode
    then set_connections (set conns i (get_or conns i 0 + 1)) u
    else u
  where
    open u.state use {active_connections as conns}

-- The deferred decrement.
release : ℕ → HttpUpstream → HttpUpstream
release i u =
    if is_least_conns u.cfg.lb_mode
    then set_connections (set conns i (get_or conns i 0 - 1)) u
    else u
  where
    open u.state use {active_connections as conns}

-- The request is built and sent to host `i`.
exchange : Exchange → ℕ → HttpUpstream → HttpUpstream × UpstreamResponse
exchange x i u = elim x.request_err [
  | some e ↦ (u, failed_response (record { kind = internal; err = e }))
  | none ↦ (record u { sent = i ∷ u.sent }, receive u.cfg.policy x.answer)
]

abbrev releasing : ℕ → HttpUpstream × UpstreamResponse → HttpUpstream × UpstreamResponse
releasing i (u, resp) = (release i u, resp)

pub do_call : Exchange → HttpUpstream → HttpUpstream × UpstreamResponse
unfolding acquire release exchange
do_call x u = let (i, chosen) = select_host u in releasing i (exchange x i (acquire i chosen))
