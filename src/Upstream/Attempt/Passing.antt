-- ===== src/Upstream/Attempt/Passing.antt =====
-- The status of the response of one attempt (upstream.go, `doCall`), where it is forwarded to a client.
use aastro.Prelude.{ℕ, ◌≡◌, ◌⊎◌, inl, inr, refl, true, false, List, arith, Option-cases}
use aastro.UpstreamError.{UpstreamError, is_propagatable}
use aastro.Upstream.{
  UpstreamPolicy, HttpUpstream, UpstreamResponse, Answer, do_failed, answered, HttpResponse,
  Exchange,
}
use aastro.Upstream.Balance.{select_host}
use aastro.Upstream.Attempt.{
  classify_do_error, receive, with_body, read_body, exchange, do_call, acquire,
}
use aastro.Router.{writable, forwards}

-- An answer whose status can be written to a client.
abbrev pub HasWritableStatus : Answer → Type 0
HasWritableStatus (do_failed e) = Unit
HasWritableStatus (answered r) = writable r.status ≡ true

-- A response whose status can be written, or which is not forwarded.
abbrev pub CanPass : UpstreamResponse → Type 0
CanPass r = (writable r.status ≡ true) ⊎ (forwards r.err ≡ false)

with_body-CanPass :
    (policy : UpstreamPolicy) (r : HttpResponse) (b : List ℕ ⊎ UpstreamError)
    → writable r.status ≡ true
    → CanPass (with_body policy r b)
unfolding with_body
with_body-CanPass policy r (inl got) h = inl h
with_body-CanPass policy r (inr e) h = inl h

receive-CanPass :
    (policy : UpstreamPolicy) (a : Answer) → HasWritableStatus a → CanPass (receive policy a)
unfolding receive classify_do_error forwards is_propagatable
receive-CanPass policy (do_failed e) h = ground arith
receive-CanPass policy (answered r) h = with_body-CanPass policy r (read_body policy r.body) h

exchange-CanPass :
    (x : Exchange) (i : ℕ) (u : HttpUpstream)
    → HasWritableStatus x.answer
    → CanPass (exchange x i u).1
unfolding exchange forwards is_propagatable
exchange-CanPass x i u h = elim (Option-cases x.request_err) [
  | inl built ↦ rw built (receive-CanPass u.cfg.policy x.answer h)
  | inr (e, not_built) ↦ rw not_built (inr refl)
]

pub do_call-CanPass :
    (x : Exchange) (u : HttpUpstream) → HasWritableStatus x.answer → CanPass (do_call x u).1
unfolding do_call
do_call-CanPass x u h =
    exchange-CanPass x (select_host u).0 (acquire (select_host u).0 (select_host u).1) h
