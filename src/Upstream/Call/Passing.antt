-- ===== src/Upstream/Call/Passing.antt =====
-- The status of the response that `call` of upstream.go gives, where it is forwarded.
use aastro.Prelude.{ℕ, ◌≡◌, inl, inr, refl, ap, ◌∙◌, false, [], Option, none, some, String}
use aastro.Prelude.Fallible.{WhenSome}
use aastro.UpstreamError.{policy_violation, UpstreamError, is_propagatable}
use aastro.Upstream.{HttpUpstream, UpstreamResponse, Exchange}
use aastro.Upstream.Attempt.Response.{kind_of}
use aastro.Upstream.Attempt.Passing.{HasWritableStatus, CanPass}
use aastro.Upstream.Retry.{call_with_retry}
use aastro.Upstream.Retry.Passing.{call_with_retry-CanPass}
use aastro.Upstream.Call.{settle, call}
use aastro.Upstream.Call.Policy.{Settles, settle-some}
use aastro.Router.{writable, forwards}

forwards-kind_of : (a b : Option UpstreamError) → kind_of a ≡ kind_of b → forwards a ≡ forwards b
unfolding forwards
forwards-kind_of none none h = refl
forwards-kind_of none (some e) h = cc
forwards-kind_of (some e) none h = cc
forwards-kind_of (some e) (some f) h = cc

violation_stops :
    (a : Option UpstreamError) → kind_of a ≡ some policy_violation → forwards a ≡ false
violation_stops a h =
    forwards-kind_of a (some (record { kind = policy_violation; err = [] })) h
    ∙ (unfold forwards is_propagatable in refl)

Settles-CanPass :
    {u : HttpUpstream} {r r' : UpstreamResponse} → Settles u r r' → CanPass r → CanPass r'
Settles-CanPass {u} {r} {r'} s (inl ok) = inl (ap writable s.status ∙ ok)
Settles-CanPass {u} {r} {r'} s (inr stays) = elim s.kind [
  | inl same ↦ inr (forwards-kind_of r'.err r.err same ∙ stays)
  | inr violation ↦ inr (violation_stops r'.err violation)
]

settle-CanPass :
    (now : ℕ) (u : HttpUpstream) (o : Option UpstreamResponse)
    → WhenSome CanPass o
    → WhenSome CanPass (settle now (u, o)).1
settle-CanPass now u none h = unfold settle in h
settle-CanPass now u (some r) h =
    let (c, s, l, (checked, returned, settled)) = settle-some now u r in
    rw returned (Settles-CanPass settled h)

module _ (world : ℕ → Exchange) (all : (n : ℕ) → HasWritableStatus (world n).answer) where
  -- Where the statuses of all answers can be written, so can that of the response which a call gives,
  -- if it is forwarded.
  pub call-CanPass :
      (method : String) (now : ℕ) (u : HttpUpstream) → WhenSome CanPass (call method world now u).1
  unfolding call
  call-CanPass method now u =
      let (v, o) = call_with_retry method world u in
      settle-CanPass now v o (call_with_retry-CanPass world all method u)
