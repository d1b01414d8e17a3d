-- ===== src/Scatter/Passing.antt =====
-- The statuses of the responses of a scatter (scatter.go), where they are forwarded.
use aastro.Prelude.{ℕ, ◌+◌, List, [], ◌∷◌, Option, none, some, String, map, All}
use aastro.Prelude.Fallible.{WhenSome}
use aastro.Upstream.{HttpUpstream, UpstreamResponse}
use aastro.Upstream.Attempt.Passing.{HasWritableStatus, CanPass}
use aastro.Upstream.Call.{call}
use aastro.Upstream.Call.Passing.{call-CanPass}
use aastro.Scatter.{
  Outside, Slot, waiting, panicked, returned, slot_of, unwrap_all, call_upstream, goroutine,
  results_from,
}

-- What `client.Do` gives to the calls has statuses that can be written.
abbrev pub Writes : Outside → Type 0
Writes o = (n : ℕ) → HasWritableStatus (o.world n).answer

abbrev pub WhenReturned : Slot → Type 0
WhenReturned waiting = Unit
WhenReturned panicked = Unit
WhenReturned (returned r) = CanPass r

slot_of-WhenReturned : (o : Option UpstreamResponse) → WhenSome CanPass o → WhenReturned (slot_of o)
slot_of-WhenReturned none h = h
slot_of-WhenReturned (some r) h = h

pub call_upstream-WhenReturned :
    (method : String) (o : Outside) (u : HttpUpstream)
    → Writes o
    → WhenReturned (call_upstream method o u).1
unfolding call_upstream
call_upstream-WhenReturned method o u all =
    slot_of-WhenReturned (call method o.world o.reported_at u).1
      (call-CanPass o.world all method o.reported_at u)

WhenSome-cons :
    (r : UpstreamResponse) (o : Option (List UpstreamResponse))
    → CanPass r
    → WhenSome (All CanPass) o
    → WhenSome (All CanPass) (elim o [ none ↦ none | some rs ↦ some (r ∷ rs) ])
WhenSome-cons r none h hs = tt
WhenSome-cons r (some rs) h hs = (h, hs)

unwrap_all-CanPass : (ss : List Slot) → All WhenReturned ss → WhenSome (All CanPass) (unwrap_all ss)
unfolding unwrap_all
unwrap_all-CanPass [] h = tt
unwrap_all-CanPass (waiting ∷ ss) h = tt
unwrap_all-CanPass (panicked ∷ ss) h = tt
unwrap_all-CanPass (returned r ∷ ss) (h, hs) =
    WhenSome-cons r (unwrap_all ss) h (unwrap_all-CanPass ss hs)

module _ (method : String) (outside : ℕ → Outside) (all : (i : ℕ) → Writes (outside i)) where
  slots-WhenReturned :
      (i : ℕ) (us : List HttpUpstream)
      → All WhenReturned (map (λ r. r.1) (results_from method outside i us))
  unfolding results_from goroutine
  slots-WhenReturned i [] = tt
  slots-WhenReturned i (u ∷ us) =
      (call_upstream-WhenReturned method (outside i) u (all i), slots-WhenReturned (i + 1) us)

  -- Where the statuses of all answers can be written, so can those of the responses which are forwarded.
  pub results_from-CanPass :
      (us : List HttpUpstream)
      → WhenSome (All CanPass) (unwrap_all (map (λ r. r.1) (results_from method outside 0 us)))
  results_from-CanPass us = unwrap_all-CanPass _ (slots-WhenReturned 0 us)
