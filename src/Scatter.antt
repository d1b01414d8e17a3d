-- ===== src/Scatter.antt =====
-- scatter.go: the calls of a flow's upstreams for one request.
-- A call touches the state of its own upstream only, and a goroutine writes its own entry of `results`: the
-- goroutines are taken one after the other, and their interleaving, and that with other requests, is not
-- modelled. `Outside` is all that the call of one upstream meets outside the gateway; the metrics of
-- the flow are left out.
pub mod Results
pub mod Passing
pub mod Spending
use aastro.Prelude.{
  ℕ, zero, suc, ◌+◌, ◌*◌, ◌^◌, Bool, true, false, List, [], ◌∷◌, Option, none, some, String, length,
  ltb, if◌then◌else◌,
}
use aastro.UpstreamError.{GoError}
use aastro.Upstream.{HttpUpstream, UpstreamResponse, Stream, Exchange}
use aastro.Upstream.Attempt.{read_all}
use aastro.Upstream.Call.{call}

abbrev max_body_size : ℕ
max_body_size = 5 * 2 ^ 20

-- The checks of `readBody` on what was read.
abbrev accepted : List ℕ × Option GoError → Option (List ℕ)
accepted (body, some e) = none
accepted (body, none) = if ltb max_body_size (length body) then none else some body

-- `readBody` of the client's request; none is a body that is unreadable or too large.
pub read_request_body : Stream → Option (List ℕ)
read_request_body body = accepted (read_all (some (max_body_size + 1)) body)

pub record Outside : Type 0 where
  pub world : ℕ → Exchange
  pub reported_at : ℕ

-- How an entry of `results` stands; a panic in a goroutine ends the gateway.
pub data Slot : Type 0 where
  waiting panicked : Slot
  returned : UpstreamResponse → Slot

abbrev pub slot_of : Option UpstreamResponse → Slot
slot_of none = panicked
slot_of (some resp) = returned resp

-- The responses, if no call panicked.
pub unwrap_all : List Slot → Option (List UpstreamResponse)
unwrap_all [] = some []
unwrap_all (waiting ∷ ss) = none
unwrap_all (panicked ∷ ss) = none
unwrap_all (returned r ∷ ss) =
    let rest = unwrap_all ss in elim rest [ none ↦ none | some rs ↦ some (r ∷ rs) ]

-- `callUpstream`.
pub call_upstream : String → Outside → HttpUpstream → HttpUpstream × Slot
call_upstream method outside u =
    let (v, resp) = call method outside.world outside.reported_at u in (v, slot_of resp)

module _ (method : String) (outside : ℕ → Outside) where
  -- The goroutine of one upstream.
  pub goroutine : ℕ → HttpUpstream × Slot → HttpUpstream × Slot
  goroutine i (u, s) = call_upstream method (outside i) u

  -- `results` after `wg.Wait()`, with the upstreams from number `i` on.
  pub results_from : ℕ → List HttpUpstream → List (HttpUpstream × Slot)
  results_from i [] = []
  results_from i (u ∷ us) = goroutine i (u, waiting) ∷ results_from (i + 1) us
