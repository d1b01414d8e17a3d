-- ===== src/Upstream/Retry/Passing.antt =====
-- The status of the response that `callWithRetry` of upstream.go ends with, where it is forwarded.
use aastro.Prelude.{
  ℕ, zero, suc, ◌+◌, inl, inr, refl, Bool, true, false, not, ◌||◌, Option, none, some, String,
  Option-cases, Bool-cases,
}
use aastro.Prelude.Fallible.{WhenSome}
use aastro.UpstreamError.{GoError, is_propagatable}
use aastro.Upstream.{RetryPolicy, HttpUpstream, UpstreamResponse, Exchange}
use aastro.Upstream.Attempt.{do_call}
use aastro.Upstream.Attempt.Passing.{HasWritableStatus, CanPass, do_call-CanPass}
use aastro.Upstream.Retry.{
  should_retry, ask_breaker, count_retry, backoff, Turn, finished, retrying, after_call, after_ask,
  in_context, round, is_last, run_rounds, next_attempt, call_with_retry,
}
use aastro.Router.{forwards}

-- The response of a turn.
abbrev WhenTurn : Turn → Type 0
WhenTurn (finished r) = CanPass r
WhenTurn (retrying r) = CanPass r

after_call-WhenTurn :
    (last : Bool) (method : String) (retry : RetryPolicy) (x : Exchange) (u : HttpUpstream)
    (r : UpstreamResponse)
    → CanPass r
    → WhenTurn (after_call last method retry x (u, r)).1
unfolding after_call forwards is_propagatable
after_call-WhenTurn last method retry x u r h =
    elim (Bool-cases (last || not (should_retry method r retry))) [
      | inl ends ↦ rw ends h
      | inr goes ↦ elim (Option-cases (backoff retry x)) [
        | inl waited ↦ rw (goes, waited) h
        | inr (e, stopped) ↦ rw (goes, stopped) (inr refl)
      ]
    ]

after_ask-WhenTurn :
    (last : Bool) (method : String) (x : Exchange) (u : HttpUpstream) (allowed : Bool)
    → HasWritableStatus x.answer
    → WhenTurn (after_ask last method x (u, allowed)).1
unfolding after_ask forwards is_propagatable
after_ask-WhenTurn last method x u false h = inr refl
after_ask-WhenTurn last method x u true h =
    after_call-WhenTurn last method u.cfg.policy.retry x (do_call x u).0 (do_call x u).1
      (do_call-CanPass x u h)

in_context-WhenTurn :
    (ctx : Option GoError) (last : Bool) (method : String) (x : Exchange) (u : HttpUpstream)
    → HasWritableStatus x.answer
    → WhenTurn (in_context ctx last method x u).1
unfolding in_context forwards is_propagatable
in_context-WhenTurn (some e) last method x u h = inr refl
in_context-WhenTurn none last method x u h =
    let (v, allowed) = ask_breaker u.circuit_breaker x.now u in
    after_ask-WhenTurn last method x v allowed h

next_attempt-WhenSome :
    (more : UpstreamResponse → HttpUpstream → HttpUpstream × Option UpstreamResponse)
    (u : HttpUpstream) (t : Turn)
    → WhenTurn t
    → ((r : UpstreamResponse) (v : HttpUpstream) → CanPass r → WhenSome CanPass (more r v).1)
    → WhenSome CanPass (next_attempt more (u, t)).1
next_attempt-WhenSome more u (finished r) h go = h
next_attempt-WhenSome more u (retrying r) h go = go r u h

module _ (world : ℕ → Exchange) (all : (n : ℕ) → HasWritableStatus (world n).answer) where
  run_rounds-CanPass :
      (left attempt : ℕ) (method : String) (resp : Option UpstreamResponse) (u : HttpUpstream)
      → WhenSome CanPass resp
      → WhenSome CanPass (run_rounds left attempt method world resp u).1
  unfolding run_rounds round
  run_rounds-CanPass zero attempt method resp u h = h
  run_rounds-CanPass (suc left) attempt method resp u h =
      next_attempt-WhenSome (λ r v. run_rounds left (attempt + 1) method world (some r) v) _ _
        (in_context-WhenTurn (world attempt).ctx_err (is_last left) method (world attempt)
          (count_retry attempt u) (all attempt))
        (λ r v ok. run_rounds-CanPass left (attempt + 1) method (some r) v ok)

  pub call_with_retry-CanPass :
      (method : String) (u : HttpUpstream) → WhenSome CanPass (call_with_retry method world u).1
  unfolding call_with_retry
  call_with_retry-CanPass method u = run_rounds-CanPass _ 0 _ none u tt
