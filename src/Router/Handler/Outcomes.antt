-- ===== src/Router/Handler/Outcomes.antt =====
-- How a request ends: with a reply, and with every upstream (router.go, `newFlowHandler`).
use aastro.Prelude.{
  ℕ, suc, ◌≡◌, refl, sym, ap, ◌∙◌, true, false, List, [], ◌∷◌, Option, none, some, String, length,
  map, All,
}
use aastro.Header.{Header}
use aastro.Upstream.{HttpUpstream, UpstreamResponse}
use aastro.Flow.{Aggregation}
use aastro.Aggregator.{Codec}
use aastro.Response.{HttpReply, ProblemEncoder}
use aastro.Prelude.Fallible.{WhenSome, WhenSome-eq}
use aastro.Upstream.Attempt.Passing.{CanPass}
use aastro.Router.{RequestIds, writable, copy_response}
use aastro.Router.Outcome.Statuses.{writable-build_response, writable-build_proxy_response}
use aastro.Scatter.Passing.{Writes, WhenReturned, call_upstream-WhenReturned, results_from-CanPass}
use aastro.Scatter.{
  Outside, Slot, waiting, panicked, returned, unwrap_all, read_request_body, results_from,
}
use aastro.Scatter.Results.{
  HasRetries, call_upstream-returned, results_from-Answered, length-results_from,
}
use aastro.Router.Handler.Behaved.{
  sendable, Runs, Keeps, IsWellBehaved, execute_plugins-Keeps, execute_plugins-Runs,
}
use aastro.Router.Handler.{
  plugin_type_response, FlowRequest, Context, Plugin, Flow, execute_plugins, Dispatched, too_large,
  built, proxied, aggregated, call_upstreams, dispatch, send, names_of, after_response_plugins,
  respond, after_request_plugins, handle, plugin_type_request, Executed, panics, fails, leaves,
}

length-names_of : (us : List HttpUpstream) → length (names_of us) ≡ length us
length-names_of [] = refl
length-names_of (u ∷ us) = ap suc (length-names_of us)

-- A reply, and every upstream still there.
pub record IsReplied (us : List HttpUpstream) (p : List HttpUpstream × Option HttpReply)
    : Type 0 where
  pub kept : length p.0 ≡ length us
  pub reply : HttpReply
  pub answered : p.1 ≡ some reply

module _ (codec : Codec) (encoder : ProblemEncoder) (ids : RequestIds) (outside : ℕ → Outside) where
  -- The upstreams are still there, and a reply is built that can be sent.
  abbrev IsBuilt : List HttpUpstream → List HttpUpstream × Dispatched → Type 0
  IsBuilt us (vs, d) =
      (length vs ≡ length us)
      × ((reply : HttpReply) × ((d ≡ built reply) × (writable reply.status ≡ true)))

  proxied-built :
      (s : Slot)
      → ((r : UpstreamResponse) × (s ≡ returned r))
      → WhenReturned s
      → (reply : HttpReply) × ((proxied codec encoder ids outside s ≡ built reply)
          × (writable reply.status ≡ true))
  unfolding proxied
  proxied-built waiting (r, e) h = cc
  proxied-built panicked (r, e) h = cc
  proxied-built (returned r) e h = (_, (refl, writable-build_proxy_response codec encoder ids r h))

  aggregated-built :
      (agg : Aggregation) (names : List String) (o : Option (List UpstreamResponse))
      → ((rs : List UpstreamResponse) × ((o ≡ some rs) × (length rs ≡ length names)))
      → WhenSome (All CanPass) o
      → (reply : HttpReply) × ((aggregated codec encoder ids outside agg names o ≡ built reply)
          × (writable reply.status ≡ true))
  unfolding aggregated
  aggregated-built agg names o (rs, (e, l)) h = rw e (
    _,
    (
      refl,
      writable-build_response codec encoder ids agg names rs (sym l)
          (WhenSome-eq (All CanPass) h e),
    ),
  )

  module _ (all : (i : ℕ) → Writes (outside i)) where
    many-IsBuilt :
        (method : String) (agg : Aggregation) (us : List HttpUpstream)
        → All HasRetries us
        → (let results = results_from method outside 0 us in
            IsBuilt us (
              map (λ r. r.0) results,
              aggregated codec encoder ids outside agg
                  (names_of us)
                  (unwrap_all (map (λ r. r.1) results)),
            ))
    many-IsBuilt method agg us h =
        let (rs, e, l) = results_from-Answered method outside 0 us h in
        (
          length-results_from method outside 0 us,
          aggregated-built agg (names_of us) _ (rs, (e, l ∙ sym (length-names_of us)))
              (results_from-CanPass method outside all us),
        )

    call_upstreams-IsBuilt :
        (method : String) (agg : Aggregation) (us : List HttpUpstream)
        → All HasRetries us
        → IsBuilt us (call_upstreams codec encoder ids outside method agg us)
    unfolding call_upstreams
    call_upstreams-IsBuilt method agg [] h = many-IsBuilt method agg [] h
    call_upstreams-IsBuilt method agg (u ∷ []) (h, hs) = (
      refl,
      proxied-built _ (call_upstream-returned method (outside 0) u h)
          (call_upstream-WhenReturned method (outside 0) u (all 0)),
    )
    call_upstreams-IsBuilt method agg (u ∷ w ∷ us) h = many-IsBuilt method agg (u ∷ w ∷ us) h

  send-replied :
      (written : Header) (o : Option HttpReply)
      → sendable o ≡ true
      → (reply : HttpReply) × (send written o ≡ some reply)
  unfolding send copy_response
  send-replied written none h = cc
  send-replied written (some resp) h = rw h (_, refl)

  sent :
      (written : Header) (e : Executed)
      → Keeps e
      → (reply : HttpReply) × (after_response_plugins codec encoder ids outside written e
          ≡ some reply)
  unfolding after_response_plugins
  sent written panics h = absurd h
  sent written fails h = (_, refl)
  sent written (leaves ctx) h = send-replied written ctx.response h

  respond-replied :
      (written : Header) (plugins : List Plugin) (ctx : Context) (reply : HttpReply)
      (d : Dispatched)
      → All IsWellBehaved plugins
      → d ≡ built reply
      → writable reply.status ≡ true
      → (final : HttpReply) × (respond codec encoder ids outside written plugins ctx d ≡ some final)
  unfolding respond
  respond-replied written plugins ctx reply d h e ok = rw e (
      sent written _ (
        execute_plugins-Keeps plugin_type_response plugins (record ctx { response = some reply }) h
          ok))

  module _ (all : (i : ℕ) → Writes (outside i)) where
    dispatched-IsReplied :
        (written : Header) (req : FlowRequest) (f : Flow) (ctx : Context) (body : Option (List ℕ))
        → All HasRetries f.upstreams
        → All IsWellBehaved f.plugins
        → (let (us, d) = elim body as (λ _. List HttpUpstream × Dispatched) [
          | none ↦ (f.upstreams, too_large)
          | some b ↦ call_upstreams codec encoder ids outside req.method f.aggregation f.upstreams
        ] in
            IsReplied f.upstreams (us, respond codec encoder ids outside written f.plugins ctx d))
    unfolding respond
    dispatched-IsReplied written req f ctx none h k = record {
      kept = refl;
      reply = _;
      answered = refl;
    }
    dispatched-IsReplied written req f ctx (some b) h k =
        let (l, (reply, (e, ok))) =
          call_upstreams-IsBuilt all req.method f.aggregation f.upstreams h in
        let (final, same) = respond-replied written f.plugins ctx reply _ k e ok in
        record { kept = l; reply = final; answered = same }

    after_request-IsReplied :
        (written : Header) (req : FlowRequest) (f : Flow) (e : Executed)
        → Runs e
        → All HasRetries f.upstreams
        → All IsWellBehaved f.plugins
        → IsReplied f.upstreams (after_request_plugins codec encoder ids outside written req f e)
    unfolding after_request_plugins dispatch
    after_request-IsReplied written req f panics r h k = absurd r
    after_request-IsReplied written req f fails r h k = record {
      kept = refl;
      reply = _;
      answered = refl;
    }
    after_request-IsReplied written req f (leaves ctx) r h k =
        dispatched-IsReplied written req f ctx (read_request_body req.body) h k

    -- The handler of a flow does not panic, answers and loses no upstream, whatever the request is and however its
    -- body, the upstreams and the plugins fail, if no retries are negative, every answer of an
    -- upstream has a status from 100 to 999, and the plugins neither panic nor leave a response that
    -- has none of these statuses, or no response, where there was a response that has one.
    pub handle-IsReplied :
        (written : Header) (req : FlowRequest) (f : Flow)
        → All HasRetries f.upstreams
        → All IsWellBehaved f.plugins
        → IsReplied f.upstreams (handle codec encoder ids outside written req f)
    unfolding handle
    handle-IsReplied written req f h k =
        after_request-IsReplied written req f _
          (execute_plugins-Runs plugin_type_request f.plugins
            (record { request = req; response = none }) k)
          h k

  -- Without the condition on the statuses it panics: a flow with no plugins, whose upstream is answered with a
  -- status that cannot be written, gets no reply.
  unwritable_panics :
      (written : Header) (ctx : Context) (reply : HttpReply)
      → writable reply.status ≡ false
      → respond codec encoder ids outside written [] ctx (built reply) ≡ none
  unfolding respond execute_plugins after_response_plugins send copy_response
  unwritable_panics written ctx reply h = rw h refl
