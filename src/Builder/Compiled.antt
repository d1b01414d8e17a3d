-- ===== src/Builder/Compiled.antt =====
-- The flows that are built from the configuration (builder.go).
use aastro.Prelude.{
  ◌≤◌, ltb, ◌==◌, true, false, not, ◌&&◌, List, Option, none, some, length, ◌≡◌, ◌⊎◌, refl, arith,
  Bool-cases, inl, inr, ==→eq,
}
use aastro.Prelude.Fallible.{WhenSome-eq}
use aastro.Upstream.{HttpUpstream}
use aastro.Flow.{Aggregation}
use aastro.Config.{AggregationConfig, FlowConfig}
use aastro.Builder.{Loading, CompiledFlow, compile_flow, with_upstreams, init_upstreams}
use aastro.Builder.Results.{Outcome, built, failed, crashed, or_failed}
use aastro.Builder.Aggregations.{flow_aggregation, init_aggregation, no_aggregation}
use aastro.Builder.Upstreams.{AllFresh, init_upstreams-AllFresh}
use aastro.Builder.Results.{WhenBuilt, WhenBuilt-then, WhenBuilt-eq, WhenBuilt-if, or_failed-eq}
use aastro.Builder.Usable.{IsUsable, init_aggregation-IsUsable}

-- What a compiled flow promises: its upstreams are fresh ones for the configured, in order; if it streams it
-- has exactly one; and if it does not and has several, it has a usable aggregation.
pub record IsCompiled (cfg : FlowConfig) (c : CompiledFlow) : Type 0 where
  pub is_streaming : c.streaming ≡ cfg.streaming
  pub is_fresh : AllFresh cfg.upstreams c.flow.upstreams
  pub one_if_streaming : (cfg.streaming ≡ false) ⊎ (length c.flow.upstreams ≡ 1)
  pub can_aggregate :
      (cfg.streaming ≡ true)
      ⊎ ((length c.flow.upstreams ≤ 1)
          ⊎ ((a : AggregationConfig) × ((cfg.aggregation ≡ some a)
                × IsUsable a c.flow.upstreams c.flow.aggregation)))

abbrev CanAggregate : FlowConfig → List HttpUpstream → Aggregation → Type 0
CanAggregate cfg us agg =
    (cfg.streaming ≡ true)
    ⊎ ((length us ≤ 1)
        ⊎ ((a : AggregationConfig) × ((cfg.aggregation ≡ some a) × IsUsable a us agg)))

module _ (cfg : FlowConfig) (us : List HttpUpstream) where
  usable-CanAggregate :
      (a : AggregationConfig) (o : Outcome Aggregation)
      → cfg.aggregation ≡ some a
      → WhenBuilt (IsUsable a us) o
      → WhenBuilt (CanAggregate cfg us) o
  usable-CanAggregate a (built agg) e h = inr (inr (a, (e, h)))
  usable-CanAggregate a failed e h = tt
  usable-CanAggregate a crashed e h = tt

  needed-CanAggregate :
      (o : Option AggregationConfig)
      → cfg.aggregation ≡ o
      → WhenBuilt
          (CanAggregate cfg us)
          (elim o [ none ↦ crashed | some aggregation ↦ init_aggregation aggregation us ])
  needed-CanAggregate none e = tt
  needed-CanAggregate (some a) e =
      usable-CanAggregate a (init_aggregation a us) e (init_aggregation-IsUsable a us)

  unneeded : (not cfg.streaming && ltb 1 (length us)) ≡ false → CanAggregate cfg us no_aggregation
  unneeded h = elim (Bool-cases cfg.streaming) [
    | inl e ↦ inl e
    | inr e ↦
        let one : ltb 1 (length us) ≡ false = ground (arith, h, e) in
        let few : length us ≤ 1 = ground (arith, one) in inr (inl few)
  ]

  flow_aggregation-CanAggregate : WhenBuilt (CanAggregate cfg us) (flow_aggregation cfg us)
  unfolding flow_aggregation
  flow_aggregation-CanAggregate =
      WhenBuilt-if (CanAggregate cfg us) (not cfg.streaming && ltb 1 (length us)) _
        (built no_aggregation) (λ _. needed-CanAggregate cfg.aggregation refl) unneeded

  with_upstreams-IsCompiled :
      (loading : Loading)
      → AllFresh cfg.upstreams us
      → WhenBuilt (IsCompiled cfg) (with_upstreams loading cfg us)
  unfolding with_upstreams
  with_upstreams-IsCompiled loading fresh =
      let P = IsCompiled cfg in
      WhenBuilt-if P (cfg.streaming && not (length us == 1)) failed _ (λ _. tt)
        (λ one. WhenBuilt-then P (flow_aggregation cfg us) _ (λ agg e.
          WhenBuilt-then P (or_failed (loading.plugins cfg.plugins)) _ (λ plugins _.
            WhenBuilt-then P (or_failed (loading.middlewares cfg.middlewares)) _ (λ middlewares _.
              record {
                is_streaming = refl;
                is_fresh = fresh;
                one_if_streaming = streams_one one;
                can_aggregate = WhenBuilt-eq (CanAggregate cfg us) flow_aggregation-CanAggregate e;
              }))))
    where
      streams_one :
          (cfg.streaming && not (length us == 1)) ≡ false
          → (cfg.streaming ≡ false) ⊎ (length us ≡ 1)
      streams_one one = elim (Bool-cases cfg.streaming) [
        | inl e ↦
            let same : (length us == 1) ≡ true = ground (arith, one, e) in
            inr (==→eq (length us) 1 same)
        | inr e ↦ inl e
      ]

-- What `compileFlow` returns without an error is a compiled flow: its upstreams are fresh ones for the
-- configured, in order; if it streams it has exactly one; and if it does not and has several,
-- its aggregation has a known strategy and, for the policy "prefer", the index of an upstream with the
-- configured name.
pub compile_flow-IsCompiled :
    (loading : Loading) (cfg : FlowConfig) (c : CompiledFlow)
    → compile_flow loading cfg ≡ built c
    → IsCompiled cfg c
unfolding compile_flow
compile_flow-IsCompiled loading cfg c h =
    WhenBuilt-eq (IsCompiled cfg)
      (WhenBuilt-then (IsCompiled cfg) (or_failed (init_upstreams loading cfg.upstreams)) _ (λ us e.
        with_upstreams-IsCompiled cfg us loading (
          WhenSome-eq (AllFresh cfg.upstreams) (init_upstreams-AllFresh loading cfg.upstreams)
            (or_failed-eq (init_upstreams loading cfg.upstreams) us e))))
      h
