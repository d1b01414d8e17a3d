-- ===== src/Builder/Aggregations.antt =====
-- builder.go: `initAggregation`, and when `compileFlow` calls it.
use aastro.Prelude.{
  ℕ, suc, ltb, false, not, ◌&&◌, List, [], ◌∷◌, Option, none, some, String, if◌then◌else◌, str_eq,
  length,
}
use aastro.Upstream.{pos, negsuc, HttpUpstream}
use aastro.Flow.{
  AggregationStrategy, strategy_merge, ConflictPolicy, policy_overwrite, policy_prefer, Aggregation,
}
use aastro.Config.{OnConflictConfig, AggregationConfig, FlowConfig}
use aastro.Builder.Names.{compile_strategy, compile_conflict_policy}
use aastro.Builder.Results.{Outcome, built, failed, crashed, then_build, or_failed}

-- `searchUpstream`, from the index `i` on.
unfoldable pub search_upstream : String → ℕ → List HttpUpstream → Option ℕ
search_upstream name i [] = none
search_upstream name i (u ∷ us) =
    let rest = search_upstream name (suc i) us in if str_eq u.cfg.name name then some i else rest

-- The end of `initAggregation`, for the policy "prefer".
unfoldable pub prefer : OnConflictConfig → List HttpUpstream → Aggregation → Outcome Aggregation
prefer on_conflict upstreams agg =
    let found : Outcome Aggregation = elim (search_upstream on_conflict.upstream 0 upstreams) [
      | none ↦ failed
      | some idx ↦ built (record agg { preferred_upstream = pos idx })
    ] in
    if str_eq on_conflict.upstream "" then failed else found

unfoldable pub with_policy :
    OnConflictConfig → List HttpUpstream → Aggregation → ConflictPolicy → Outcome Aggregation
with_policy on_conflict upstreams agg policy_prefer =
    prefer on_conflict upstreams (record agg { conflict_policy = policy_prefer })
with_policy on_conflict upstreams agg conflict = built (record agg { conflict_policy = conflict })

-- For the strategy "merge"; without `on_conflict` a nil pointer is read.
unfoldable pub merging :
    Option OnConflictConfig → List HttpUpstream → Aggregation → Outcome Aggregation
merging none upstreams agg = crashed
merging (some on_conflict) upstreams agg =
    then_build (or_failed (compile_conflict_policy on_conflict.policy))
      (λ conflict. with_policy on_conflict upstreams agg conflict)

unfoldable pub with_strategy :
    AggregationConfig → List HttpUpstream → AggregationStrategy → Outcome Aggregation
with_strategy cfg upstreams strategy =
    let agg : Aggregation = record {
      best_effort = cfg.best_effort;
      strategy = strategy;
      conflict_policy = policy_overwrite;
      preferred_upstream = negsuc 0;
    } in
    elim strategy [ strategy_merge ↦ merging cfg.on_conflict upstreams agg | _ ↦ built agg ]

unfoldable pub init_aggregation : AggregationConfig → List HttpUpstream → Outcome Aggregation
init_aggregation cfg upstreams =
    then_build (or_failed (compile_strategy cfg.strategy))
      (λ strategy. with_strategy cfg upstreams strategy)

-- The zero value of `aggregation`.
abbrev pub no_aggregation : Aggregation
no_aggregation = record {
  best_effort = false;
  strategy = strategy_merge;
  conflict_policy = policy_overwrite;
  preferred_upstream = pos 0;
}

-- The aggregation of a flow; where it is needed and there is none, a nil pointer is read.
unfoldable pub flow_aggregation : FlowConfig → List HttpUpstream → Outcome Aggregation
flow_aggregation cfg upstreams =
    let needed : Outcome Aggregation = elim cfg.aggregation [
      | none ↦ crashed
      | some aggregation ↦ init_aggregation aggregation upstreams
    ] in
    if not cfg.streaming && ltb 1 (length upstreams) then needed else built no_aggregation
