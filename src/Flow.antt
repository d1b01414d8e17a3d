-- ===== src/Flow.antt =====
-- flow.go: how a flow combines the responses of its upstreams.
use aastro.Prelude.{Bool}
use aastro.Upstream.{ℤ}

pub data AggregationStrategy : Type 0 where
  strategy_merge strategy_array strategy_namespace : AggregationStrategy
  -- A value of the uint8 that is none of the constants.
  strategy_unknown : AggregationStrategy

pub data ConflictPolicy : Type 0 where
  policy_overwrite policy_error policy_first policy_prefer : ConflictPolicy

-- `preferredUpstream` is -1 where none is preferred.
pub record Aggregation : Type 0 where
  pub best_effort : Bool
  pub strategy : AggregationStrategy
  pub conflict_policy : ConflictPolicy
  pub preferred_upstream : ℤ
