-- ===== src/Builder/Usable.antt =====
-- The aggregation of a flow that is built from the configuration (builder.go).
use aastro.Prelude.{
  ℕ, List, Option, none, some, str_eq, get_elem?, ◌≡◌, ◌≢◌, ◌⊎◌, refl, sym, arith, inl, inr, subst,
}
use aastro.Prelude.Fallible.{WhenSome}
use aastro.Upstream.{pos, negsuc, HttpUpstream}
use aastro.Flow.{
  AggregationStrategy, strategy_merge, strategy_array, strategy_namespace, strategy_unknown,
  ConflictPolicy, policy_overwrite, policy_error, policy_first, policy_prefer, Aggregation,
}
use aastro.Config.{OnConflictConfig, AggregationConfig}
use aastro.Builder.Results.{built, failed, or_failed}
use aastro.Builder.Aggregations.{
  init_aggregation, with_strategy, merging, with_policy, prefer, search_upstream,
}
use aastro.Builder.Names.{compile_strategy, compile_conflict_policy, compile_lem}
use aastro.Builder.Upstreams.{IsNamed, search_upstream-IsNamed}
use aastro.Builder.Results.{WhenBuilt, WhenBuilt-then, WhenBuilt-if, or_failed-eq}

-- An aggregation that the responses of `us` can be combined by: its strategy is a known one; and
-- with the policy "prefer" the preferred upstream is one of them, with the configured name, and else none.
pub record IsUsable (cfg : AggregationConfig) (us : List HttpUpstream) (agg : Aggregation)
    : Type 0 where
  pub is_known : agg.strategy ≢ strategy_unknown
  pub best_effort : agg.best_effort ≡ cfg.best_effort
  pub has_preferred :
      ((agg.conflict_policy ≢ policy_prefer) × (agg.preferred_upstream ≡ negsuc 0))
      ⊎ ((c : OnConflictConfig) × ((cfg.on_conflict ≡ some c)
            × ((i : ℕ) × ((agg.preferred_upstream ≡ pos i)
                  × ((u : HttpUpstream) × ((get_elem? us i ≡ some u)
                        × (u.cfg.name ≡ c.upstream)))))))

module _ (cfg : AggregationConfig) (us : List HttpUpstream) where
  prefer-IsUsable :
      (c : OnConflictConfig) (agg : Aggregation)
      → cfg.on_conflict ≡ some c
      → agg.strategy ≢ strategy_unknown
      → agg.best_effort ≡ cfg.best_effort
      → WhenBuilt (IsUsable cfg us) (prefer c us agg)
  unfolding prefer
  prefer-IsUsable c agg has_c known effort =
      WhenBuilt-if (IsUsable cfg us) (str_eq c.upstream "") failed _ (λ _. tt)
        (λ _. found (search_upstream c.upstream 0 us) (search_upstream-IsNamed c.upstream 0 us))
    where
      found :
          (o : Option ℕ)
          → WhenSome (IsNamed c.upstream 0 us) o
          → WhenBuilt (IsUsable cfg us) (elim o [
            | none ↦ failed
            | some idx ↦ built (record agg { preferred_upstream = pos idx })
          ])
      found none h = tt
      found (some k) (j, (u, (e, (at, named)))) =
          let same : k ≡ j = omega arith in
          record {
            is_known = known;
            best_effort = effort;
            has_preferred = inr (
              c,
              (
                has_c,
                (k, (refl, (u, (subst (λ (n : ℕ). get_elem? us n ≡ some u) (sym same) at, named)))),
              ),
            );
          }

  merging-IsUsable :
      (o : Option OnConflictConfig) (agg : Aggregation)
      → cfg.on_conflict ≡ o
      → agg.strategy ≢ strategy_unknown
      → agg.best_effort ≡ cfg.best_effort
      → agg.preferred_upstream ≡ negsuc 0
      → WhenBuilt (IsUsable cfg us) (merging o us agg)
  unfolding merging with_policy
  merging-IsUsable none agg has_c known effort none_yet = tt
  merging-IsUsable (some c) agg has_c known effort none_yet =
      WhenBuilt-then (IsUsable cfg us) (or_failed (compile_conflict_policy c.policy)) _
        (λ conflict _. by_policy conflict)
    where
      by_policy :
          (conflict : ConflictPolicy) → WhenBuilt (IsUsable cfg us) (with_policy c us agg conflict)
      by_policy policy_prefer =
          prefer-IsUsable c (record agg { conflict_policy = policy_prefer }) has_c known effort
      by_policy policy_overwrite = record {
        is_known = known;
        best_effort = effort;
        has_preferred = inl ((λ e. cc), none_yet);
      }
      by_policy policy_error = record {
        is_known = known;
        best_effort = effort;
        has_preferred = inl ((λ e. cc), none_yet);
      }
      by_policy policy_first = record {
        is_known = known;
        best_effort = effort;
        has_preferred = inl ((λ e. cc), none_yet);
      }

  pub init_aggregation-IsUsable : WhenBuilt (IsUsable cfg us) (init_aggregation cfg us)
  unfolding init_aggregation with_strategy
  init_aggregation-IsUsable =
      WhenBuilt-then (IsUsable cfg us) (or_failed (compile_strategy cfg.strategy)) _
        (λ strategy e. by_kind strategy (known strategy e))
    where
      known :
          (s : AggregationStrategy)
          → or_failed (compile_strategy cfg.strategy) ≡ built s
          → s ≢ strategy_unknown
      known s e =
          ((compile_lem cfg.strategy s policy_first).0.0
            (or_failed-eq (compile_strategy cfg.strategy) s e)).1

      by_kind :
          (s : AggregationStrategy)
          → s ≢ strategy_unknown
          → WhenBuilt (IsUsable cfg us) (with_strategy cfg us s)
      by_kind strategy_merge k = merging-IsUsable cfg.on_conflict _ refl k refl refl
      by_kind strategy_array k = record {
        is_known = k;
        best_effort = refl;
        has_preferred = inl ((λ e. cc), refl);
      }
      by_kind strategy_namespace k = record {
        is_known = k;
        best_effort = refl;
        has_preferred = inl ((λ e. cc), refl);
      }
      by_kind strategy_unknown k = absurd (k refl)
