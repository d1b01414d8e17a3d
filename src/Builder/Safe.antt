-- ===== src/Builder/Safe.antt =====
-- A configuration that has passed the checks does not crash the builder (builder.go, config.go).
use aastro.Prelude.{
  ℕ, suc, ◌≤◌, ltb, Bool, true, false, not, ◌&&◌, List, [], ◌∷◌, Option, none, some, if◌then◌else◌,
  str_eq, length, ◌≡◌, ◌≢◌, ◌⊎◌, refl, sym, ap, arith, inl, inr, subst, ltb→lt, ◌==◌,
}
use aastro.Prelude.Fallible.{WhenSome-eq}
use aastro.Upstream.{HttpUpstream, pos}
use aastro.Flow.{
  AggregationStrategy, strategy_merge, strategy_array, strategy_namespace, strategy_unknown,
  ConflictPolicy, policy_overwrite, policy_error, policy_first, policy_prefer, Aggregation,
}
use aastro.Config.{OnConflictConfig, AggregationConfig, FlowConfig, UpstreamConfig, validate_flow}
use aastro.Config.Valid.{IsValidFlow, validate_flow-IsValidFlow}
use aastro.Builder.{Loading, compile_flow, with_upstreams, init_upstreams}
use aastro.Builder.Results.{Outcome, built, failed, crashed, then_build, or_failed}
use aastro.Builder.Aggregations.{
  flow_aggregation, init_aggregation, with_strategy, merging, with_policy, prefer, search_upstream,
}
use aastro.Builder.Names.{compile_strategy, compile_conflict_policy, compile_lem, strategy_text}
use aastro.Builder.Results.{or_failed-eq}
use aastro.Builder.Upstreams.{AllFresh, init_upstreams-AllFresh}

-- No nil pointer has been read.
abbrev IsSound {ℓ} : {A : Type ℓ} → Outcome A → Type 0
IsSound (built a) = Unit
IsSound failed = Unit
IsSound crashed = ⊥

IsSound-then :
    {A B : Type 0} (o : Outcome B) (f : B → Outcome A)
    → IsSound o
    → ((b : B) → o ≡ built b → IsSound (f b))
    → IsSound (then_build o f)
IsSound-then (built b) f ho h = h b refl
IsSound-then failed f ho h = tt
IsSound-then crashed f ho h = ho

IsSound-or_failed : {A : Type 0} (o : Option A) → IsSound (or_failed o)
IsSound-or_failed none = tt
IsSound-or_failed (some a) = tt

IsSound-if :
    {A : Type 0} (b : Bool) (x y : Outcome A)
    → (b ≡ true → IsSound x)
    → (b ≡ false → IsSound y)
    → IsSound (if b then x else y)
IsSound-if true x y hx hy = hx refl
IsSound-if false x y hx hy = hy refl

IsSound-crashed : {A : Type 0} (o : Outcome A) → IsSound o → o ≢ crashed
IsSound-crashed o h e = subst (λ (o : Outcome _). IsSound o) e h

-- What the validator's tag `required_if=Strategy merge` asks of an aggregation.
abbrev pub HasConflictPolicy : AggregationConfig → Type 0
HasConflictPolicy a = (a.strategy ≢ "merge") ⊎ ((c : OnConflictConfig) × (a.on_conflict ≡ some c))

length-AllFresh :
    (cfgs : List UpstreamConfig) (us : List HttpUpstream)
    → AllFresh cfgs us
    → length us ≡ length cfgs
length-AllFresh [] [] h = refl
length-AllFresh [] (u ∷ us) h = absurd h
length-AllFresh (cfg ∷ cfgs) [] h = absurd h
length-AllFresh (cfg ∷ cfgs) (u ∷ us) h = ap suc (length-AllFresh cfgs us h.1)

module _ (us : List HttpUpstream) where
  prefer-IsSound : (c : OnConflictConfig) (agg : Aggregation) → IsSound (prefer c us agg)
  unfolding prefer
  prefer-IsSound c agg =
      IsSound-if (str_eq c.upstream "") failed _ (λ _. tt)
        (λ _. found (search_upstream c.upstream 0 us))
    where
      found :
          (o : Option ℕ)
          → IsSound (elim o [
            | none ↦ failed
            | some idx ↦ built (record agg { preferred_upstream = pos idx })
          ])
      found none = tt
      found (some k) = tt

  merging-IsSound :
      (o : Option OnConflictConfig) (c : OnConflictConfig) (agg : Aggregation)
      → o ≡ some c
      → IsSound (merging o us agg)
  unfolding merging with_policy
  merging-IsSound none c agg e = absurd (some_is_not e)
    where
      some_is_not : none ≡ some c → ⊥
      some_is_not e = cc
  merging-IsSound (some d) c agg e =
      IsSound-then (or_failed (compile_conflict_policy d.policy)) _
        (IsSound-or_failed (compile_conflict_policy d.policy)) (λ conflict _. by_policy conflict)
    where
      by_policy : (p : ConflictPolicy) → IsSound (with_policy d us agg p)
      by_policy policy_prefer = prefer-IsSound d (record agg { conflict_policy = policy_prefer })
      by_policy policy_overwrite = tt
      by_policy policy_error = tt
      by_policy policy_first = tt

  init_aggregation-IsSound :
      (a : AggregationConfig) → HasConflictPolicy a → IsSound (init_aggregation a us)
  unfolding init_aggregation with_strategy strategy_text
  init_aggregation-IsSound a h =
      IsSound-then (or_failed (compile_strategy a.strategy)) _
        (IsSound-or_failed (compile_strategy a.strategy))
        (λ s e. by_kind s (text_of s (or_failed-eq (compile_strategy a.strategy) s e)) h)
    where
      text_of :
          (s : AggregationStrategy)
          → compile_strategy a.strategy ≡ some s
          → strategy_text s ≡ a.strategy
      text_of s e = ((compile_lem a.strategy s policy_first).0.0 e).0

      by_kind :
          (s : AggregationStrategy)
          → strategy_text s ≡ a.strategy
          → HasConflictPolicy a
          → IsSound (with_strategy a us s)
      by_kind strategy_merge e (inl other) = absurd (other (sym e))
      by_kind strategy_merge e (inr (c, has)) = merging-IsSound a.on_conflict c _ has
      by_kind strategy_array e k = tt
      by_kind strategy_namespace e k = tt
      by_kind strategy_unknown e k = tt

  needed-IsSound :
      (o : Option AggregationConfig) (a : AggregationConfig)
      → o ≡ some a
      → HasConflictPolicy a
      → IsSound (elim o [ none ↦ crashed | some aggregation ↦ init_aggregation aggregation us ])
  needed-IsSound none a e h = absurd (some_is_not e)
    where
      some_is_not : none ≡ some a → ⊥
      some_is_not e = cc
  needed-IsSound (some b) a e h = init_aggregation-IsSound b (
      subst
        (λ (o : Option AggregationConfig). elim o [ none ↦ Unit | some c ↦ HasConflictPolicy c ])
        (sym e) h)

  flow_aggregation-IsSound :
      (cfg : FlowConfig)
      → length us ≡ length cfg.upstreams
      → IsValidFlow cfg
      → ((a : AggregationConfig) → cfg.aggregation ≡ some a → HasConflictPolicy a)
      → IsSound (flow_aggregation cfg us)
  unfolding flow_aggregation
  flow_aggregation-IsSound cfg same valid tags =
      IsSound-if (not cfg.streaming && ltb 1 (length us)) _ _
        (λ several. by_case several valid.can_aggregate) (λ _. tt)
    where
      by_case :
          (not cfg.streaming && ltb 1 (length us)) ≡ true
          → (cfg.streaming ≡ true)
            ⊎ ((length cfg.upstreams ≤ 1) ⊎ ((a : AggregationConfig) × (cfg.aggregation ≡ some a)))
          → IsSound (elim cfg.aggregation [
            | none ↦ crashed
            | some aggregation ↦ init_aggregation aggregation us
          ])
      by_case several (inl streams) = absurd (ground (arith, several, streams))
      by_case several (inr (inl few)) =
          let more : ltb 1 (length us) ≡ true = ground (arith, several) in
          absurd (ground (arith, ltb→lt 1 (length us) more, few, same))
      by_case several (inr (inr (a, has))) = needed-IsSound cfg.aggregation a has (tags a has)

-- A flow that `validateFlows` takes, and whose aggregation, if it is "merge", has an `on_conflict`, as the
-- validator's tags ask: `compileFlow` reads no nil pointer.
pub compile_flow_sound :
    (loading : Loading) (cfg : FlowConfig)
    → validate_flow cfg ≡ true
    → ((a : AggregationConfig) → cfg.aggregation ≡ some a → HasConflictPolicy a)
    → compile_flow loading cfg ≢ crashed
unfolding compile_flow with_upstreams
compile_flow_sound loading cfg ok tags = IsSound-crashed (compile_flow loading cfg) sound
  where
    sound : IsSound (compile_flow loading cfg)
    sound =
        IsSound-then (or_failed (init_upstreams loading cfg.upstreams)) _
          (IsSound-or_failed (init_upstreams loading cfg.upstreams))
          (λ us e.
            let fresh =
              WhenSome-eq (AllFresh cfg.upstreams) (init_upstreams-AllFresh loading cfg.upstreams)
                (or_failed-eq (init_upstreams loading cfg.upstreams) us e) in
            IsSound-if (cfg.streaming && not (length us == 1)) failed _ (λ _. tt)
              (λ _.
                IsSound-then (flow_aggregation cfg us) _
                  (flow_aggregation-IsSound us cfg (length-AllFresh cfg.upstreams us fresh)
                    (validate_flow-IsValidFlow cfg ok) tags)
                  (λ agg _.
                    IsSound-then (or_failed (loading.plugins cfg.plugins)) _
                      (IsSound-or_failed (loading.plugins cfg.plugins))
                      (λ plugins _.
                        IsSound-then (or_failed (loading.middlewares cfg.middlewares)) _
                          (IsSound-or_failed (loading.middlewares cfg.middlewares)) (λ _ _. tt)))))
