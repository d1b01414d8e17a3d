-- ===== src/Builder/Names.antt =====
-- builder.go and flow.go: the names of the strategies and of the conflict policies.
use aastro.Prelude.{
  true, Option, none, some, String, if◌then◌else◌, str_eq, str_eq_iff, ◌≡◌, ◌≢◌, ◌↔◌, refl, subst,
  sym,
}
use aastro.Prelude.Fallible.{WhenSome, WhenSome-if, WhenSome-eq}
use aastro.Flow.{
  AggregationStrategy, strategy_merge, strategy_array, strategy_namespace, strategy_unknown,
  ConflictPolicy, policy_overwrite, policy_error, policy_first, policy_prefer,
}

-- `String` of both.
unfoldable pub strategy_text : AggregationStrategy → String
strategy_text strategy_array = "array"
strategy_text strategy_merge = "merge"
strategy_text strategy_namespace = "namespace"
strategy_text strategy_unknown = "unknown"

pub policy_text : ConflictPolicy → String
policy_text policy_overwrite = "overwrite"
policy_text policy_error = "error"
policy_text policy_first = "first"
policy_text policy_prefer = "prefer"

unfoldable pub compile_strategy : String → Option AggregationStrategy
compile_strategy s =
    if str_eq s "array"
    then some strategy_array
    else if str_eq s "merge"
    then some strategy_merge
    else if str_eq s "namespace"
    then some strategy_namespace
    else none

unfoldable pub compile_conflict_policy : String → Option ConflictPolicy
compile_conflict_policy p =
    if str_eq p "overwrite"
    then some policy_overwrite
    else if str_eq p "error"
    then some policy_error
    else if str_eq p "first"
    then some policy_first
    else if str_eq p "prefer"
    then some policy_prefer
    else none

-- A strategy's text, where the strategy is one of the constants.
abbrev IsText : String → AggregationStrategy → Type 0
IsText t s = (strategy_text s ≡ t) × (s ≢ strategy_unknown)

strategy_name : (b : String) (t : String) → str_eq t b ≡ true → b ≡ t
strategy_name b t h = sym ((str_eq_iff t b).0 h)

compile_strategy-WhenSome : (t : String) → WhenSome (IsText t) (compile_strategy t)
unfolding compile_strategy strategy_text
compile_strategy-WhenSome t =
    WhenSome-if (IsText t) (str_eq t "array") _ _ (λ h. (strategy_name "array" t h, λ e. cc))
      (λ _.
        WhenSome-if (IsText t) (str_eq t "merge") _ _ (λ h. (strategy_name "merge" t h, λ e. cc))
          (λ _.
            WhenSome-if (IsText t) (str_eq t "namespace") _ none
              (λ h. (strategy_name "namespace" t h, λ e. cc)) (λ _. tt)))

strategy_text-compiles :
    (s : AggregationStrategy) → s ≢ strategy_unknown → compile_strategy (strategy_text s) ≡ some s
unfolding compile_strategy strategy_text
strategy_text-compiles strategy_array h = refl
strategy_text-compiles strategy_merge h = refl
strategy_text-compiles strategy_namespace h = refl
strategy_text-compiles strategy_unknown h = absurd (h refl)

compile_conflict_policy-WhenSome :
    (t : String) → WhenSome (λ p. policy_text p ≡ t) (compile_conflict_policy t)
unfolding compile_conflict_policy policy_text
compile_conflict_policy-WhenSome t =
    let P = λ (p : ConflictPolicy). policy_text p ≡ t in
    WhenSome-if P (str_eq t "overwrite") _ _ (λ h. strategy_name "overwrite" t h)
      (λ _.
        WhenSome-if P (str_eq t "error") _ _ (λ h. strategy_name "error" t h)
          (λ _.
            WhenSome-if P (str_eq t "first") _ _ (λ h. strategy_name "first" t h)
              (λ _.
                WhenSome-if P (str_eq t "prefer") _ none (λ h. strategy_name "prefer" t h)
                  (λ _. tt))))

policy_text-compiles : (p : ConflictPolicy) → compile_conflict_policy (policy_text p) ≡ some p
unfolding compile_conflict_policy policy_text
policy_text-compiles policy_overwrite = refl
policy_text-compiles policy_error = refl
policy_text-compiles policy_first = refl
policy_text-compiles policy_prefer = refl

-- A text compiles to a strategy exactly if the strategy is one of the three and the text is its `String`,
-- and to a conflict policy exactly if it is that policy's `String`.
pub compile_lem :
    (t : String) (s : AggregationStrategy) (p : ConflictPolicy)
    → ((compile_strategy t ≡ some s) ↔ ((strategy_text s ≡ t) × (s ≢ strategy_unknown)))
      × ((compile_conflict_policy t ≡ some p) ↔ (policy_text p ≡ t))
compile_lem t s p = (
  (
    λ h. WhenSome-eq (IsText t) (compile_strategy-WhenSome t) h,
    λ h. subst (λ (u : String). compile_strategy u ≡ some s) h.0 (strategy_text-compiles s h.1),
  ),
  (
    λ h. WhenSome-eq (λ q. policy_text q ≡ t) (compile_conflict_policy-WhenSome t) h,
    λ h. subst (λ (u : String). compile_conflict_policy u ≡ some p) h (policy_text-compiles p),
  ),
)
