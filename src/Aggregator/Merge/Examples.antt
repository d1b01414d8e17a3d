-- ===== src/Aggregator/Merge/Examples.antt =====
-- Two bodies with a field in common, merged.
use aastro.Prelude.{
  ℕ, ◌≡◌, refl, true, false, List, [], ◌∷◌, Option, none, some, String, lookup, insert, subst,
}
use aastro.Upstream.{pos, UpstreamResponse}
use aastro.Flow.{strategy_merge, policy_prefer, Aggregation}
use aastro.Aggregator.{Codec, Distinct}
use aastro.Aggregator.Merge.{
  Field, on_conflict, store, at_key, apply_conflict_policy, add_object, merge_decoded,
  merge_response, collect_from, collect_fields,
}
use aastro.Aggregator.Merge.Fields.{contributions}
use aastro.Aggregator.Merge.Fields.Chosen.{chosen, lookup-collect_fields}

-- A body of two bytes is an object with the one field "n".
abbrev decode : List ℕ → Option (List (String × ℕ))
decode (a ∷ v ∷ []) = some (("n", v) ∷ [])
decode _ = none

pub decode-Distinct : (b : List ℕ) (m : List (String × ℕ)) → decode b ≡ some m → Distinct m
unfolding lookup
decode-Distinct [] m e = cc
decode-Distinct (a ∷ []) m e = cc
decode-Distinct (a ∷ v ∷ []) m e =
    subst (λ (o : Option (List (String × ℕ))). elim o [ none ↦ Unit | some n ↦ Distinct n ]) e
      (refl, tt)
decode-Distinct (a ∷ v ∷ c ∷ b) m e = cc

abbrev pub codec : Codec
codec = record {
  Value = ℕ;
  unmarshal = decode;
  marshal = λ m. some [];
  marshal_array = λ bodies. some [];
  marshal_raw = λ m. some [];
  unmarshal_distinct = decode-Distinct;
}

abbrev pub agg : Aggregation
agg = record {
  best_effort = false;
  strategy = strategy_merge;
  conflict_policy = policy_prefer;
  preferred_upstream = pos 1;
}

abbrev pub answer : ℕ → UpstreamResponse
answer v = record { status = 200; headers = []; body = 1 ∷ v ∷ []; err = none }

abbrev both : List UpstreamResponse
both = answer 7 ∷ answer 8 ∷ []

abbrev fields : List (String × Field ℕ)
fields = ("n", record { value = 8; owner = 1 }) ∷ []

lookup-collect_fields_example :
    lookup "n" fields ≡ chosen (pos 1) policy_prefer (contributions codec agg 0 "n" both)
unfolding collect_fields collect_from merge_response merge_decoded add_object apply_conflict_policy
    at_key lookup insert store on_conflict
lookup-collect_fields_example =
    lookup-collect_fields codec agg both "n" fields [] true (λ e. cc) refl
