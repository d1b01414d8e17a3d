-- ===== src/Aggregator/Merge/Fields/Chosen.antt =====
-- The value of a merged field, by the conflict policy.
use aastro.Prelude.{
  ◌≡◌, ◌≢◌, refl, ◌∙◌, Bool, false, List, [], ◌∷◌, Option, none, some, arith, if◌then◌else◌, String,
  lookup,
}
use aastro.UpstreamError.{ClientError}
use aastro.Upstream.{ℤ, UpstreamResponse}
use aastro.Flow.{
  ConflictPolicy, policy_overwrite, policy_error, policy_first, policy_prefer, Aggregation,
}
use aastro.Aggregator.{Codec}
use aastro.Aggregator.Merge.{Field, is_preferred, on_conflict, collected, collect_fields}
use aastro.Aggregator.Merge.Fields.{combine, combine_all, contributions, lookup-collect_from}

module _ {V : Type 0} where
  or_else : Option V → Option V → Option V
  or_else none d = d
  or_else (some v) d = some v

  first_some : List (Option V) → Option V
  first_some [] = none
  first_some (c ∷ cs) = or_else c (first_some cs)

  last_some : List (Option V) → Option V
  last_some [] = none
  last_some (c ∷ cs) = or_else (last_some cs) c

module _ {V : Type 0} (preferred : ℤ) where
  only_preferred : Option (Field V) → Option (Field V)
  only_preferred none = none
  only_preferred (some f) = if is_preferred f.owner preferred then some f else none

  first_preferred : List (Option (Field V)) → Option (Field V)
  first_preferred [] = none
  first_preferred (c ∷ cs) = or_else (only_preferred c) (first_preferred cs)

  -- What a field is to be, of what the upstreams in turn have for it: the last, the first, or that of
  -- the preferred upstream if it has one and else the first.
  pub chosen : ConflictPolicy → List (Option (Field V)) → Option (Field V)
  chosen policy_overwrite cs = last_some cs
  chosen policy_first cs = first_some cs
  chosen policy_error cs = first_some cs
  chosen policy_prefer cs = or_else (first_preferred cs) (first_some cs)

module _ (codec : Codec) (agg : Aggregation) where
  open codec use {Value}

  all-overwrite :
      (acc : Option (Field Value)) (cs : List (Option (Field Value)))
      → agg.conflict_policy ≡ policy_overwrite
      → combine_all codec agg acc cs ≡ or_else (last_some cs) acc
  unfolding combine_all combine on_conflict last_some or_else
  all-overwrite acc [] p = refl
  all-overwrite acc (c ∷ cs) p = ground (arith, all-overwrite (combine agg acc c) cs p)

  all-first :
      (acc : Option (Field Value)) (cs : List (Option (Field Value)))
      → agg.conflict_policy ≡ policy_first
      → combine_all codec agg acc cs ≡ or_else acc (first_some cs)
  unfolding combine_all combine on_conflict first_some or_else
  all-first acc [] p = ground arith
  all-first acc (c ∷ cs) p = ground (arith, all-first (combine agg acc c) cs p)

  all-prefer :
      (acc : Option (Field Value)) (cs : List (Option (Field Value)))
      → agg.conflict_policy ≡ policy_prefer
      → combine_all codec agg acc cs
        ≡ or_else
            (only_preferred agg.preferred_upstream acc)
            (or_else (first_preferred agg.preferred_upstream cs) (or_else acc (first_some cs)))
  unfolding combine_all combine on_conflict first_some or_else only_preferred first_preferred
  all-prefer acc [] p = ground arith
  all-prefer acc (c ∷ cs) p = ground (arith, all-prefer (combine agg acc c) cs p)

  combine_all-chosen :
      (cs : List (Option (Field Value)))
      → agg.conflict_policy ≢ policy_error
      → combine_all codec agg none cs ≡ chosen agg.preferred_upstream agg.conflict_policy cs
  unfolding chosen or_else only_preferred
  combine_all-chosen cs n =
      ground (arith, all-overwrite none cs, all-first none cs, all-prefer none cs)

  -- Where "merge" gives fields at all, under any conflict policy but `error`: each field has the value
  -- that the policy asks for, of what the successful responses have for it in the order of the
  -- upstreams, and the index of the upstream that gave it; what none of them has is no field.
  pub lookup-collect_fields :
      (responses : List UpstreamResponse) (k : String) (fields : List (String × Field Value))
      (errs : List ClientError) (ok : Bool)
      → agg.conflict_policy ≢ policy_error
      → collect_fields codec agg responses ≡ collected fields errs ok
      → lookup k fields
        ≡ chosen agg.preferred_upstream agg.conflict_policy (contributions codec agg 0 k responses)
  unfolding collect_fields lookup
  lookup-collect_fields responses k fields errs ok n e =
      lookup-collect_from codec agg responses k 0 responses [] fields [] errs false ok e
      ∙ combine_all-chosen (contributions codec agg 0 k responses) n
