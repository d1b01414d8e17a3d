-- ===== src/Aggregator/Strategies/Outcome.antt =====
-- What every strategy promises of its response.
use aastro.Prelude.{
  ℕ, ◌≡◌, ◌≢◌, ◌⊎◌, refl, ap, subst, inl, inr, Bool, true, false, List, [], ◌∷◌, any, Option, none,
  some, String, arith, if◌then◌else◌, length,
}
use aastro.UpstreamError.{
  UpstreamError, ClientError, map_upstream_error, internal_error, upstream_malformed,
}
use aastro.Upstream.{UpstreamResponse}
use aastro.Flow.{
  AggregationStrategy, strategy_merge, strategy_array, strategy_namespace, strategy_unknown,
  Aggregation,
}
use aastro.Aggregator.{Codec, refused, shared_failure_status, failed}
use aastro.Aggregator.Honest.{
  IsHonest, failure_of_all-IsHonest, completed-IsHonest, Kept, Kept-clean, Kept-added, Kept-trans,
  failed_lem,
}
use aastro.Aggregator.Merge.Honest.{merged-IsHonest}
use aastro.Aggregator.Strategies.{
  Gathered, early, gathered, array_response, array_from, finish_arrayed, arrayed, name_response,
  name_from, named, finish_namespaced, namespaced, by_strategy, aggregate,
}

abbrev IsGathered :
    {A : Type 0}
    → List UpstreamResponse
    → List UpstreamResponse
    → List ClientError
    → Gathered A
    → Type 0
IsGathered all rs errs (early resp) = IsHonest all resp
IsGathered all rs errs (gathered a errs' ok) = Kept rs errs errs'

if-IsGathered :
    {A : Type 0} (all rs : List UpstreamResponse) (errs : List ClientError) (b : Bool)
    (x y : Gathered A)
    → IsGathered all rs errs x
    → IsGathered all rs errs y
    → IsGathered all rs errs (if b then x else y)
if-IsGathered all rs errs true x y p q = p
if-IsGathered all rs errs false x y p q = q

then-IsGathered :
    {A : Type 0} (all : List UpstreamResponse) (r : UpstreamResponse) (rs : List UpstreamResponse)
    (errs : List ClientError) (c : Gathered A) (more : A → List ClientError → Bool → Gathered A)
    → IsGathered all (r ∷ []) errs c
    → ((a : A) (es : List ClientError) (o : Bool) → IsGathered all rs es (more a es o))
    → IsGathered all
        (r ∷ rs)
        errs
        (elim c [ early resp ↦ early resp | gathered a es o ↦ more a es o ])
then-IsGathered all r rs errs (early resp) more first rest = first
then-IsGathered {A} all r rs errs (gathered a es o) more first rest = go (more a es o) (rest a es o)
  where
    go : (c : Gathered A) → IsGathered all rs es c → IsGathered all (r ∷ rs) errs c
    go (early resp) h = h
    go (gathered a' es' o') h = Kept-trans r rs errs es es' first h

refused_shared-IsHonest :
    (rs : List UpstreamResponse) (e : ClientError)
    → IsHonest rs (refused (e ∷ []) (shared_failure_status rs))
refused_shared-IsHonest rs e = record {
  partial_errors = λ p. cc;
  own_status = inr (refl, refl);
  reported = λ _. refl;
}

-- As many names as responses.
abbrev SameLength : List String → List UpstreamResponse → Type 0
SameLength ns rs = length ns ≡ length rs

abbrev responses_of : List (String × UpstreamResponse) → List UpstreamResponse
responses_of [] = []
responses_of ((n, r) ∷ nrs) = r ∷ responses_of nrs

responses_of-named :
    (ns : List String) (rs : List UpstreamResponse)
    → SameLength ns rs
    → responses_of (named ns rs) ≡ rs
responses_of-named [] [] h = refl
responses_of-named [] (r ∷ rs) h = absurd (omega arith)
responses_of-named (n ∷ ns) [] h = absurd (omega arith)
responses_of-named (n ∷ ns) (r ∷ rs) h = ap (λ t. r ∷ t) (responses_of-named ns rs (omega arith))

module _ (codec : Codec) (agg : Aggregation) (all : List UpstreamResponse) where
  array_response-IsGathered :
      (r : UpstreamResponse) (arr : List (List ℕ)) (errs : List ClientError) (ok : Bool)
      (e : Option UpstreamError)
      → r.err ≡ e
      → (failed r ≡ true → any failed all ≡ true)
      → IsGathered all (r ∷ []) errs (array_response codec agg all r arr errs ok e)
  unfolding array_response
  array_response-IsGathered r arr errs ok none same part =
      Kept-clean r errs (failed_lem r none same)
  array_response-IsGathered r arr errs ok (some e) same part =
      if-IsGathered all (r ∷ []) errs agg.best_effort _ _
        (Kept-added (r ∷ []) errs (map_upstream_error (some e)))
        (failure_of_all-IsHonest all (part (failed_lem r (some e) same)))

  array_from-IsGathered :
      (rs : List UpstreamResponse) (arr : List (List ℕ)) (errs : List ClientError) (ok : Bool)
      → (any failed rs ≡ true → any failed all ≡ true)
      → IsGathered all rs errs (array_from codec agg all rs arr errs ok)
  unfolding array_from
  array_from-IsGathered [] arr errs ok part = λ h. ground arith
  array_from-IsGathered (r ∷ rs) arr errs ok part =
      then-IsGathered all r rs errs (array_response codec agg all r arr errs ok r.err)
        (array_from codec agg all rs)
        (array_response-IsGathered r arr errs ok r.err refl (λ h. part (ground arith)))
        (λ a es o. array_from-IsGathered rs a es o (λ h. part (ground arith)))

  name_response-IsGathered :
      (name : String) (r : UpstreamResponse) (result : List (String × List ℕ))
      (errs : List ClientError) (ok : Bool) (e : Option UpstreamError)
      → r.err ≡ e
      → IsGathered all (r ∷ []) errs (name_response codec agg all name r result errs ok e)
  unfolding name_response
  name_response-IsGathered name r result errs ok none same =
      Kept-clean r errs (failed_lem r none same)
  name_response-IsGathered name r result errs ok (some e) same =
      if-IsGathered all (r ∷ []) errs agg.best_effort _ _
        (Kept-added (r ∷ []) errs (map_upstream_error (some e)))
        (refused_shared-IsHonest all (map_upstream_error (some e)))

  name_from-IsGathered :
      (nrs : List (String × UpstreamResponse)) (result : List (String × List ℕ))
      (errs : List ClientError) (ok : Bool)
      → IsGathered all (responses_of nrs) errs (name_from codec agg all nrs result errs ok)
  unfolding name_from
  name_from-IsGathered [] result errs ok = λ h. ground arith
  name_from-IsGathered ((n, r) ∷ nrs) result errs ok =
      then-IsGathered all r (responses_of nrs) errs
        (name_response codec agg all n r result errs ok r.err) (name_from codec agg all nrs)
        (name_response-IsGathered n r result errs ok r.err refl) (name_from-IsGathered nrs)

  finish_arrayed-IsHonest :
      (c : Gathered (List (List ℕ)))
      → IsGathered all all [] c
      → IsHonest all (finish_arrayed codec agg all c)
  unfolding finish_arrayed
  finish_arrayed-IsHonest (early resp) h = h
  finish_arrayed-IsHonest (gathered arr errs ok) h =
      completed-IsHonest upstream_malformed all errs ok _ (λ f. h (ground arith))

  finish_namespaced-IsHonest :
      (c : Gathered (List (String × List ℕ)))
      → IsGathered all all [] c
      → IsHonest all (finish_namespaced codec agg all c)
  unfolding finish_namespaced
  finish_namespaced-IsHonest (early resp) h = h
  finish_namespaced-IsHonest (gathered result errs ok) h =
      completed-IsHonest internal_error all errs ok _ (λ f. h (ground arith))

  arrayed-IsHonest : IsHonest all (arrayed codec agg all)
  unfolding arrayed
  arrayed-IsHonest = finish_arrayed-IsHonest _ (array_from-IsGathered all [] [] false (λ h. h))

  namespaced-IsHonest :
      (names : List String) → SameLength names all → IsHonest all (namespaced codec agg names all)
  unfolding namespaced
  namespaced-IsHonest names same = finish_namespaced-IsHonest _ (
      subst (λ rs. IsGathered all rs [] (name_from codec agg all (named names all) [] [] false))
        (responses_of-named names all same) (name_from-IsGathered (named names all) [] [] false))

  -- No failure is hidden: with a known strategy, best effort or not, and a response for each upstream,
  -- the aggregated response has an error if any upstream failed; it is partial only with an error and no
  -- status of its own; and a status of its own is the one that the failed responses share.
  pub aggregate-IsHonest :
      (names : List String)
      → SameLength names all
      → agg.strategy ≢ strategy_unknown
      → IsHonest all (aggregate codec agg names all)
  unfolding aggregate by_strategy
  aggregate-IsHonest names same known = go agg.strategy known
    where
      go :
          (s : AggregationStrategy)
          → s ≢ strategy_unknown
          → IsHonest all (by_strategy codec agg s names all)
      go strategy_merge k = merged-IsHonest codec agg all
      go strategy_array k = arrayed-IsHonest
      go strategy_namespace k = namespaced-IsHonest names same
      go strategy_unknown k = absurd (k refl)

-- A strategy that is not known, or one that is.
pub strategy-cases : (s : AggregationStrategy) → (s ≡ strategy_unknown) ⊎ (s ≢ strategy_unknown)
strategy-cases strategy_merge = inr (λ e. cc)
strategy-cases strategy_array = inr (λ e. cc)
strategy-cases strategy_namespace = inr (λ e. cc)
strategy-cases strategy_unknown = inl refl

pub aggregate-unknown :
    (codec : Codec) (agg : Aggregation) (names : List String) (rs : List UpstreamResponse)
    → agg.strategy ≡ strategy_unknown
    → (aggregate codec agg names rs).status ≡ 0
unfolding aggregate by_strategy
aggregate-unknown codec agg names rs h = rw h refl
