-- ===== src/Aggregator/Merge/Honest.antt =====
-- "merge" hides no failure.
use aastro.Prelude.{
  ℕ, ◌+◌, ◌≡◌, refl, Bool, true, false, List, [], ◌∷◌, is_empty, any, Option, none, some, String,
  arith, if◌then◌else◌,
}
use aastro.UpstreamError.{
  UpstreamError, ClientError, map_upstream_error, value_conflict, upstream_malformed,
  internal_error,
}
use aastro.Upstream.{UpstreamResponse}
use aastro.Flow.{Aggregation}
use aastro.Aggregator.{Codec, refused, failed}
use aastro.Aggregator.Honest.{
  IsHonest, failure_of_all-IsHonest, refused_one-IsHonest, completed-IsHonest, Kept, Kept-clean,
  Kept-added, Kept-trans, failed_lem,
}
use aastro.Aggregator.Merge.{
  Field, Collected, early, collected, add_object, merge_decoded, merge_response, collect_from,
  collect_fields, finish_merged, merged,
}

abbrev IsCollected :
    {V : Type 0}
    → List UpstreamResponse
    → List UpstreamResponse
    → List ClientError
    → Collected V
    → Type 0
IsCollected all rs errs (early resp) = IsHonest all resp
IsCollected all rs errs (collected fields errs' ok) = Kept rs errs errs'

if-IsCollected :
    {V : Type 0} (all rs : List UpstreamResponse) (errs : List ClientError) (b : Bool)
    (x y : Collected V)
    → IsCollected all rs errs x
    → IsCollected all rs errs y
    → IsCollected all rs errs (if b then x else y)
if-IsCollected all rs errs true x y p q = p
if-IsCollected all rs errs false x y p q = q

module _ (codec : Codec) (agg : Aggregation) (all : List UpstreamResponse) where
  open codec use {Value}

  added-IsCollected :
      (r : UpstreamResponse) (errs : List ClientError) (o : Option (List (String × Field Value)))
      → failed r ≡ false
      → IsCollected {V = Value} all (r ∷ []) errs (elim o [
        | none ↦ early (refused (value_conflict ∷ []) 0)
        | some fields' ↦ collected fields' errs true
      ])
  added-IsCollected r errs none clean = refused_one-IsHonest all value_conflict
  added-IsCollected r errs (some fields) clean = Kept-clean r errs clean

  merge_decoded-IsCollected :
      (idx : ℕ) (r : UpstreamResponse) (fields : List (String × Field Value))
      (errs : List ClientError) (o : Option (List (String × Value)))
      → failed r ≡ false
      → IsCollected all (r ∷ []) errs (merge_decoded codec agg idx fields errs o)
  unfolding merge_decoded
  merge_decoded-IsCollected idx r fields errs none clean =
      if-IsCollected all (r ∷ []) errs agg.best_effort _ _
        (Kept-added (r ∷ []) errs upstream_malformed) (refused_one-IsHonest all upstream_malformed)
  merge_decoded-IsCollected idx r fields errs (some obj) clean =
      added-IsCollected r errs (add_object agg idx obj fields) clean

  merge_response-IsCollected :
      (idx : ℕ) (r : UpstreamResponse) (fields : List (String × Field Value))
      (errs : List ClientError) (ok : Bool) (e : Option UpstreamError)
      → r.err ≡ e
      → (failed r ≡ true → any failed all ≡ true)
      → IsCollected all (r ∷ []) errs (merge_response codec agg all idx r fields errs ok e)
  unfolding merge_response
  merge_response-IsCollected idx r fields errs ok none same part =
      let clean = failed_lem r none same in
      if-IsCollected all (r ∷ []) errs (is_empty r.body) _ _ (Kept-clean r errs clean)
        (merge_decoded-IsCollected idx r fields errs (codec.unmarshal r.body) clean)
  merge_response-IsCollected idx r fields errs ok (some e) same part =
      let bad = failed_lem r (some e) same in
      if-IsCollected all (r ∷ []) errs agg.best_effort _ _
        (Kept-added (r ∷ []) errs (map_upstream_error (some e)))
        (failure_of_all-IsHonest all (part bad))

  then-IsCollected :
      (r : UpstreamResponse) (rs : List UpstreamResponse) (errs : List ClientError)
      (c : Collected Value)
      (more : List (String × Field Value) → List ClientError → Bool → Collected Value)
      → IsCollected all (r ∷ []) errs c
      → ((f : List (String × Field Value)) (es : List ClientError) (o : Bool)
          → IsCollected all rs es (more f es o))
      → IsCollected all
          (r ∷ rs)
          errs
          (elim c [ early resp ↦ early resp | collected f es o ↦ more f es o ])
  then-IsCollected r rs errs (early resp) more first rest = first
  then-IsCollected r rs errs (collected f es o) more first rest = go (more f es o) (rest f es o)
    where
      go : (c : Collected Value) → IsCollected all rs es c → IsCollected all (r ∷ rs) errs c
      go (early resp) h = h
      go (collected f' es' o') h = Kept-trans r rs errs es es' first h

  collect_from-IsCollected :
      (idx : ℕ) (rs : List UpstreamResponse) (fields : List (String × Field Value))
      (errs : List ClientError) (ok : Bool)
      → (any failed rs ≡ true → any failed all ≡ true)
      → IsCollected all rs errs (collect_from codec agg all idx rs fields errs ok)
  unfolding collect_from
  collect_from-IsCollected idx [] fields errs ok part = λ h. ground arith
  collect_from-IsCollected idx (r ∷ rs) fields errs ok part =
      then-IsCollected r rs errs (merge_response codec agg all idx r fields errs ok r.err)
        (λ f es o. collect_from codec agg all (idx + 1) rs f es o)
        (merge_response-IsCollected idx r fields errs ok r.err refl (λ h. part (ground arith)))
        (λ f es o. collect_from-IsCollected (idx + 1) rs f es o (λ h. part (ground arith)))

  finish_merged-IsHonest :
      (c : Collected Value)
      → IsCollected all all [] c
      → IsHonest all (finish_merged codec agg all c)
  unfolding finish_merged
  finish_merged-IsHonest (early resp) h = h
  finish_merged-IsHonest (collected fields errs ok) h =
      completed-IsHonest internal_error all errs ok _ (λ f. h (ground arith))

  pub merged-IsHonest : IsHonest all (merged codec agg all)
  unfolding merged collect_fields
  merged-IsHonest = finish_merged-IsHonest _ (collect_from-IsCollected 0 all [] [] false (λ h. h))
