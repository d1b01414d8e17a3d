-- ===== src/Aggregator/Merge.antt =====
-- "merge" of aggregator.go: the fields of all the responses in one object.
pub mod Fields
pub mod Honest
pub mod Examples
use aastro.Prelude.{
  ℕ, zero, suc, ◌+◌, ◌≡◌, Bool, true, false, not, ◌&&◌, List, [], ◌∷◌, ◌++◌, is_empty, Option, none,
  some, String, if◌then◌else◌, lookup, insert, ◌==◌, map,
}
use aastro.UpstreamError.{
  UpstreamError, ClientError, upstream_malformed, value_conflict, map_upstream_error,
}
use aastro.Upstream.{ℤ, pos, negsuc, UpstreamResponse}
use aastro.Flow.{
  ConflictPolicy, policy_overwrite, policy_error, policy_first, policy_prefer, Aggregation,
}
use aastro.Aggregator.{
  Codec, AggregatedResponse, refused, resp_internal_error, resp_upstream_malformed_error, completed,
  failure_of_all,
}

-- A merged value and the index of the upstream that gave it.
pub record Field (V : Type 0) : Type 0 where
  pub value : V
  pub owner : ℕ

abbrev pub is_preferred : ℕ → ℤ → Bool
is_preferred owner (pos n) = owner == n
is_preferred owner (negsuc n) = false

module _ {V : Type 0} where
  -- The `switch` of `applyConflictPolicy` where the key has a value; none is the conflict error.
  pub on_conflict : ConflictPolicy → ℤ → Field V → Field V → Option (Field V)
  on_conflict policy_overwrite preferred current incoming = some incoming
  on_conflict policy_first preferred current incoming = some current
  on_conflict policy_error preferred current incoming = none
  on_conflict policy_prefer preferred current incoming =
      if not (is_preferred current.owner preferred) && is_preferred incoming.owner preferred
      then some incoming
      else some current

  store : String → List (String × Field V) → Option (Field V) → Option (List (String × Field V))
  store k fields none = none
  store k fields (some f) = some (insert k f fields)

  at_key :
      String
      → Field V
      → Aggregation
      → List (String × Field V)
      → Option (Field V)
      → Option (List (String × Field V))
  at_key k incoming agg fields none = some (insert k incoming fields)
  at_key k incoming agg fields (some current) =
      store k fields (on_conflict agg.conflict_policy agg.preferred_upstream current incoming)

  pub apply_conflict_policy :
      List (String × Field V) → String → Field V → Aggregation → Option (List (String × Field V))
  apply_conflict_policy fields k incoming agg = at_key k incoming agg fields (lookup k fields)

  -- The loop over the object of upstream `idx`.
  pub add_object :
      Aggregation
      → ℕ
      → List (String × V)
      → List (String × Field V)
      → Option (List (String × Field V))
  add_object agg idx [] fields = some fields
  add_object agg idx ((k, v) ∷ obj) fields =
      elim (apply_conflict_policy fields k (record { value = v; owner = idx }) agg) [
        | none ↦ none
        | some fields' ↦ add_object agg idx obj fields'
      ]

  abbrev values_of : List (String × Field V) → List (String × V)
  values_of fs = map (λ (k, f). (k, f.value)) fs

-- What `collectFields` returns: the response of an early return, or the fields with the errors and
-- whether a response was successful.
pub data Collected (V : Type 0) : Type 0 where
  early : AggregatedResponse → Collected V
  collected : List (String × Field V) → List ClientError → Bool → Collected V

module _ (codec : Codec) (agg : Aggregation) where
  open codec use {Value, unmarshal, marshal}

  -- The decoded body of a response, and the loop over its fields. `responses` are all of the call's.
  merge_decoded :
      ℕ
      → List (String × Field Value)
      → List ClientError
      → Option (List (String × Value))
      → Collected Value
  merge_decoded idx fields errs none =
      if agg.best_effort
      then collected fields (errs ++ upstream_malformed ∷ []) true
      else early resp_upstream_malformed_error
  merge_decoded idx fields errs (some obj) = elim (add_object agg idx obj fields) [
    | none ↦ early (refused (value_conflict ∷ []) 0)
    | some fields' ↦ collected fields' errs true
  ]

  -- One round of `collectFields`, by the error of the response.
  merge_response :
      List UpstreamResponse
      → ℕ
      → UpstreamResponse
      → List (String × Field Value)
      → List ClientError
      → Bool
      → Option UpstreamError
      → Collected Value
  merge_response responses idx r fields errs has_successful (some e) =
      if agg.best_effort
      then collected fields (errs ++ map_upstream_error (some e) ∷ []) has_successful
      else early (failure_of_all responses)
  merge_response responses idx r fields errs has_successful none =
      if is_empty r.body
      then collected fields errs true
      else merge_decoded idx fields errs (unmarshal r.body)

  -- The loop of `collectFields` over the responses that are left, from index `idx` on.
  pub collect_from :
      List UpstreamResponse
      → ℕ
      → List UpstreamResponse
      → List (String × Field Value)
      → List ClientError
      → Bool
      → Collected Value
  collect_from responses idx [] fields errs has_successful = collected fields errs has_successful
  collect_from responses idx (r ∷ rs) fields errs has_successful =
      elim (merge_response responses idx r fields errs has_successful r.err) [
        | early resp ↦ early resp
        | collected fields' errs' ok ↦ collect_from responses (idx + 1) rs fields' errs' ok
      ]

  pub collect_fields : List UpstreamResponse → Collected Value
  collect_fields responses = collect_from responses 0 responses [] [] false

  finish_merged : List UpstreamResponse → Collected Value → AggregatedResponse
  finish_merged responses (early resp) = resp
  finish_merged responses (collected fields errs has_successful) =
      completed resp_internal_error responses errs has_successful (marshal (values_of fields))

  pub merged : List UpstreamResponse → AggregatedResponse
  merged responses = finish_merged responses (collect_fields responses)
