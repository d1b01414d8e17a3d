-- ===== src/Aggregator/Merge/Fields.antt =====
-- Which value a merged field has: the loops of "merge" against a description that looks at one key.
pub mod Chosen
use aastro.Prelude.{
  ℕ, zero, suc, ◌+◌, ◌≡◌, ◌≢◌, ◌≤◌, ◌<◌, refl, sym, ap, ◌∙◌, ◌⊎◌, inl, inr, ◌↔◌, Bool, true, false,
  not, ◌&&◌, ◌||◌, List, [], ◌∷◌, ◌++◌, length, Option, none, some, ltb, ◌==◌, All, arith,
  Bool-cases, if◌then◌else◌, Option-cases, String, lookup, insert, lookup-insert, str_eq,
  str_eq_iff, is_empty,
}
use aastro.UpstreamError.{ClientError, UpstreamError, map_upstream_error}
use aastro.Upstream.{ℤ, pos, negsuc, UpstreamResponse}
use aastro.Flow.{
  ConflictPolicy, policy_overwrite, policy_error, policy_first, policy_prefer, Aggregation,
}
use aastro.Aggregator.{Codec, Distinct, failed}
use aastro.Aggregator.Merge.{
  Field, is_preferred, on_conflict, store, at_key, apply_conflict_policy, add_object, Collected,
  early, collected, merge_decoded, merge_response, collect_from, collect_fields,
}

module _ {V : Type 0} (agg : Aggregation) where
  -- A key's value after one more response, by the value so far and that of the response.
  pub combine : Option (Field V) → Option (Field V) → Option (Field V)
  combine current none = current
  combine none (some incoming) = some incoming
  combine (some current) (some incoming) =
      on_conflict agg.conflict_policy agg.preferred_upstream current incoming

  owned : ℕ → Option V → Option (Field V)
  owned idx none = none
  owned idx (some v) = some (record { value = v; owner = idx })

  -- Go's `m[k] = v`, seen by its lookups.
  lookup-at_key :
      (fields fields' : List (String × Field V)) (k j : String) (incoming : Field V)
      (current : Option (Field V))
      → at_key k incoming agg fields current ≡ some fields'
      → lookup j fields' ≡ (if str_eq k j then combine current (some incoming) else lookup j fields)
  unfolding at_key store combine
  lookup-at_key fields fields' k j incoming none e =
      ground (arith, lookup-insert k j incoming fields)
  lookup-at_key fields fields' k j incoming (some current) e =
      elim (Option-cases
        (on_conflict agg.conflict_policy agg.preferred_upstream current incoming)) [
          | inl conflict ↦ ground arith
          | inr (f, resolved) ↦ ground (arith, lookup-insert k j f fields)
        ]

  combine-none : (c : Option (Field V)) → combine c none ≡ c
  unfolding combine
  combine-none none = refl
  combine-none (some f) = refl

  -- One entry, then the rest of the object: at the entry's key the rest has nothing.
  combine_step :
      (idx : ℕ) (k j : String) (v : V) (obj : List (String × V)) (at_k at_j next : Option (Field V))
      → lookup k obj ≡ none
      → (str_eq k j ≡ true → at_k ≡ at_j)
      → next ≡ (if str_eq k j then combine at_k (owned idx (some v)) else at_j)
      → combine next (owned idx (lookup j obj))
        ≡ combine at_j (owned idx (if str_eq k j then some v else lookup j obj))
  unfolding owned
  combine_step idx k j v obj at_k at_j next fresh same e = elim (Bool-cases (str_eq k j)) [
    | inl here ↦
        let gone : lookup j obj ≡ none =
          ap (λ x. lookup x obj) (sym ((str_eq_iff k j).0 here)) ∙ fresh in
        rw (gone, here)
          (combine-none next
            ∙ (rw here at e)
            ∙ ap (λ c. combine c (owned idx (some v))) (same here))
    | inr apart ↦ rw apart (ap (λ c. combine c (owned idx (lookup j obj))) (rw apart at e))
  ]

  lookup-add_object :
      (idx : ℕ) (j : String) (obj : List (String × V)) (fields fields' : List (String × Field V))
      → Distinct obj
      → add_object agg idx obj fields ≡ some fields'
      → lookup j fields' ≡ combine (lookup j fields) (owned idx (lookup j obj))
  unfolding add_object owned lookup apply_conflict_policy
  lookup-add_object idx j [] fields fields' d e =
      let same : fields ≡ fields' = cc in
      ap (lookup j) (sym same) ∙ sym (combine-none (lookup j fields))
  lookup-add_object idx j ((k, v) ∷ obj) fields fields' (fresh, d) e =
      go (apply_conflict_policy fields k (record { value = v; owner = idx }) agg) refl e
        (λ f. lookup-add_object idx j obj f fields' d)
    where
      go :
          (o : Option (List (String × Field V)))
          → apply_conflict_policy fields k (record { value = v; owner = idx }) agg ≡ o
          → (elim o [ none ↦ none | some f ↦ add_object agg idx obj f ]) ≡ some fields'
          → ((f : List (String × Field V))
              → add_object agg idx obj f ≡ some fields'
              → lookup j fields' ≡ combine (lookup j f) (owned idx (lookup j obj)))
          → lookup j fields'
            ≡ combine (lookup j fields) (owned idx (if str_eq k j then some v else lookup j obj))
      go none applied e rest = cc
      go (some f) applied e rest =
          rest f e
          ∙ combine_step idx k j v obj (lookup k fields) (lookup j fields) (lookup j f) fresh
              (λ h. ap (λ x. lookup x fields) ((str_eq_iff k j).0 h))
              (lookup-at_key fields f k j (record { value = v; owner = idx }) (lookup k fields)
                applied)

module _ (codec : Codec) (agg : Aggregation) where
  open codec use {Value, unmarshal, unmarshal_distinct}

  of_decoded : ℕ → String → Option (List (String × Value)) → Option (Field Value)
  of_decoded idx k none = none
  of_decoded idx k (some obj) = owned agg idx (lookup k obj)

  of_response : ℕ → String → UpstreamResponse → Option UpstreamError → Option (Field Value)
  of_response idx k r (some e) = none
  of_response idx k r none = if is_empty r.body then none else of_decoded idx k (unmarshal r.body)

  -- What the response of upstream `idx` has at a key: nothing if it failed, has no body, or its body
  -- is no object.
  contribution : ℕ → String → UpstreamResponse → Option (Field Value)
  unfolding of_response of_decoded
  contribution idx k r = of_response idx k r r.err

  pub contributions : ℕ → String → List UpstreamResponse → List (Option (Field Value))
  contributions idx k [] = []
  contributions idx k (r ∷ rs) = contribution idx k r ∷ contributions (idx + 1) k rs

  pub combine_all : Option (Field Value) → List (Option (Field Value)) → Option (Field Value)
  combine_all acc [] = acc
  combine_all acc (c ∷ cs) = combine_all (combine agg acc c) cs

  lookup-merge_decoded :
      (idx : ℕ) (k : String) (fields fields' : List (String × Field Value))
      (errs errs' : List ClientError) (ok : Bool) (o : Option (List (String × Value)))
      → ((obj : List (String × Value)) → o ≡ some obj → Distinct obj)
      → merge_decoded codec agg idx fields errs o ≡ collected fields' errs' ok
      → lookup k fields' ≡ combine agg (lookup k fields) (of_decoded idx k o)
  unfolding merge_decoded of_decoded
  lookup-merge_decoded idx k fields fields' errs errs' ok none d e =
      ground (arith, combine-none agg (lookup k fields))
  lookup-merge_decoded idx k fields fields' errs errs' ok (some obj) d e =
      elim (Option-cases (add_object agg idx obj fields)) [
        | inl conflict ↦ ground arith
        | inr (f, added) ↦
            ground (arith, lookup-add_object agg idx k obj fields f (d obj refl) added)
      ]

  lookup-merge_response :
      (responses : List UpstreamResponse) (idx : ℕ) (k : String) (r : UpstreamResponse)
      (fields fields' : List (String × Field Value)) (errs errs' : List ClientError) (ok ok' : Bool)
      (err : Option UpstreamError)
      → merge_response codec agg responses idx r fields errs ok err ≡ collected fields' errs' ok'
      → lookup k fields' ≡ combine agg (lookup k fields) (of_response idx k r err)
  unfolding merge_response of_response
  lookup-merge_response responses idx k r fields fields' errs errs' ok ok' (some e) h =
      ground (arith, combine-none agg (lookup k fields))
  lookup-merge_response responses idx k r fields fields' errs errs' ok ok' none h =
      elim (Bool-cases (is_empty r.body)) [
        | inl empty ↦ ground (arith, combine-none agg (lookup k fields))
        | inr full ↦ rw full (
            lookup-merge_decoded idx k fields fields' errs errs' ok' (unmarshal r.body)
              (unmarshal_distinct r.body) (rw full at h))
      ]

  lookup-collect_from :
      (responses : List UpstreamResponse) (k : String) (idx : ℕ) (rs : List UpstreamResponse)
      (fields fields' : List (String × Field Value)) (errs errs' : List ClientError) (ok ok' : Bool)
      → collect_from codec agg responses idx rs fields errs ok ≡ collected fields' errs' ok'
      → lookup k fields' ≡ combine_all (lookup k fields) (contributions idx k rs)
  unfolding collect_from combine_all contributions contribution
  lookup-collect_from responses k idx [] fields fields' errs errs' ok ok' h = ground arith
  lookup-collect_from responses k idx (r ∷ rs) fields fields' errs errs' ok ok' h =
      go (merge_response codec agg responses idx r fields errs ok r.err) refl h
        (λ f es o. lookup-collect_from responses k (idx + 1) rs f fields' es errs' o ok')
    where
      go :
          (c : Collected Value)
          → merge_response codec agg responses idx r fields errs ok r.err ≡ c
          → (elim c [
            | early resp ↦ early resp
            | collected f es o ↦ collect_from codec agg responses (idx + 1) rs f es o
          ])
            ≡ collected fields' errs' ok'
          → ((f : List (String × Field Value)) (es : List ClientError) (o : Bool)
              → collect_from codec agg responses (idx + 1) rs f es o ≡ collected fields' errs' ok'
              → lookup k fields' ≡ combine_all (lookup k f) (contributions (idx + 1) k rs))
          → lookup k fields'
            ≡ combine_all
                (combine agg (lookup k fields) (of_response idx k r r.err))
                (contributions (idx + 1) k rs)
      go (early resp) e h rest = cc
      go (collected f es o) e h rest =
          rest f es o h
          ∙ ap (λ a. combine_all a (contributions (idx + 1) k rs))
              (lookup-merge_response responses idx k r fields f errs es ok o r.err e)
