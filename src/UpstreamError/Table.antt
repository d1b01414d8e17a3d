-- ===== src/UpstreamError/Table.antt =====
-- The table of kinds against what its comments promise.
use aastro.Prelude.{◌≡◌, refl, ◌≢◌, true, false, [], none, some, arith, String, All}
use aastro.UpstreamError.{
  UpstreamErrorKind, timeout, unknown, no_signal, success, failure, retry_never, retry_always,
  kind_table, all_upstream_error_kinds, props, is_status_failure, is_propagatable,
  map_upstream_error, unset,
}

-- The completeness check of `init` does not panic: every kind of `allUpstreamErrorKinds` has an
-- entry in the table; and a kind with no entry is none of the declared constants.
kind_table_complete :
    All (λ k. kind_table k ≢ none) all_upstream_error_kinds
    × ((k : UpstreamErrorKind) → kind_table k ≡ none → (s : String) × (k ≡ unknown s))
unfolding kind_table all_upstream_error_kinds
kind_table_complete = (ground arith, missing)
  where
    missing : (k : UpstreamErrorKind) → kind_table k ≡ none → (s : String) × (k ≡ unknown s)
    missing (unknown s) e = (s, refl)
    missing timeout e = cc
    missing _ e = cc

-- A response that is an answer of the upstream to forward (`propagatable`) has a status and a body
-- of its own, and is no failure of the upstream for the breaker; a kind that is retried whatever
-- its status is a breaker failure with no body; and what gives the breaker no signal is never
-- retried and never forwarded.
props_consistent :
    (k : UpstreamErrorKind)
    → (is_propagatable k ≡ true → (is_status_failure k ≡ true) × ((props k).breaker ≡ success))
      × ((props k).retry ≡ retry_always
          → ((props k).breaker ≡ failure) × (is_status_failure k ≡ false))
      × ((props k).breaker ≡ no_signal
          → ((props k).retry ≡ retry_never) × (is_propagatable k ≡ false))
      × (map_upstream_error (some (record { kind = k; err = [] })) ≢ unset)
unfolding props is_status_failure is_propagatable map_upstream_error
props_consistent k = ground arith
