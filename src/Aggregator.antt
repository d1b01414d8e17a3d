-- ===== src/Aggregator.antt =====
-- aggregator.go: the responses of a flow's upstreams, combined into one.
-- JSON is read and written by github.com/goccy/go-json: `Codec` stands for the calls of it. A Go map
-- is a dictionary; the loops over a decoded map go through it in the order of the dictionary.
pub mod Errors
pub mod Honest
pub mod Merge
pub mod Strategies
use aastro.Prelude.{
  ℕ, zero, suc, ◌+◌, ◌≡◌, Bool, true, false, not, ◌&&◌, ◌||◌, List, [], ◌∷◌, ◌++◌, length, is_empty,
  Option, none, some, String, ltb, if◌then◌else◌, lookup, insert, ◌==◌,
}
use aastro.Header.{Header}
use aastro.UpstreamError.{
  UpstreamErrorKind, client_error, UpstreamError, ClientError, internal_error, upstream_malformed,
  value_conflict, map_upstream_error,
}
use aastro.Upstream.{ℤ, pos, negsuc, UpstreamResponse}
use aastro.Flow.{
  AggregationStrategy, strategy_merge, strategy_array, strategy_namespace, strategy_unknown,
  ConflictPolicy, policy_overwrite, policy_error, policy_first, policy_prefer, Aggregation,
}

-- No key stands twice, as in a Go map.
abbrev pub Distinct : {V : Type 0} → List (String × V) → Type 0
Distinct [] = Unit
Distinct ((k, v) ∷ m) = (lookup k m ≡ none) × Distinct m

-- `json.Unmarshal` into a `map[string]interface{}`, and `json.Marshal` of such a map, of a
-- `[]json.RawMessage` and of a `map[string]json.RawMessage`; none is an error.
pub record Codec : Type 1 where
  pub Value : Type 0
  pub unmarshal : List ℕ → Option (List (String × Value))
  pub marshal : List (String × Value) → Option (List ℕ)
  pub marshal_array : List (List ℕ) → Option (List ℕ)
  pub marshal_raw : List (String × List ℕ) → Option (List ℕ)
  pub unmarshal_distinct :
      (b : List ℕ) (m : List (String × Value)) → unmarshal b ≡ some m → Distinct m

pub record AggregatedResponse : Type 0 where
  pub json : List ℕ
  pub headers : Header
  pub errors : List ClientError
  pub status : ℕ
  pub partial : Bool

-- A response with errors and a status, and nothing else.
abbrev pub refused : List ClientError → ℕ → AggregatedResponse
refused errors status = record {
  json = [];
  headers = [];
  errors = errors;
  status = status;
  partial = false;
}

abbrev pub resp_internal_error : AggregatedResponse
resp_internal_error = refused (internal_error ∷ []) 0

abbrev pub resp_upstream_malformed_error : AggregatedResponse
resp_upstream_malformed_error = refused (upstream_malformed ∷ []) 0

pub ClientError-discrete : Discrete ClientError
ClientError-discrete = hlevel

pub same_error : ClientError → ClientError → Bool
same_error a b = elim (ClientError-discrete a b) [ yes p ↦ true | no p ↦ false ]

pub has_error : List ClientError → ClientError → Bool
has_error [] e = false
has_error (x ∷ xs) e = same_error x e || has_error xs e

-- The loop of `dedupeErrors`, with what is `seen`.
pub dedupe_from : List ClientError → List ClientError → List ClientError
dedupe_from seen [] = []
dedupe_from seen (e ∷ es) =
    let fresh = e ∷ dedupe_from (e ∷ seen) es in
    let rest = dedupe_from seen es in if has_error seen e then rest else fresh

pub dedupe_errors : List ClientError → List ClientError
dedupe_errors errs = if ltb 1 (length errs) then dedupe_from [] errs else errs

abbrev pub failed : UpstreamResponse → Bool
failed r = elim r.err [ none ↦ false | some e ↦ true ]

pub collect_errors : List UpstreamResponse → List ClientError
collect_errors [] = []
collect_errors (r ∷ rs) =
    let rest = collect_errors rs in if failed r then map_upstream_error r.err ∷ rest else rest

abbrev pub is_client_error : Option UpstreamError → Bool
is_client_error none = false
is_client_error (some e) = elim e.kind [ client_error ↦ true | _ ↦ false ]

-- The loop of `sharedFailureStatus`, with the status so far.
pub share_from : ℕ → List UpstreamResponse → ℕ
share_from status [] = status
share_from status (r ∷ rs) =
    let skip = share_from status rs in
    let first = share_from r.status rs in
    if not (failed r)
    then skip
    else if not (is_client_error r.err)
    then 0
    else if status == 0
    then first
    else if status == r.status
    then skip
    else 0

pub shared_failure_status : List UpstreamResponse → ℕ
shared_failure_status responses = share_from 0 responses

-- `merged[k] = v` for every header; the loop over one response's headers.
overlay : Header → Header → Header
overlay merged [] = merged
overlay merged ((k, vs) ∷ h) = overlay (insert k vs merged) h

merge_headers_from : Header → List UpstreamResponse → Header
merge_headers_from merged [] = merged
merge_headers_from merged (r ∷ rs) =
    merge_headers_from (if failed r then merged else overlay merged r.headers) rs

merge_successful_headers : List UpstreamResponse → Header
merge_successful_headers responses = merge_headers_from [] responses

-- What a failed response does without `bestEffort`, in "merge" and "array".
pub failure_of_all : List UpstreamResponse → AggregatedResponse
failure_of_all responses =
    refused (dedupe_errors (collect_errors responses)) (shared_failure_status responses)

-- The end of each strategy: the data, or the response for data that cannot be marshalled.
pub completed :
    AggregatedResponse
    → List UpstreamResponse
    → List ClientError
    → Bool
    → Option (List ℕ)
    → AggregatedResponse
completed on_error responses agg_errors has_successful none = on_error
completed on_error responses agg_errors has_successful (some json) = record {
  json = json;
  headers = merge_successful_headers responses;
  errors = dedupe_errors agg_errors;
  status = 0;
  partial = ltb 0 (length agg_errors) && has_successful;
}
