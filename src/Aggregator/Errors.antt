-- ===== src/Aggregator/Errors.antt =====
-- The error list and the shared status of a failed aggregation.
use mathlib.Core.Bool.{and-true}
use aastro.Prelude.{
  ℕ, Bool, ◌≡◌, ◌<◌, ◌≤◌, ◌⊎◌, inl, refl, ◌∙◌, ◌↔◌, true, false, not, ◌&&◌, List, [], ◌∷◌, length,
  ltb, All, arith, any,
}
use aastro.UpstreamError.{ClientError}
use aastro.Upstream.{UpstreamResponse}
use aastro.Aggregator.{
  ClientError-discrete, same_error, has_error, dedupe_from, dedupe_errors, failed, is_client_error,
  share_from, shared_failure_status,
}

same_error_iff : (a b : ClientError) → (same_error a b ≡ true) ↔ (a ≡ b)
unfolding same_error
same_error_iff a b =
    elim (ClientError-discrete a b)
      as (λ d. ((elim d [ yes p ↦ true | no p ↦ false ]) ≡ true) ↔ (a ≡ b)) [
        | yes p ↦ (λ e. p, λ e. refl)
        | no p ↦ (λ e. cc, λ e. absurd (p e))
      ]

-- No error stands twice.
abbrev NoRepeat : List ClientError → Type 0
NoRepeat [] = Unit
NoRepeat (x ∷ xs) = (has_error xs x ≡ false) × NoRepeat xs

has_error-dedupe_from :
    (seen es : List ClientError) (e : ClientError)
    → has_error (dedupe_from seen es) e ≡ (has_error es e && not (has_error seen e))
unfolding has_error dedupe_from
has_error-dedupe_from seen [] e = refl
has_error-dedupe_from seen (x ∷ xs) e = ground (
  arith,
  has_error-dedupe_from seen xs e,
  has_error-dedupe_from (x ∷ seen) xs e,
  same_error_iff x e,
)

dedupe_from-NoRepeat : (seen es : List ClientError) → NoRepeat (dedupe_from seen es)
unfolding has_error dedupe_from
dedupe_from-NoRepeat seen [] = tt
dedupe_from-NoRepeat seen (x ∷ xs) = ground (
  arith,
  dedupe_from-NoRepeat seen xs,
  dedupe_from-NoRepeat (x ∷ seen) xs,
  has_error-dedupe_from (x ∷ seen) xs x,
  same_error_iff x x,
)

-- The errors reported are those that occurred, each once.
dedupe_errors_lem :
    (errs : List ClientError)
    → NoRepeat (dedupe_errors errs)
      × ((e : ClientError) → has_error (dedupe_errors errs) e ≡ has_error errs e)
unfolding dedupe_errors
dedupe_errors_lem [] = (tt, λ e. refl)
dedupe_errors_lem (x ∷ []) = ((unfold has_error in refl, tt), λ e. refl)
dedupe_errors_lem (x ∷ y ∷ es) =
    let long : ltb 1 (length (x ∷ y ∷ es)) ≡ true = ground arith in
    rw long (
      dedupe_from-NoRepeat [] (x ∷ y ∷ es),
      λ e. has_error-dedupe_from [] (x ∷ y ∷ es) e ∙ (unfold has_error in and-true _),
    )

-- `Shares s r`: a failed response is a client error with status `s`.
abbrev Shares : ℕ → UpstreamResponse → Type 0
Shares s r = failed r ≡ true → (is_client_error r.err ≡ true) × (r.status ≡ s)

-- A client error has a status (in `classifyStatus` it is one from 400 on).
abbrev HasStatus : UpstreamResponse → Type 0
HasStatus r = is_client_error r.err ≡ true → 0 < r.status

share_from-nonzero :
    (t s : ℕ) (rs : List UpstreamResponse)
    → 0 < t
    → 0 < s
    → (share_from t rs ≡ s) ↔ ((t ≡ s) × All (Shares s) rs)
unfolding share_from
share_from-nonzero t s [] p q = ground arith
share_from-nonzero t s (r ∷ rs) p q = ground (arith, share_from-nonzero t s rs p q)

-- A status is passed on exactly when some response failed and every failed one is a client error with
-- that status, given that client errors have statuses.
shared_failure_status_iff :
    (s : ℕ) (rs : List UpstreamResponse)
    → 0 < s
    → All HasStatus rs
    → (shared_failure_status rs ≡ s) ↔ ((any failed rs ≡ true) × All (Shares s) rs)
unfolding shared_failure_status share_from
shared_failure_status_iff s [] p h = ground arith
shared_failure_status_iff s (r ∷ rs) p h =
    ground (arith, shared_failure_status_iff s rs p h.1, share_from-nonzero r.status s rs)

-- A client error of an upstream has a status from 400 on, as `classifyStatus` makes it.
abbrev pub HasClientStatus : UpstreamResponse → Type 0
HasClientStatus r = is_client_error r.err ≡ true → 400 ≤ r.status

share_from_own :
    (s : ℕ) (rs : List UpstreamResponse)
    → All HasClientStatus rs
    → (s ≡ 0) ⊎ (400 ≤ s)
    → (share_from s rs ≡ 0) ⊎ (400 ≤ share_from s rs)
unfolding share_from
share_from_own s [] h own = own
share_from_own s (r ∷ rs) h own =
    ground (arith, share_from_own s rs h.1, share_from_own r.status rs h.1, h.0)

pub shared_own :
    (rs : List UpstreamResponse)
    → All HasClientStatus rs
    → (shared_failure_status rs ≡ 0) ⊎ (400 ≤ shared_failure_status rs)
unfolding shared_failure_status
shared_own rs h = share_from_own 0 rs h (inl refl)

-- The shared status has what the statuses of all client errors have.
share_from-All :
    (P : ℕ → Bool) (s : ℕ) (rs : List UpstreamResponse)
    → All (λ (r : UpstreamResponse). is_client_error r.err ≡ true → P r.status ≡ true) rs
    → (s ≡ 0) ⊎ (P s ≡ true)
    → (share_from s rs ≡ 0) ⊎ (P (share_from s rs) ≡ true)
unfolding share_from
share_from-All P s [] h own = own
share_from-All P s (r ∷ rs) h own =
    ground (arith, share_from-All P s rs h.1, share_from-All P r.status rs h.1, h.0)

pub shared-All :
    (P : ℕ → Bool) (rs : List UpstreamResponse)
    → All (λ (r : UpstreamResponse). is_client_error r.err ≡ true → P r.status ≡ true) rs
    → (shared_failure_status rs ≡ 0) ⊎ (P (shared_failure_status rs) ≡ true)
unfolding shared_failure_status
shared-All P rs h = share_from-All P 0 rs h (inl refl)
