-- ===== src/Aggregator/Honest.antt =====
-- What the gateway promises of an aggregated response: no failure of an upstream is hidden.
use aastro.Prelude.{
  ℕ, ◌≡◌, refl, ◌∙◌, ◌⊎◌, inl, inr, Bool, true, false, not, ◌&&◌, ◌||◌, List, [], ◌∷◌, ◌++◌,
  is_empty, any, Option, none, some, arith, length, ltb,
}
use aastro.UpstreamError.{UpstreamError, ClientError}
use aastro.Upstream.{UpstreamResponse}
use aastro.Aggregator.{
  AggregatedResponse, refused, completed, failure_of_all, shared_failure_status, dedupe_errors,
  dedupe_from, has_error, collect_errors, failed,
}

-- A response that is not partial data with no errors, and none that hides a failure. A status that
-- is given is the one that the failed responses share.
pub record IsHonest (responses : List UpstreamResponse) (resp : AggregatedResponse) : Type 0 where
  pub partial_errors : resp.partial ≡ true → (is_empty resp.errors ≡ false) × (resp.status ≡ 0)
  pub own_status :
      (resp.status ≡ 0)
      ⊎ ((resp.status ≡ shared_failure_status responses) × (is_empty resp.errors ≡ false))
  pub reported : any failed responses ≡ true → is_empty resp.errors ≡ false

is_empty-dedupe_errors : (es : List ClientError) → is_empty (dedupe_errors es) ≡ is_empty es
unfolding dedupe_errors dedupe_from has_error
is_empty-dedupe_errors [] = refl
is_empty-dedupe_errors (x ∷ []) = refl
is_empty-dedupe_errors (x ∷ y ∷ es) = ground arith

collect_errors_empty :
    (rs : List UpstreamResponse) → any failed rs ≡ true → is_empty (collect_errors rs) ≡ false
unfolding collect_errors
collect_errors_empty [] h = cc
collect_errors_empty (r ∷ rs) h = ground (arith, collect_errors_empty rs)

pub failure_of_all-IsHonest :
    (rs : List UpstreamResponse) → any failed rs ≡ true → IsHonest rs (failure_of_all rs)
unfolding failure_of_all
failure_of_all-IsHonest rs h =
    let reported = is_empty-dedupe_errors (collect_errors rs) ∙ collect_errors_empty rs h in
    record { partial_errors = λ p. cc; own_status = inr (refl, reported); reported = λ _. reported }

-- A refusal with one error and no status.
pub refused_one-IsHonest :
    (rs : List UpstreamResponse) (e : ClientError) → IsHonest rs (refused (e ∷ []) 0)
refused_one-IsHonest rs e = record {
  partial_errors = λ p. cc;
  own_status = inl refl;
  reported = λ _. refl;
}

some_errors :
    (errs : List ClientError) (ok : Bool)
    → (ltb 0 (length errs) && ok) ≡ true
    → is_empty errs ≡ false
some_errors [] ok h = ground arith
some_errors (e ∷ es) ok h = refl

pub completed-IsHonest :
    (e : ClientError) (rs : List UpstreamResponse) (errs : List ClientError) (ok : Bool)
    (json : Option (List ℕ))
    → (any failed rs ≡ true → is_empty errs ≡ false)
    → IsHonest rs (completed (refused (e ∷ []) 0) rs errs ok json)
unfolding completed
completed-IsHonest e rs errs ok none h = refused_one-IsHonest rs e
completed-IsHonest e rs errs ok (some json) h =
    let same = is_empty-dedupe_errors errs in
    record {
      partial_errors = λ p. (same ∙ some_errors errs ok p, refl);
      own_status = inl refl;
      reported = λ f. same ∙ h f;
    }

-- The errors of a loop over `rs` that begins with `errs`.
abbrev pub Kept : List UpstreamResponse → List ClientError → List ClientError → Type 0
Kept rs errs errs' = (not (is_empty errs) || any failed rs) ≡ true → is_empty errs' ≡ false

is_empty-append : (es : List ClientError) (e : ClientError) → is_empty (es ++ e ∷ []) ≡ false
is_empty-append [] e = refl
is_empty-append (x ∷ es) e = refl

-- A response with no error leaves the errors as they are, and an error is added at the end.
pub Kept-clean :
    (r : UpstreamResponse) (errs : List ClientError) → failed r ≡ false → Kept (r ∷ []) errs errs
Kept-clean r errs clean = ground arith

pub Kept-added :
    (rs : List UpstreamResponse) (errs : List ClientError) (e : ClientError)
    → Kept rs errs (errs ++ e ∷ [])
Kept-added rs errs e = λ _. is_empty-append errs e

-- One round of a loop, and then the others.
pub Kept-trans :
    (r : UpstreamResponse) (rs : List UpstreamResponse) (a b c : List ClientError)
    → Kept (r ∷ []) a b
    → Kept rs b c
    → Kept (r ∷ rs) a c
Kept-trans r rs a b c first rest = ground arith

abbrev has_err : Option UpstreamError → Bool
has_err none = false
has_err (some e) = true

pub failed_lem :
    (r : UpstreamResponse) (e : Option UpstreamError) → r.err ≡ e → failed r ≡ has_err e
failed_lem r none same = ground arith
failed_lem r (some e) same = ground arith
