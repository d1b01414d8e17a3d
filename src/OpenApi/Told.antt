-- ===== src/OpenApi/Told.antt =====
-- What the warnings of an import tell, and what it makes of the checks of a flow (internal/openapi, config.go).
use aastro.Prelude.{
  suc, Bool, true, false, List, [], ◌∷◌, ◌++◌, String, is_empty, map, length, all, All,
  if◌then◌else◌, ◌≡◌, ◌≢◌, ◌↔◌, refl, sym, ap, ◌∙◌,
}
use aastro.Config.{
  MiddlewareConfig, UpstreamConfig, FlowConfig, validate_flow, validate_upstream_params,
}
use aastro.OpenApi.{Durations, Message, no_hosts, tls_without_files, plugins_lost, middlewares_lost}
use aastro.OpenApi.Export.{flow_extension}
use aastro.OpenApi.Import.{reconstruct_flow}
use aastro.OpenApi.RoundTrip.{restored, lost, lost_of_all}
use aastro.OpenApi.Lossless.{reconstruct_flow-extension, names_of}

-- Nothing of an upstream that a warning names is lost.
abbrev pub IsUntold : UpstreamConfig → Type 0
IsUntold u = (u.hosts ≢ []) × (u.tls.enabled ≡ false)

append_empty : {A : Type 0} (xs ys : List A) → (xs ++ ys ≡ []) ↔ ((xs ≡ []) × (ys ≡ []))
append_empty [] ys = (λ h. (refl, h), λ h. h.1)
append_empty (x ∷ xs) ys = (λ h. cc h, λ h. cc (h.0))

no_host_iff :
    {A : Type 0} (xs : List A) (m : Message)
    → ((if is_empty xs then m ∷ [] else []) ≡ []) ↔ (xs ≢ [])
no_host_iff [] m = (λ h. cc h, λ h. absurd (h refl))
no_host_iff (x ∷ xs) m = (λ h e. cc e, λ h. refl)

no_tls_iff : (b : Bool) (m : Message) → ((if b then m ∷ [] else []) ≡ []) ↔ (b ≡ false)
no_tls_iff true m = (λ h. cc h, λ h. cc h)
no_tls_iff false m = (λ h. refl, λ h. refl)

lost_iff : (u : UpstreamConfig) → (lost u ≡ []) ↔ IsUntold u
unfolding lost
lost_iff u =
    let host = no_host_iff u.hosts (no_hosts u.name) in
    let tls = no_tls_iff u.tls.enabled (tls_without_files u.name) in
    let both =
      append_empty (if is_empty u.hosts then no_hosts u.name ∷ [] else [])
        (if u.tls.enabled then tls_without_files u.name ∷ [] else []) in
    (λ h. (host.0 (both.0 h).0, tls.0 (both.0 h).1), λ k. both.1 (host.1 k.0, tls.1 k.1))

lost_of_all_iff : (us : List UpstreamConfig) → (lost_of_all us ≡ []) ↔ All IsUntold us
unfolding lost_of_all
lost_of_all_iff [] = (λ h. tt, λ h. refl)
lost_of_all_iff (u ∷ us) = (
  λ h.
      let both = (append_empty (lost u) (lost_of_all us)).0 h in
      ((lost_iff u).0 both.0, (lost_of_all_iff us).0 both.1),
  λ h. (append_empty (lost u) (lost_of_all us)).1 ((lost_iff u).1 h.0, (lost_of_all_iff us).1 h.1),
)

none_lost_iff :
    {A : Type 0} (xs : List A) (m : Message)
    → ((if is_empty xs then [] else m ∷ []) ≡ []) ↔ (xs ≡ [])
none_lost_iff [] m = (λ h. refl, λ h. refl)
none_lost_iff (x ∷ xs) m = (λ h. cc h, λ h. cc h)

names_of_empty : (ms : List MiddlewareConfig) → (names_of ms ≡ []) ↔ (ms ≡ [])
names_of_empty [] = (λ h. refl, λ h. refl)
names_of_empty (m ∷ ms) = (λ h. cc h, λ h. cc h)

-- An import of an exported flow warns of nothing if and only if each upstream has a host and no TLS, and
-- there are no plugins and no middlewares.
pub reconstruct_flow_silent :
    (durations : Durations) (f : FlowConfig)
    → ((reconstruct_flow durations f.path f.method (flow_extension durations f)).1 ≡ [])
      ↔ (All IsUntold f.upstreams × ((f.plugins ≡ []) × (f.middlewares ≡ [])))
reconstruct_flow_silent durations f =
    let e = ap (λ r. r.1) (reconstruct_flow-extension durations f) in
    let plugins_ws = if is_empty f.plugins then [] else plugins_lost f.plugins ∷ [] in
    let names = names_of f.middlewares in
    let middlewares_ws = if is_empty names then [] else middlewares_lost names ∷ [] in
    (
      λ h.
          let all_ws =
            (append_empty (lost_of_all f.upstreams) (plugins_ws ++ middlewares_ws)).0 (sym e ∙ h) in
          let both = (append_empty plugins_ws middlewares_ws).0 all_ws.1 in
          (
            (lost_of_all_iff f.upstreams).0 all_ws.0,
            (
              (none_lost_iff f.plugins (plugins_lost f.plugins)).0 both.0,
              (names_of_empty f.middlewares).0
                  ((none_lost_iff names (middlewares_lost names)).0 both.1),
            ),
          ),
      λ h.
          e
          ∙ (append_empty (lost_of_all f.upstreams) (plugins_ws ++ middlewares_ws)).1 (
            (lost_of_all_iff f.upstreams).1 h.0,
            (append_empty plugins_ws middlewares_ws).1 (
              (none_lost_iff f.plugins (plugins_lost f.plugins)).1 h.1.0,
              (none_lost_iff names (middlewares_lost names)).1
                  ((names_of_empty f.middlewares).1 h.1.1),
            ),
          ),
    )

all-restored :
    (flow_params : List String) (us : List UpstreamConfig)
    → all (λ u. validate_upstream_params u flow_params) (map restored us)
      ≡ all (λ u. validate_upstream_params u flow_params) us
unfolding restored validate_upstream_params
all-restored flow_params [] = refl
all-restored flow_params (u ∷ us) = rw (all-restored flow_params us) refl

length-restored : (us : List UpstreamConfig) → length (map restored us) ≡ length us
length-restored [] = refl
length-restored (u ∷ us) = ap suc (length-restored us)

-- Whatever an import restores of an exported flow passes the checks of `validateFlows` if and only if the
-- flow did.
pub validate_flow-reconstruct_flow :
    (durations : Durations) (f : FlowConfig)
    → validate_flow (reconstruct_flow durations f.path f.method (flow_extension durations f)).0
      ≡ validate_flow f
unfolding validate_flow
validate_flow-reconstruct_flow durations f =
    simp (reconstruct_flow-extension durations f, all-restored, length-restored) refl
