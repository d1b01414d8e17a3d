-- ===== src/OpenApi/ToConfig/Valid.antt =====
-- A configuration that is imported from a document passes the gateway's checks (internal/openapi/import.go,
-- config.go).
use aastro.Prelude.{
  true, false, List, [], ◌∷◌, Option, none, some, String, str_eq_iff, is_empty, contains, all, All,
  All-append, ◌≡◌, ◌≢◌, refl, sym, ap, ◌∙◌, subst, inl, inr, arith, Bool-cases, Option-cases,
}
use aastro.Config.{
  FlowConfig, validate_flow, validate_flows, validate_config, validate_http2,
  validate_upstream_http2, validate_upstream_params, validate_path_params, validate_forward_params,
  Config,
}
use aastro.Config.Params.{extract_path_params}
use aastro.OpenApi.{Durations}
use aastro.Prelude.Sorting.{sort_entries, All-sort_entries}
use aastro.OpenApi.Document.{Operation, PathItem, Document, operations_of}
use aastro.OpenApi.Scaffold.{ImportMode, resolve_import_mode, scaffold_flow, scaffold_upstream}
use aastro.OpenApi.ToConfig.{
  ImportOptions, Imported, Gathered, convert_operation, handle, handle_all, handle_paths, finished,
  to_config, nothing_yet, port_or, imported_in,
}

module _ (declared : List String) where
  all-contains :
      (xs : List String)
      → ((a : String) → contains xs a ≡ true → contains declared a ≡ true)
      → all (contains declared) xs ≡ true
  all-contains [] h = refl
  all-contains (x ∷ xs) h =
      let here = h x (ground (arith, (str_eq_iff x x).1 refl)) in
      let there = all-contains xs (λ a m. h a (ground (arith, m))) in ground (arith, here, there)

-- A flow passes the checks that the configuration makes of it and of its upstreams.
record Passes (f : FlowConfig) : Type 0 where
  valid : validate_flow f ≡ true
  http2_fits : all validate_upstream_http2 f.upstreams ≡ true

scaffold_flow-Passes :
    (default_host : String) (servers : List String) (path method : String) (op : Operation)
    (mode : ImportMode)
    → Passes (scaffold_flow default_host servers path method op mode).0
unfolding validate_flow validate_upstream_params validate_path_params validate_forward_params
    scaffold_flow scaffold_upstream validate_upstream_http2
scaffold_flow-Passes default_host servers path method op mode =
    let declared = all-contains (extract_path_params path) (extract_path_params path) (λ a m. m) in
    record { valid = simp declared (ground arith); http2_fits = refl }

-- The operations of a document have no extension: it was not exported with extensions.
abbrev pub IsForeign : List (String × Option PathItem) → Type 0
IsForeign paths = All (λ entry. All (λ slot. slot.1.x_aastro ≡ none) (operations_of entry.1)) paths

module _ (durations : Durations) (doc : Document) (default_host : String) (mode : ImportMode) where
  convert_operation-Passes :
      (path method : String) (op : Operation)
      → op.x_aastro ≡ none
      → Passes (convert_operation durations doc default_host mode path method op op.x_aastro).0
  unfolding convert_operation
  convert_operation-Passes path method op none_there =
      subst (λ ext. Passes (convert_operation durations doc default_host mode path method op ext).0)
        (sym none_there) (scaffold_flow-Passes default_host doc.servers path method op mode)

  handle_all-Passes :
      (path : String) (ops : List (String × Operation)) (g : Gathered)
      → All (λ slot. slot.1.x_aastro ≡ none) ops
      → All Passes g.flows
      → All Passes (handle_all durations doc default_host mode path ops g).flows
  unfolding handle_all handle
  handle_all-Passes path [] g foreign h = h
  handle_all-Passes path ((method, op) ∷ ops) g foreign h =
      handle_all-Passes path ops (handle durations doc default_host mode path method op g) foreign.1
        (All-append Passes g.flows _ h ((convert_operation-Passes path method op foreign.0, tt)))

  handle_paths-Passes :
      (paths : List (String × Option PathItem)) (g : Gathered)
      → IsForeign paths
      → All Passes g.flows
      → All Passes (handle_paths durations doc default_host mode paths g).flows
  unfolding handle_paths
  handle_paths-Passes [] g foreign h = h
  handle_paths-Passes ((path, item) ∷ rest) g foreign h =
      handle_paths-Passes rest
        (handle_all durations doc default_host mode path (operations_of item) g) foreign.1
        (handle_all-Passes path (operations_of item) g foreign.0 h)

validate_flows-Passes : (fs : List FlowConfig) → All Passes fs → validate_flows fs ≡ true
unfolding validate_flows
validate_flows-Passes [] h = refl
validate_flows-Passes (f ∷ fs) h = rw h.0.valid (validate_flows-Passes fs h.1)

all_http2-Passes :
    (fs : List FlowConfig)
    → All Passes fs
    → all (λ f. all validate_upstream_http2 f.upstreams) fs ≡ true
all_http2-Passes [] h = refl
all_http2-Passes (f ∷ fs) h = ground (arith, h.0.http2_fits, all_http2-Passes fs h.1)

abbrev config_of : ImportOptions → List FlowConfig → Config
config_of opts flows = record {
  server = record {
    port = port_or opts.server_port 7805;
    admin_port = port_or opts.admin_port 9090;
    http2 = "";
    tls_enabled = false;
  };
  flows = flows;
}

finished-config :
    (doc : Document) (opts : ImportOptions) (g : Gathered) (imported : Imported)
    → finished doc opts g ≡ some imported
    → imported.config ≡ config_of opts g.flows
unfolding finished
finished-config doc opts g imported e =
    sym (ap configured e) ∙ elim (Bool-cases (is_empty g.flows)) [
      | inl none_there ↦ simp none_there refl
      | inr some_there ↦ simp some_there refl
    ]
  where
    configured : Option Imported → Config
    configured none = config_of opts g.flows
    configured (some i) = i.config

config_of-valid :
    (opts : ImportOptions) (flows : List FlowConfig)
    → All Passes flows
    → port_or opts.server_port 7805 ≢ port_or opts.admin_port 9090
    → validate_config (config_of opts flows) ≡ true
unfolding validate_config validate_http2
config_of-valid opts flows h differ =
    simp (validate_flows-Passes flows h, all_http2-Passes flows h) (ground (arith, differ))

-- A configuration that is imported from a document in which no operation has an extension passes the checks
-- of ValidateConfig (of the ports, the flows with their parameters, and http2), if the two ports differ.
pub to_config_valid :
    (durations : Durations) (doc : Document) (opts : ImportOptions) (imported : Imported)
    → to_config durations doc opts ≡ some imported
    → IsForeign doc.paths
    → port_or opts.server_port 7805 ≢ port_or opts.admin_port 9090
    → validate_config imported.config ≡ true
unfolding to_config
to_config_valid durations doc opts imported e foreign differ =
    elim (Option-cases (resolve_import_mode opts.mode)) [
      | inl unknown ↦ cc (ap (imported_in durations doc opts) (sym unknown) ∙ e)
      | inr (mode, known) ↦
          let g =
            handle_paths durations doc opts.default_host mode (sort_entries doc.paths)
              nothing_yet in
          let config : imported.config ≡ config_of opts g.flows =
            finished-config doc opts g imported
              (ap (imported_in durations doc opts) (sym known) ∙ e) in
          let passes =
            handle_paths-Passes durations doc opts.default_host mode (sort_entries doc.paths)
              nothing_yet
              (All-sort_entries
                (λ entry. All (λ slot. slot.1.x_aastro ≡ none) (operations_of entry.1)) doc.paths
                foreign)
              tt in
          subst (λ c. validate_config c ≡ true) (sym config)
            (config_of-valid opts g.flows passes differ)
    ]
