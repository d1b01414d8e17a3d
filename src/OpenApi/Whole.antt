-- ===== src/OpenApi/Whole.antt =====
-- An export of a whole configuration and an import of its document (internal/openapi).
use aastro.Prelude.{
  Bool, true, false, ◌&&◌, List, [], ◌∷◌, Option, none, some, String, str_eq, is_empty, contains,
  lookup, insert, ◌≡◌, refl, sym, ap, ◌∙◌, inl, inr, arith, Bool-cases, str_eq_iff,
}
use aastro.Prelude.Sorting.{sort_entries}
use aastro.Config.{FlowConfig, MiddlewareConfig}
use aastro.OpenApi.{Durations, Message}
use aastro.OpenApi.Document.{Document, methods}
use aastro.OpenApi.Export.Responses.{proxy_responses}
use aastro.OpenApi.Export.Operations.{
  build_operation, responses_of, is_proxied, auth_responses, find_auth_middleware,
}
use aastro.OpenApi.FromConfig.{
  Options, Exported, from_config, exported_as, document_of, write_flows, nothing_written,
  resolve_oas_version,
}
use aastro.OpenApi.FromConfig.Found.{find_flow, operation_of, operations_of_flow, find-write_flows}
use aastro.OpenApi.Scaffold.{
  streams, is_streaming_operation, ImportMode, resolve_import_mode, scaffold_flow,
}
use aastro.OpenApi.ToConfig.{
  ImportOptions, Imported, Gathered, convert_operation, handle_paths, nothing_yet, finished,
  imported_in, imported_of, to_config,
}
use aastro.OpenApi.ToConfig.Found.{flow_for, flow_for_option, find_flow-handle_paths}
use aastro.OpenApi.Lossless.{restored_flow, reconstruct_flow-extension}

pub find_flow-found :
    (p m : String) (fs : List FlowConfig) (f : FlowConfig)
    → find_flow p m fs ≡ some f
    → (f.path ≡ p) × (f.method ≡ m)
unfolding find_flow
find_flow-found p m [] f e = cc
find_flow-found p m (g ∷ fs) f e = elim (Bool-cases (str_eq g.path p && str_eq g.method m)) [
  | inl here ↦
      let same : g ≡ f = cc (e, here) in
      (
        ap (λ h. h.path) (sym same) ∙ (str_eq_iff g.path p).0 (ground (arith, here)),
        ap (λ h. h.method) (sym same) ∙ (str_eq_iff g.method m).0 (ground (arith, here)),
      )
  | inr further ↦ find_flow-found p m fs f (simp further at e)
]

is_empty-find_flow :
    (p m : String) (fs : List FlowConfig) (f : FlowConfig)
    → find_flow p m fs ≡ some f
    → is_empty fs ≡ false
unfolding find_flow
is_empty-find_flow p m [] f e = cc
is_empty-find_flow p m (g ∷ fs) f e = refl

finished-some :
    (doc : Document) (opts : ImportOptions) (g : Gathered) (p m : String) (f : FlowConfig)
    → find_flow p m g.flows ≡ some f
    → finished doc opts g ≡ some (imported_of doc opts g)
unfolding finished
finished-some doc opts g p m f e = simp (is_empty-find_flow p m g.flows f e) refl

streams-proxied :
    (auth : Option MiddlewareConfig) (limited : Bool)
    → streams (lookup "200" (auth_responses auth (proxy_responses limited))) ≡ true
unfolding proxy_responses insert lookup
streams-proxied none true = refl
streams-proxied none false = refl
streams-proxied (some m) true = refl
streams-proxied (some m) false = refl

abbrev pub restored_option : Option FlowConfig → Option FlowConfig
restored_option none = none
restored_option (some f) = some (restored_flow f)

module _ (durations : Durations) (cfg : Exported) (opts : Options) (iopts : ImportOptions)
    (version : String) (mode : ImportMode) where
  abbrev the_document : Document
  the_document =
      document_of cfg opts version
        (write_flows durations cfg.rate_limited opts.extensions cfg.flows nothing_written)

  abbrev the_import : Gathered
  the_import =
      handle_paths durations the_document iopts.default_host mode (sort_entries the_document.paths)
        nothing_yet

  abbrev the_flow : String → String → FlowConfig → FlowConfig
  the_flow p m f =
      flow_for durations the_document iopts.default_host mode p m
        (operation_of durations cfg.rate_limited opts.extensions f)

  find_flow-the_import :
      (p m : String)
      → contains methods m ≡ true
      → find_flow p m the_import.flows
        ≡ flow_for_option durations the_document iopts.default_host mode p m (
            operations_of_flow durations cfg.rate_limited opts.extensions (find_flow p m cfg.flows))
  unfolding document_of find_flow
  find_flow-the_import p m known =
      find_flow-handle_paths durations the_document iopts.default_host mode p m
        (sort_entries the_document.paths) nothing_yet
      ∙ ap (flow_for_option durations the_document iopts.default_host mode p m)
          (find-write_flows durations cfg.rate_limited opts.extensions p m cfg.flows known)

  -- The two functions succeed on a configuration with a flow that an import meets.
  both_succeed :
      (p m : String) (f : FlowConfig)
      → resolve_oas_version opts.oas_version ≡ some version
      → resolve_import_mode iopts.mode ≡ some mode
      → contains methods m ≡ true
      → find_flow p m cfg.flows ≡ some f
      → (ws : List Message) × (from_config durations cfg opts ≡ some (the_document, ws))
        × (to_config durations the_document iopts
            ≡ some (imported_of the_document iopts the_import))
  unfolding from_config to_config
  both_succeed p m f versioned moded known there = (
    (write_flows durations cfg.rate_limited opts.extensions cfg.flows nothing_written).warnings,
    ap (exported_as durations cfg opts) versioned,
    ap (imported_in durations the_document iopts) moded
        ∙ finished-some the_document iopts the_import p m (the_flow p m f)
            (find_flow-the_import p m known ∙ rw there refl),
  )

  extended :
      (p m : String) (f : FlowConfig)
      → opts.extensions ≡ true
      → (f.path ≡ p) × (f.method ≡ m)
      → the_flow p m f ≡ restored_flow f
  unfolding flow_for convert_operation operation_of build_operation
  extended p m f on (path_same, method_same) =
      simp (on, ← path_same, ← method_same) (ap (λ r. r.0) (reconstruct_flow-extension durations f))

  restored_flows :
      (p m : String)
      → opts.extensions ≡ true
      → contains methods m ≡ true
      → find_flow p m the_import.flows ≡ restored_option (find_flow p m cfg.flows)
  restored_flows p m on known = find_flow-the_import p m known ∙ go (find_flow p m cfg.flows) refl
    where
      go :
          (o : Option FlowConfig)
          → find_flow p m cfg.flows ≡ o
          → flow_for_option durations the_document iopts.default_host mode p m
              (operations_of_flow durations cfg.rate_limited opts.extensions o)
            ≡ restored_option o
      go none e = refl
      go (some f) e = ap some (extended p m f on (find_flow-found p m cfg.flows f e))

  proxied_streams :
      (p m : String) (f : FlowConfig)
      → opts.extensions ≡ false
      → f.streaming ≡ false
      → is_proxied f ≡ true
      → (the_flow p m f).streaming ≡ true
  unfolding flow_for convert_operation operation_of build_operation scaffold_flow
      is_streaming_operation responses_of
  proxied_streams p m f off plain one =
      simp (off, plain, one)
        (ground (arith, streams-proxied (find_auth_middleware f.middlewares) cfg.rate_limited))

-- A configuration with a flow whose method has a slot in a document: its export with extensions, at a known
-- version, and the import of that document, in a known mode, both succeed. Under every path and every
-- such method the import then has the first flow with them, as it is restored: without plugins and
-- middlewares, and each upstream as in `restored`; and where there is none, it has none.
pub to_config-from_config :
    (durations : Durations) (cfg : Exported) (opts : Options) (iopts : ImportOptions)
    (version : String) (mode : ImportMode) (some_path some_method : String) (some_flow : FlowConfig)
    (path method : String)
    → resolve_oas_version opts.oas_version ≡ some version
    → resolve_import_mode iopts.mode ≡ some mode
    → opts.extensions ≡ true
    → contains methods some_method ≡ true
    → find_flow some_path some_method cfg.flows ≡ some some_flow
    → contains methods method ≡ true
    → (doc : Document) × (ws : List Message) × (imported : Imported) × (from_config durations cfg
          opts
        ≡ some (doc, ws))
      × (to_config durations doc iopts ≡ some imported)
      × (find_flow path method imported.config.flows
          ≡ restored_option (find_flow path method cfg.flows))
to_config-from_config durations cfg opts iopts version mode p0 m0 f0 p m versioned moded on known0
      there known =
    let (ws, exported, imported) =
      both_succeed durations cfg opts iopts version mode p0 m0 f0 versioned moded known0 there in
    (
      the_document durations cfg opts iopts version mode,
      ws,
      imported_of (the_document durations cfg opts iopts version mode) iopts
          (the_import durations cfg opts iopts version mode),
      exported,
      imported,
      restored_flows durations cfg opts iopts version mode p m on known,
    )

-- A configuration with a flow that does not stream and has one upstream, the first with its path and method,
-- whose method has a slot: without extensions, its export at a known version and the import of that
-- document in a known mode both succeed, and the import has a flow that streams under that path and method,
-- also in the mode "proxy".
pub to_config-from_config_streams :
    (durations : Durations) (cfg : Exported) (opts : Options) (iopts : ImportOptions)
    (version : String) (mode : ImportMode) (path method : String) (f : FlowConfig)
    → resolve_oas_version opts.oas_version ≡ some version
    → resolve_import_mode iopts.mode ≡ some mode
    → opts.extensions ≡ false
    → contains methods method ≡ true
    → find_flow path method cfg.flows ≡ some f
    → f.streaming ≡ false
    → is_proxied f ≡ true
    → (doc : Document) × (ws : List Message) × (imported : Imported) × (g : FlowConfig)
      × (from_config durations cfg opts ≡ some (doc, ws))
      × (to_config durations doc iopts ≡ some imported)
      × (find_flow path method imported.config.flows ≡ some g)
      × (g.streaming ≡ true)
to_config-from_config_streams durations cfg opts iopts version mode p m f versioned moded off known
      there plain one =
    let (ws, exported, imported) =
      both_succeed durations cfg opts iopts version mode p m f versioned moded known there in
    (
      the_document durations cfg opts iopts version mode,
      ws,
      imported_of (the_document durations cfg opts iopts version mode) iopts
          (the_import durations cfg opts iopts version mode),
      the_flow durations cfg opts iopts version mode p m f,
      exported,
      imported,
      find_flow-the_import durations cfg opts iopts version mode p m known ∙ rw there refl,
      proxied_streams durations cfg opts iopts version mode p m f off plain one,
    )
