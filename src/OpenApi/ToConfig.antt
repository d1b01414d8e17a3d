-- ===== src/OpenApi/ToConfig.antt =====
-- internal/openapi/import.go: the configuration from a whole document (`ToConfig`). The fields of
-- the gateway that the code leaves at their zero values have them here.
pub mod Valid
pub mod Found
use aastro.Prelude.{
  ℕ, ◌==◌, Bool, true, false, not, ◌&&◌, ◌||◌, List, [], ◌∷◌, ◌++◌, Option, none, some, String,
  str_eq, is_empty, lookup, if◌then◌else◌,
}
use aastro.Prelude.Text.{starts_with}
use aastro.Config.{FlowConfig, ServerConfig, Config}
use aastro.OpenApi.{FlowExtension, Message, no_extensions, limits_by_default, Durations}
use aastro.OpenApi.Import.{reconstruct_flow}
use aastro.OpenApi.Document.{Operation, PathItem, RootExtension, Document, operations_of}
use aastro.Prelude.Sorting.{sort_entries}
use aastro.OpenApi.Scaffold.{ImportMode, resolve_import_mode, scaffold_flow}

-- A port that is not positive is 0.
pub record ImportOptions : Type 0 where
  pub default_host : String
  pub mode : String
  pub server_port : ℕ
  pub admin_port : ℕ

-- The configuration with its schema version and the service's name, and the limit and window of its rate
-- limiter if one is enabled.
pub record Imported : Type 0 where
  pub schema : String
  pub service_name : String
  pub config : Config
  pub rate_limiter : Option (ℕ × String)
  pub warnings : List Message

-- What the loop over the operations has gathered.
pub record Gathered : Type 0 where
  pub flows : List FlowConfig
  pub warnings : List Message
  pub rate_limited : Bool
  pub saw_extension : Bool

abbrev pub is_given : {A : Type 0} → Option A → Bool
is_given none = false
is_given (some x) = true

module _ (durations : Durations) (doc : Document) (default_host : String) (mode : ImportMode) where
  unfoldable pub convert_operation :
      String → String → Operation → Option FlowExtension → FlowConfig × List Message
  convert_operation path method op (some ext) = reconstruct_flow durations path method ext
  convert_operation path method op none = scaffold_flow default_host doc.servers path method op mode

  -- The closure `handle`.
  unfoldable pub handle : String → String → Operation → Gathered → Gathered
  handle path method op g =
      let (flow, ws) = convert_operation path method op op.x_aastro in
      record {
        flows = g.flows ++ flow ∷ [];
        warnings = g.warnings ++ ws;
        rate_limited = g.rate_limited || is_given (lookup "429" op.responses);
        saw_extension = g.saw_extension || is_given op.x_aastro;
      }

  unfoldable pub handle_all : String → List (String × Operation) → Gathered → Gathered
  handle_all path [] g = g
  handle_all path ((method, op) ∷ ops) g = handle_all path ops (handle path method op g)

  unfoldable pub handle_paths : List (String × Option PathItem) → Gathered → Gathered
  handle_paths [] g = g
  handle_paths ((path, item) ∷ rest) g = handle_paths rest (handle_all path (operations_of item) g)

abbrev pub generated_by_aastroctl : Option RootExtension → Bool
generated_by_aastroctl none = false
generated_by_aastroctl (some root) = starts_with "aastroctl/" root.generator

abbrev pub schema_version : Option RootExtension → String
schema_version none = "v1"
schema_version (some root) = if str_eq root.schema "" then "v1" else root.schema

unfoldable pub port_or : ℕ → ℕ → ℕ
port_or port fallback = if port == 0 then fallback else port

-- The configuration and the warnings that `ToConfig` returns.
abbrev pub imported_of : Document → ImportOptions → Gathered → Imported
imported_of doc opts g =
    let unmarked = generated_by_aastroctl doc.x_aastro && not g.saw_extension in
    record {
      schema = schema_version doc.x_aastro;
      service_name = if str_eq doc.title "" then "aastro" else doc.title;
      config = record {
        server = record {
          port = port_or opts.server_port 7805;
          admin_port = port_or opts.admin_port 9090;
          http2 = "";
          tls_enabled = false;
        };
        flows = g.flows;
      };
      rate_limiter = if g.rate_limited then some (100, "1s") else none;
      warnings =
          (g.warnings ++ (if unmarked then no_extensions ∷ [] else []))
          ++ (if g.rate_limited then limits_by_default ∷ [] else []);
    }

-- The end of `ToConfig`; none is the error of a document without operations.
unfoldable pub finished : Document → ImportOptions → Gathered → Option Imported
finished doc opts g = if is_empty g.flows then none else some (imported_of doc opts g)

abbrev pub nothing_yet : Gathered
nothing_yet = record { flows = []; warnings = []; rate_limited = false; saw_extension = false }

abbrev pub imported_in : Durations → Document → ImportOptions → Option ImportMode → Option Imported
imported_in durations doc opts none = none
imported_in durations doc opts (some mode) =
    finished doc opts
      (handle_paths durations doc opts.default_host mode (sort_entries doc.paths) nothing_yet)

-- `ToConfig` of a document that is not nil; none is an error.
unfoldable pub to_config : Durations → Document → ImportOptions → Option Imported
to_config durations doc opts = imported_in durations doc opts (resolve_import_mode opts.mode)
