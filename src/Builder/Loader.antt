-- ===== src/Builder/Loader.antt =====
-- loader.go: the plugins and the middlewares of a flow, from shared objects. Opening one, its factory and its `Init`
-- are outside: `load` is what they come to for the path of the object.
pub mod Loaded
use Prim.Native.Char.{code}
use Prim.Native.String.{[] as empty_text, ◌∷◌ as char_then, ◌++◌ as text_append}
use aastro.Prelude.{
  ◌==◌, Bool, true, false, ◌||◌, List, [], ◌∷◌, ◌++◌, Option, none, some, String, if◌then◌else◌,
  str_eq, any,
}
use aastro.Prelude.Fallible.{◌>>=◌}

-- `PluginConfig` and `MiddlewareConfig`, which have the same fields, less what the module is configured with.
pub record ModuleConfig : Type 0 where
  pub name : String
  pub source : String
  pub path : String

-- `strings.HasSuffix(s, "/")`.
ends_slash : String → Bool
ends_slash empty_text = false
ends_slash (char_then c s) =
    let further = ends_slash s in if str_eq s "" then code c == 47 else further

-- `resolveSoPath`; none is an error.
resolve_so_path : String → ModuleConfig → Option String
resolve_so_path builtin_path cfg =
    let base = if ends_slash cfg.path then cfg.path else text_append cfg.path "/" in
    let file = text_append cfg.name ".so" in
    if str_eq cfg.source "builtin"
    then some (text_append builtin_path file)
    else if str_eq cfg.source "file"
    then some (text_append base file)
    else none

is_loaded : {A : Type 0} → (A → String) → String → List A → Bool
is_loaded name_of name modules = any (λ m. str_eq (name_of m) name) modules

module _ {A : Type 0} (builtin_path : String) (load : String → ModuleConfig → Option A) where
  load_at : ModuleConfig → Option String → Option A
  load_at cfg none = none
  load_at cfg (some so_path) = load so_path cfg

  pub load_module : ModuleConfig → Option A
  load_module cfg = load_at cfg (resolve_so_path builtin_path cfg)

module _ {A : Type 0} (name_of : A → String) (builtin_path : String)
    (load : String → ModuleConfig → Option A) where
  -- `initPlugins` and `initMiddlewares`; a module whose name is loaded already is passed over, and none is an
  -- error.
  pub init_modules : List ModuleConfig → List A → Option (List A)
  init_modules [] modules = some modules
  init_modules (cfg ∷ cfgs) modules =
      let skipped = init_modules cfgs modules in
      let loaded =
        load_module builtin_path load cfg >>= (λ m. init_modules cfgs (modules ++ m ∷ [])) in
      if is_loaded name_of cfg.name modules then skipped else loaded
