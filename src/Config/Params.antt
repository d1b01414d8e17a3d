-- ===== src/Config/Params.antt =====
-- config.go: `extractPathParams`, the names between braces in a path.
pub mod Template
use Prim.Native.Char.{Char, code}
use Prim.Native.String.{[] as empty_text, ◌∷◌ as char_then, ◌++◌ as text_append}
use aastro.Prelude.{
  ℕ, ◌==◌, Bool, true, false, List, [], ◌∷◌, Option, none, some, String, if◌then◌else◌, str_eq,
}

-- All matches of the expression "\{([^}]+)\}" by what they capture. `reading` is the text behind an open
-- brace, none outside one. A brace that is not closed matches nothing, and neither does "{}".
unfoldable pub find_params : Option String → String → List String
find_params reading empty_text = []
find_params none (char_then c s) =
    let opened = find_params (some "") s in
    let passed = find_params none s in if code c == 123 then opened else passed
find_params (some name) (char_then c s) =
    let longer = find_params (some (text_append name (char_then c ""))) s in
    let closed = find_params none s in
    if code c == 125 then (if str_eq name "" then closed else name ∷ closed) else longer

-- The set is a list.
unfoldable pub extract_path_params : String → List String
extract_path_params path = find_params none path
