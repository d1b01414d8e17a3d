-- ===== src/Header.antt =====
-- Go's `http.Header`: values by canonical key, of which the gateway uses `Get`, `Set`, `Add`,
-- `Del` and `Clone`. Keys are written here in the canonical form that `net/http` stores ("X-Request-Id").
-- A nil header reads like an empty one and is the empty dictionary; dictionaries are values, so
-- `Clone` is the identity.
use aastro.Prelude.{
  String, List, [], ◌∷◌, ◌++◌, Option, none, some, lookup, insert, if◌then◌else◌, str_eq,
}

abbrev pub Header : Type 0
Header = List (String × List String)

abbrev pub values_or_nil : Option (List String) → List String
values_or_nil none = []
values_or_nil (some vs) = vs

abbrev pub first : List String → String
first [] = ""
first (v ∷ vs) = v

-- All values under a key; nil if it is missing.
abbrev pub values : String → Header → List String
values k h = values_or_nil (lookup k h)

abbrev pub get : String → Header → String
get k h = first (values k h)

abbrev pub set_header : String → String → Header → Header
set_header k v h = insert k (v ∷ []) h

abbrev pub add_header : String → String → Header → Header
add_header k v h = insert k (values k h ++ v ∷ []) h

unfoldable pub delete_header : String → Header → Header
delete_header k [] = []
delete_header k ((at, vs) ∷ h) =
    let rest = delete_header k h in if str_eq at k then rest else (at, vs) ∷ rest
