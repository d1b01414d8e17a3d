-- ===== src/Plugins/Camelify.antt =====
-- builtin/plugins/camelify/camelify.go: the key "user_id" becomes "userId".
pub mod Case
use aastro.Prelude.{ℕ, ◌==◌, leb, ◌-◌, Bool, ◌&&◌, List, [], ◌∷◌, ◌++◌, if◌then◌else◌}
use aastro.Plugins.{Bytes, Json}
use aastro.Plugins.Rename.{transform_keys}

-- `strings.Split(s, "_")`: the first part, and the others.
pub split_after : Bytes → Bytes × List Bytes
split_after [] = ([], [])
split_after (c ∷ s) =
    let (part, parts) = split_after s in if c == b'_' then ([], part ∷ parts) else (c ∷ part, parts)

-- `strings.ToUpper` of one byte: a byte above 127 is no UTF-8 text by itself, for which
-- Go writes U+FFFD.
pub to_upper_byte : ℕ → Bytes
to_upper_byte c =
    if leb 128 c
    then 239 ∷ 191 ∷ 189 ∷ []
    else if leb b'a' c && leb c b'z'
    then (c - 32) ∷ []
    else c ∷ []

pub capitalized : Bytes → Bytes
capitalized [] = []
capitalized (c ∷ part) = to_upper_byte c ++ part

-- The loop over the parts after the first, and `strings.Join(parts, "")`.
pub join_capitalized : List Bytes → Bytes
join_capitalized [] = []
join_capitalized (part ∷ parts) = capitalized part ++ join_capitalized parts

pub snake_to_camel : Bytes → Bytes
snake_to_camel s = let (part, parts) = split_after s in part ++ join_capitalized parts

-- `transformKeys`.
pub camelify : Json → Json
camelify v = transform_keys snake_to_camel v
