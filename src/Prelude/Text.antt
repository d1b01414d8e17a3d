-- ===== src/Prelude/Text.antt =====
-- Parts of Go's package strings, on ASCII text (builtin/middlewares/cors/cors.go,
-- builtin/middlewares/compressor/compressor.go).
use Prim.Native.Char.{Char, code}
use Prim.Native.String.{[] as empty_text, ◌∷◌ as char_then, ◌++◌ as text_append, slice}
use Prim.Native.Nat.{◌-◌}
use mathlib.Core.Path.{◌≡◌, refl}
use mathlib.Core.Bool.{Bool, true, false, ◌&&◌, ◌||◌}
use Prim.Native.String.{String}
use mathlib.Core.List.{List, [], ◌∷◌}
use aastro.Prelude.Lists.{is_empty}
use aastro.Prelude.Tests.{◌==◌, leb, if◌then◌else◌}

upper_char : Char → String
upper_char c =
    if leb 97 (code c) && leb (code c) 122
    then slice "ABCDEFGHIJKLMNOPQRSTUVWXYZ" (code c - 97) (code c - 96)
    else char_then c ""

unfoldable pub lower_char : Char → String
lower_char c =
    if leb 65 (code c) && leb (code c) 90
    then slice "abcdefghijklmnopqrstuvwxyz" (code c - 65) (code c - 64)
    else char_then c ""

-- `strings.ToUpper`.
pub to_upper : String → String
to_upper empty_text = ""
to_upper (char_then c s) = text_append (upper_char c) (to_upper s)

-- `strings.ToLower`.
unfoldable pub to_lower : String → String
to_lower empty_text = ""
to_lower (char_then c s) = text_append (lower_char c) (to_lower s)

-- `strings.HasPrefix`, the prefix first.
pub starts_with : String → String → Bool
starts_with empty_text t = true
starts_with (char_then c p) empty_text = false
starts_with (char_then c p) (char_then d t) = code c == code d && starts_with p t

-- `strings.Contains`, the part first.
unfoldable pub has_part : String → String → Bool
unfolding starts_with
has_part p empty_text = starts_with p ""
has_part p (char_then c t) = starts_with p (char_then c t) || has_part p t

pub has_part_empty : (t : String) → has_part "" t ≡ true
unfolding has_part
has_part_empty empty_text = refl
has_part_empty (char_then c t) = refl

-- `strings.Join`.
pub join : String → List String → String
join sep [] = ""
join sep (s ∷ ss) =
    let rest = text_append sep (join sep ss) in text_append s (if is_empty ss then "" else rest)
