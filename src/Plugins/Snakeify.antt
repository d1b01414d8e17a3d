-- ===== src/Plugins/Snakeify.antt =====
-- builtin/plugins/snakeify/snakeify.go: the key "userId" becomes "user_id". The two regular
-- expressions are written out as the scan that `ReplaceAllString` makes, from left to right, over matches that
-- do not overlap.
pub mod Case
use aastro.Prelude.{
  ℕ, ◌==◌, leb, ◌+◌, Bool, true, false, not, ◌&&◌, ◌||◌, List, [], ◌∷◌, if◌then◌else◌,
}
use aastro.Plugins.{Bytes, Json}
use aastro.Plugins.Rename.{transform_keys}

abbrev pub is_upper : ℕ → Bool
is_upper c = leb b'A' c && leb c b'Z'

abbrev pub is_lower : ℕ → Bool
is_lower c = leb b'a' c && leb c b'z'

abbrev pub is_lower_or_digit : ℕ → Bool
is_lower_or_digit c = is_lower c || (leb b'0' c && leb c b'9')

-- Whether "[A-Z][a-z]+" matches at the start.
pub starts_word : Bytes → Bool
starts_word [] = false
starts_word (c ∷ []) = false
starts_word (c ∷ d ∷ s) = is_upper c && is_lower d

-- `reUpper.ReplaceAllString(s, "${1}_${2}")` for "(.)([A-Z][a-z]+)". `in_word` is set while the scan is
-- inside a match: its capital letter is copied without a test, then the letters that "+" takes.
-- "." matches no end of line.
pub data Scan : Type 0 where
  outside at_capital in_word : Scan

pub split_words : Scan → Bytes → Bytes
split_words scan [] = []
split_words at_capital (c ∷ s) = c ∷ split_words in_word s
split_words outside (c ∷ s) =
    let opened = c ∷ b'_' ∷ split_words at_capital s in
    let passed = c ∷ split_words outside s in
    if not (c == 10) && starts_word s then opened else passed
split_words in_word (c ∷ s) =
    let inside = c ∷ split_words in_word s in
    let opened = c ∷ b'_' ∷ split_words at_capital s in
    let passed = c ∷ split_words outside s in
    if is_lower c then inside else if not (c == 10) && starts_word s then opened else passed

-- `reUpperSeq.ReplaceAllString(s, "${1}_${2}")` for "([a-z0-9])([A-Z])".
pub starts_upper : Bytes → Bool
starts_upper [] = false
starts_upper (c ∷ s) = is_upper c

pub split_capitals : Bytes → Bytes
split_capitals [] = []
split_capitals (c ∷ s) =
    let split = c ∷ b'_' ∷ split_capitals s in
    let passed = c ∷ split_capitals s in
    if is_lower_or_digit c && starts_upper s then split else passed

-- `strings.ToLower` of ASCII text.
pub to_lower : Bytes → Bytes
to_lower [] = []
to_lower (c ∷ s) = (if is_upper c then c + 32 else c) ∷ to_lower s

pub camel_to_snake : Bytes → Bytes
camel_to_snake s = to_lower (split_capitals (split_words outside s))

-- `transformKeys`.
snakeify : Json → Json
snakeify v = transform_keys camel_to_snake v
