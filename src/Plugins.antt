-- ===== src/Plugins.antt =====
-- builtin/plugins: the plugins that rewrite the JSON body of a response. A document is what
-- `json.Unmarshal` gives for an `interface{}`; a text is its bytes, since the plugins slice keys by bytes.
-- A Go map has no order and each key once; its entries are listed here in the order in which a loop meets
-- them.
pub mod Masker
pub mod Gateway
pub mod Rename
pub mod Camelify
pub mod Snakeify
use aastro.Prelude.{
  ℕ, ◌==◌, Bool, true, false, ◌&&◌, List, [], ◌∷◌, Option, none, some, if◌then◌else◌, is_empty, ◌≡◌,
  refl, Bool-cases, inl, inr, ==→eq, ap, ◌∙◌,
}

abbrev pub Bytes : Type 0
Bytes = List ℕ

mutual
  pub data Json : Type 0 where
    null : Json
    boolean : Bool → Json
    number : Bytes → Json
    text : Bytes → Json
    array : Items → Json
    object : Fields → Json

  pub data Items : Type 0 where
    no_items : Items
    item : Json → Items → Items

  pub data Fields : Type 0 where
    no_fields : Fields
    field : Bytes → Json → Fields → Fields

abbrev pub bytes_eq : Bytes → Bytes → Bool
bytes_eq [] [] = true
bytes_eq [] (c ∷ t) = false
bytes_eq (c ∷ s) [] = false
bytes_eq (c ∷ s) (d ∷ t) = c == d && bytes_eq s t

-- A Go `map[string]struct{}`.
abbrev pub has_key : List Bytes → Bytes → Bool
has_key [] k = false
has_key (f ∷ fs) k = if bytes_eq f k then true else has_key fs k

-- The documents that `encoding` reads and writes (github.com/goccy/go-json); none is an error.
pub record JsonCodec : Type 0 where
  pub unmarshal : Bytes → Option Json
  pub marshal : Json → Option Bytes

-- A body: what a reader gives, and whether it then fails instead of ending.
pub record Reader : Type 0 where
  pub bytes : Bytes
  pub fails : Bool

abbrev pub buffered : Bytes → Reader
buffered bytes = record { bytes = bytes; fails = false }

abbrev marshalled : Option Bytes → Option (Option Reader)
marshalled none = none
marshalled (some bytes) = some (some (buffered bytes))

module _ (codec : JsonCodec) (f : Json → Json) where
  -- The body after the plugin has read it all.
  unfoldable pub rewrite_bytes : Bytes → Option (Option Reader)
  rewrite_bytes bytes =
      if is_empty bytes then some (some (buffered [])) else elim (codec.unmarshal bytes) [
        | none ↦ some (some (buffered bytes))
        | some raw ↦ marshalled (codec.marshal (f raw))
      ]

  -- What the plugins' `Execute` have in common: from the body of the response (none is nil) to the
  -- body that it leaves, and none for an error.
  unfoldable pub rewrite_body : Option Reader → Option (Option Reader)
  rewrite_body none = some none
  rewrite_body (some body) = if body.fails then none else rewrite_bytes body.bytes
