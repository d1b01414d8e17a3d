-- ===== src/Plugins/Masker.antt =====
-- builtin/plugins/masker/masker.go: the values of the configured fields are replaced in a response.
pub mod Secrecy
use aastro.Prelude.{
  Bool, true, false, List, [], ◌∷◌, Option, none, some, if◌then◌else◌, is_empty, ◌++◌,
}
use aastro.Plugins.{
  Bytes, Json, null, boolean, number, text, array, object, Items, no_items, item, Fields, no_fields,
  field, has_key, JsonCodec, Reader, rewrite_body,
}

-- `maskValue`.
abbrev pub mask_value : Json
mask_value = text (b'*' ∷ b'*' ∷ b'*' ∷ [])

-- A value of the configuration's array: a string, or something else.
pub data Setting : Type 0 where
  string_setting : Bytes → Setting
  other_setting : Setting

-- The loop of `Init`.
collect_settings : List Bytes → List Setting → List Bytes
collect_settings fields [] = fields
collect_settings fields (string_setting name ∷ raw) = collect_settings (name ∷ fields) raw
collect_settings fields (other_setting ∷ raw) = collect_settings fields raw

-- `Init`: the set of the fields; none is an error, where "fields" is no array.
pub init : Option (List Setting) → Option (List Bytes)
init none = none
init (some raw) = some (collect_settings [] raw)

module _ (fields : List Bytes) where
  unfoldable mutual
    -- `maskKeys`. A masked value is not looked into.
    pub mask_keys : Json → Json
    mask_keys null = null
    mask_keys (boolean b) = boolean b
    mask_keys (number n) = number n
    mask_keys (text t) = text t
    mask_keys (array xs) = array (mask_items xs)
    mask_keys (object fs) = object (mask_fields fs)

    pub mask_items : Items → Items
    mask_items no_items = no_items
    mask_items (item x xs) = item (mask_keys x) (mask_items xs)

    pub mask_fields : Fields → Fields
    mask_fields no_fields = no_fields
    mask_fields (field k child fs) =
        let kept = mask_keys child in
        field k (if has_key fields k then mask_value else kept) (mask_fields fs)

  -- `Execute`.
  unfoldable pub execute : JsonCodec → Option Reader → Option (Option Reader)
  execute codec none = some none
  execute codec (some body) =
      if is_empty fields then some (some body) else rewrite_body codec mask_keys (some body)
