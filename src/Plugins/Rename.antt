-- ===== src/Plugins/Rename.antt =====
-- builtin/plugins/camelify/camelify.go and builtin/plugins/snakeify/snakeify.go: `transformKeys`, which is
-- the same in both, by the function `rename` that each has for a key.
pub mod Keys
use aastro.Prelude.{Bool, List, Option, if◌then◌else◌}
use aastro.Plugins.{
  Bytes, Json, null, boolean, number, text, array, object, Items, no_items, item, Fields, no_fields,
  field, bytes_eq, JsonCodec, Reader, rewrite_body,
}

-- `newMap[k] = v`.
pub set_field : Bytes → Json → Fields → Fields
set_field k v no_fields = field k v no_fields
set_field k v (field l x fs) =
    let further = field l x (set_field k v fs) in if bytes_eq l k then field k v fs else further

module _ (rename : Bytes → Bytes) where
  unfoldable mutual
    -- `transformKeys`. The entries of an object are put into a new map one after the other, in the order
    -- of the list, which stands for the order in which Go ranges over the map.
    pub transform_keys : Json → Json
    transform_keys null = null
    transform_keys (boolean b) = boolean b
    transform_keys (number n) = number n
    transform_keys (text t) = text t
    transform_keys (array xs) = array (transform_items xs)
    transform_keys (object fs) = object (transform_fields fs no_fields)

    pub transform_items : Items → Items
    transform_items no_items = no_items
    transform_items (item x xs) = item (transform_keys x) (transform_items xs)

    pub transform_fields : Fields → Fields → Fields
    transform_fields no_fields new_map = new_map
    transform_fields (field k child fs) new_map =
        transform_fields fs (set_field (rename k) (transform_keys child) new_map)

  -- `Execute`.
  pub execute : JsonCodec → Option Reader → Option (Option Reader)
  execute codec body = rewrite_body codec transform_keys body
