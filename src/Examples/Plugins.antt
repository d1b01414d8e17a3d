-- ===== src/Examples/Plugins.antt =====
-- The plugins of builtin/plugins on small documents.
use aastro.Prelude.{zero, suc, ◌≡◌, refl, List, [], ◌∷◌, ◌++◌, Option, none, some}
use aastro.Aggregator.Merge.Examples.{codec as sums}
use aastro.Router.Handler.{Context}
use aastro.Examples.Gateway.{request}
use aastro.Plugins.{
  Bytes, Json, null, number, array, object, no_items, item, no_fields, field, JsonCodec,
}
use aastro.Plugins.Masker.{mask_keys, mask_value}
use aastro.Plugins.Masker.Secrecy.{
  key, index, follow, mask_keys_lem, map_option, is_visible, is_masked,
}
use aastro.Plugins.Camelify.{snake_to_camel}
use aastro.Plugins.Camelify.Case.{joined}
use aastro.Plugins.Snakeify.{camel_to_snake}
use aastro.Plugins.Snakeify.Case.{camel_to_snake-snake_to_camel}

abbrev password : Bytes
password = b'p' ∷ b'w' ∷ []

abbrev user : Bytes
user = b'u' ∷ []

-- {"u": [{"pw": _}]}
abbrev account : Json → Json
account secret =
    object (field user (array (item (object (field password secret no_fields)) no_items)) no_fields)

-- A codec for two documents: the first byte tells which.
abbrev decode : Bytes → Option Json
decode [] = none
decode (zero ∷ s) = some (account (number (7 ∷ [])))
decode (suc n ∷ s) = some (account null)

abbrev codec : JsonCodec
codec = record { unmarshal = decode; marshal = λ j. some (9 ∷ []) }

abbrev context : Context
context = record { request = request; response = none }

mask_keys_lem_example :
    (follow (key user ∷ index 0 ∷ []) (mask_keys (password ∷ []) (account null))
      ≡ map_option (mask_keys (password ∷ [])) (follow (key user ∷ index 0 ∷ []) (account null)))
    × (follow
          ((key user ∷ index 0 ∷ []) ++ key password ∷ [])
          (mask_keys (password ∷ []) (account null))
        ≡ map_option
            (λ x. mask_value)
            (follow ((key user ∷ index 0 ∷ []) ++ key password ∷ []) (account null)))
unfolding is_visible is_masked
mask_keys_lem_example =
    mask_keys_lem (password ∷ []) (key user ∷ index 0 ∷ []) (key password) (account null) refl refl

abbrev first_name : Bytes
first_name = b'f' ∷ b'i' ∷ b'r' ∷ b's' ∷ b't' ∷ []

abbrev others : List Bytes
others = (b'n' ∷ b'a' ∷ b'm' ∷ b'e' ∷ []) ∷ (b'i' ∷ b'd' ∷ []) ∷ []

camel_to_snake-snake_to_camel_example :
    camel_to_snake (snake_to_camel (joined first_name others)) ≡ joined first_name others
camel_to_snake-snake_to_camel_example = camel_to_snake-snake_to_camel first_name others refl refl
