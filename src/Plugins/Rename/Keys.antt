-- ===== src/Plugins/Rename/Keys.antt =====
-- What a plugin that renames keys leaves of a document (`transformKeys` in builtin/plugins/camelify/camelify.go
-- and builtin/plugins/snakeify/snakeify.go).
use aastro.Prelude.{
  Bool, true, false, ◌&&◌, [], ◌∷◌, Option, none, some, ◌≡◌, refl, ap, sym, ◌∙◌, arith,
  if◌then◌else◌, Bool-cases, inl, inr,
}
use aastro.Plugins.{
  Bytes, Json, null, boolean, number, text, array, object, Items, no_items, item, Fields, no_fields,
  field, bytes_eq,
}
use aastro.Plugins.Rename.{set_field, transform_keys, transform_items, transform_fields}

-- The value of a key: Go's `m[k]`.
pub find_field : Bytes → Fields → Option Json
find_field k no_fields = none
find_field k (field l x fs) = if bytes_eq l k then some x else find_field k fs

bytes_eq→eq : (s t : Bytes) → bytes_eq s t ≡ true → s ≡ t
bytes_eq→eq [] [] h = refl
bytes_eq→eq [] (c ∷ t) h = cc
bytes_eq→eq (c ∷ s) [] h = cc
bytes_eq→eq (c ∷ s) (d ∷ t) h = ground (arith, bytes_eq→eq s t)

find_field-set_field :
    (k l : Bytes) (v : Json) (fs : Fields)
    → find_field l (set_field k v fs) ≡ (if bytes_eq k l then some v else find_field l fs)
unfolding find_field set_field
find_field-set_field k l v no_fields = refl
find_field-set_field k l v (field m x fs) = elim (Bool-cases (bytes_eq m k)) [
  | inl e ↦ elim (Bool-cases (bytes_eq k l)) [
    | inl f ↦ simp (e, f) refl
    | inr f ↦ simp (e, f, ap (λ t. bytes_eq t l) (bytes_eq→eq m k e)) refl
  ]
  | inr e ↦ elim (Bool-cases (bytes_eq k l)) [
    | inl f ↦
        simp (e, f, find_field-set_field k l v fs, sym (ap (λ t. bytes_eq m t) (bytes_eq→eq k l f)))
          refl
    | inr f ↦ simp (e, f, find_field-set_field k l v fs) refl
  ]
]

-- The last entry whose key is renamed to `k`, or `found` if there is none.
last_renamed : (Bytes → Bytes) → Bytes → Option Json → Fields → Option Json
last_renamed rename k found no_fields = found
last_renamed rename k found (field l x fs) =
    last_renamed rename k (if bytes_eq (rename l) k then some x else found) fs

abbrev pub map_option : (Json → Json) → Option Json → Option Json
map_option f none = none
map_option f (some x) = some (f x)

map_option-if :
    (f : Json → Json) (b : Bool) (x : Json) (o : Option Json)
    → map_option f (if b then some x else o) ≡ (if b then some (f x) else map_option f o)
map_option-if f true x o = refl
map_option-if f false x o = refl

mutual
  -- Whether every key of a document, at whatever depth, passes a test.
  pub all_keys : (Bytes → Bool) → Json → Bool
  all_keys p null = true
  all_keys p (boolean b) = true
  all_keys p (number n) = true
  all_keys p (text t) = true
  all_keys p (array xs) = all_keys_items p xs
  all_keys p (object fs) = all_keys_fields p fs

  all_keys_items : (Bytes → Bool) → Items → Bool
  all_keys_items p no_items = true
  all_keys_items p (item x xs) = all_keys p x && all_keys_items p xs

  all_keys_fields : (Bytes → Bool) → Fields → Bool
  all_keys_fields p no_fields = true
  all_keys_fields p (field k x fs) = p k && (all_keys p x && all_keys_fields p fs)

module _ (p : Bytes → Bool) where
  all_keys-set_field :
      (k : Bytes) (v : Json) (fs : Fields)
      → p k ≡ true
      → all_keys p v ≡ true
      → all_keys_fields p fs ≡ true
      → all_keys_fields p (set_field k v fs) ≡ true
  unfolding all_keys set_field
  all_keys-set_field k v no_fields hk hv h = ground (arith, hk, hv)
  all_keys-set_field k v (field l x fs) hk hv h =
      let rest = all_keys-set_field k v fs hk hv (ground (arith, h)) in
      elim (Bool-cases (bytes_eq l k)) [
        | inl e ↦ rw e (ground (arith, hk, hv, h))
        | inr e ↦ rw e (ground (arith, h, rest))
      ]

module _ (rename : Bytes → Bytes) where
  find_field-transform_onto :
      (k : Bytes) (o : Option Json) (fs m : Fields)
      → find_field k m ≡ map_option (transform_keys rename) o
      → find_field k (transform_fields rename fs m)
        ≡ map_option (transform_keys rename) (last_renamed rename k o fs)
  unfolding transform_keys last_renamed
  find_field-transform_onto k o no_fields m h = h
  find_field-transform_onto k o (field l x fs) m h =
      find_field-transform_onto k (if bytes_eq (rename l) k then some x else o) fs
        (set_field (rename l) (transform_keys rename x) m)
        (find_field-set_field (rename l) k (transform_keys rename x) m
          ∙ rw h (sym (map_option-if (transform_keys rename) (bytes_eq (rename l) k) x o)))

  -- The value of a key `k` in a renamed object: that of the last entry whose key is renamed to `k`, with
  -- its own keys renamed; nothing if no key is renamed to `k`. So of keys that are renamed to one another
  -- the one that comes last in the order of the loop is kept.
  find_field-transform_fields :
      (k : Bytes) (fs : Fields)
      → find_field k (transform_fields rename fs no_fields)
        ≡ map_option (transform_keys rename) (last_renamed rename k none fs)
  unfolding find_field
  find_field-transform_fields k fs = find_field-transform_onto k none fs no_fields refl

  module _ (p : Bytes → Bool) (good : (s : Bytes) → p (rename s) ≡ true) where
    mutual
      unfolding transform_keys all_keys

      pub all_keys-transform_keys : (j : Json) → all_keys p (transform_keys rename j) ≡ true
      all_keys-transform_keys null = refl
      all_keys-transform_keys (boolean b) = refl
      all_keys-transform_keys (number n) = refl
      all_keys-transform_keys (text t) = refl
      all_keys-transform_keys (array xs) = all_keys-transform_items xs
      all_keys-transform_keys (object fs) = all_keys-transform_fields fs no_fields refl

      all_keys-transform_items : (xs : Items) → all_keys_items p (transform_items rename xs) ≡ true
      all_keys-transform_items no_items = refl
      all_keys-transform_items (item x xs) =
          rw (all_keys-transform_keys x) (all_keys-transform_items xs)

      all_keys-transform_fields :
          (fs m : Fields)
          → all_keys_fields p m ≡ true
          → all_keys_fields p (transform_fields rename fs m) ≡ true
      all_keys-transform_fields no_fields m h = h
      all_keys-transform_fields (field k x fs) m h =
          all_keys-transform_fields fs (set_field (rename k) (transform_keys rename x) m) (
            all_keys-set_field p (rename k) (transform_keys rename x) m (good k)
              (all_keys-transform_keys x) h)
