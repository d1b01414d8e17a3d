-- ===== src/Plugins/Masker/Secrecy.antt =====
-- What the plugin "masker" keeps from the client (builtin/plugins/masker/masker.go).
use aastro.Prelude.{
  ℕ, zero, suc, Bool, true, false, not, ◌&&◌, List, [], ◌∷◌, Option, none, some, ◌≡◌, refl, ap,
  arith, if◌then◌else◌, is_empty, Bool-cases, Option-cases, ◌++◌, inl, inr,
}
use aastro.Plugins.{
  marshalled, Bytes, Json, null, boolean, number, text, array, object, Items, no_items, item,
  Fields, no_fields, field, has_key, bytes_eq, JsonCodec, rewrite_body, rewrite_bytes, buffered,
}
use aastro.Plugins.Masker.{mask_keys, mask_items, mask_fields, execute, mask_value}

-- Documents that are the same but for what stands under a masked field, at whatever depth.
mutual
  pub data Alike (fields : List Bytes) : Json → Json → Type 0 where
    same : {j : Json} → Alike fields j j
    arrays : {xs ys : Items} → AlikeItems fields xs ys → Alike fields (array xs) (array ys)
    objects : {fs gs : Fields} → AlikeFields fields fs gs → Alike fields (object fs) (object gs)

  pub data AlikeItems (fields : List Bytes) : Items → Items → Type 0 where
    both_end : AlikeItems fields no_items no_items
    both :
        {x y : Json} {xs ys : Items}
        → Alike fields x y
        → AlikeItems fields xs ys
        → AlikeItems fields (item x xs) (item y ys)

  pub data AlikeFields (fields : List Bytes) : Fields → Fields → Type 0 where
    both_close : AlikeFields fields no_fields no_fields
    both_have :
        {k : Bytes} {x y : Json} {fs gs : Fields}
        → Alike fields x y
        → AlikeFields fields fs gs
        → AlikeFields fields (field k x fs) (field k y gs)
    under_mask :
        {k : Bytes} {x y : Json} {fs gs : Fields}
        → has_key fields k ≡ true
        → AlikeFields fields fs gs
        → AlikeFields fields (field k x fs) (field k y gs)

module _ (fields : List Bytes) where
  mutual
    unfolding mask_keys

    pub mask-Alike : {j k : Json} → Alike fields j k → mask_keys fields j ≡ mask_keys fields k
    mask-Alike same = refl
    mask-Alike (arrays h) = ap array (mask-AlikeItems h)
    mask-Alike (objects h) = ap object (mask-AlikeFields h)

    mask-AlikeItems :
        {xs ys : Items} → AlikeItems fields xs ys → mask_items fields xs ≡ mask_items fields ys
    mask-AlikeItems both_end = refl
    mask-AlikeItems (both h hs) = cc (mask-Alike h, mask-AlikeItems hs)

    mask-AlikeFields :
        {fs gs : Fields} → AlikeFields fields fs gs → mask_fields fields fs ≡ mask_fields fields gs
    mask-AlikeFields both_close = refl
    mask-AlikeFields (both_have h hs) = cc (mask-Alike h, mask-AlikeFields hs)
    mask-AlikeFields (under_mask e hs) = simp (e, mask-AlikeFields hs)

-- Where a value stands in a document.
pub data Step : Type 0 where
  key : Bytes → Step
  index : ℕ → Step

nth_item : ℕ → Items → Option Json
nth_item n no_items = none
nth_item zero (item x xs) = some x
nth_item (suc n) (item x xs) = nth_item n xs

pub find_field : Bytes → Fields → Option Json
find_field k no_fields = none
find_field k (field l x fs) = if bytes_eq l k then some x else find_field k fs

step_into : Step → Json → Option Json
step_into (key k) (object fs) = find_field k fs
step_into (index n) (array xs) = nth_item n xs
step_into _ _ = none

abbrev and_then : Option Json → (Json → Option Json) → Option Json
and_then none f = none
and_then (some x) f = f x

pub follow : List Step → Json → Option Json
follow [] j = some j
follow (s ∷ path) j = and_then (step_into s j) (λ x. follow path x)

unfoldable pub is_masked : List Bytes → Step → Bool
is_masked fields (key k) = has_key fields k
is_masked fields (index n) = false

-- Whether a path leads past no masked field.
unfoldable pub is_visible : List Bytes → List Step → Bool
is_visible fields [] = true
is_visible fields (s ∷ path) = not (is_masked fields s) && is_visible fields path

abbrev pub map_option : (Json → Json) → Option Json → Option Json
map_option f none = none
map_option f (some x) = some (f x)

bytes_eq→eq : (s t : Bytes) → bytes_eq s t ≡ true → s ≡ t
bytes_eq→eq [] [] h = refl
bytes_eq→eq [] (c ∷ t) h = cc
bytes_eq→eq (c ∷ s) [] h = cc
bytes_eq→eq (c ∷ s) (d ∷ t) h = ground (arith, bytes_eq→eq s t)

module _ (fields : List Bytes) where
  shown : Step → Json → Json
  shown s x = if is_masked fields s then mask_value else mask_keys fields x

  nth_item-mask :
      (n : ℕ) (xs : Items)
      → nth_item n (mask_items fields xs) ≡ map_option (mask_keys fields) (nth_item n xs)
  unfolding mask_keys nth_item
  nth_item-mask n no_items = refl
  nth_item-mask zero (item x xs) = refl
  nth_item-mask (suc n) (item x xs) = nth_item-mask n xs

  find_field-mask :
      (k : Bytes) (fs : Fields)
      → find_field k (mask_fields fields fs) ≡ map_option (shown (key k)) (find_field k fs)
  unfolding mask_keys find_field shown is_masked
  find_field-mask k no_fields = refl
  find_field-mask k (field l x fs) = elim (Bool-cases (bytes_eq l k)) [
    | inl e ↦ simp (e, ap (λ t. has_key fields t) (bytes_eq→eq l k e)) refl
    | inr e ↦ simp (e, find_field-mask k fs) refl
  ]

  step_into-mask :
      (s : Step) (j : Json)
      → step_into s (mask_keys fields j) ≡ map_option (shown s) (step_into s j)
  unfolding mask_keys step_into shown is_masked
  step_into-mask (key k) (object fs) = find_field-mask k fs
  step_into-mask (index n) (array xs) = nth_item-mask n xs
  step_into-mask (key k) null = refl
  step_into-mask (key k) (boolean b) = refl
  step_into-mask (key k) (number b) = refl
  step_into-mask (key k) (text b) = refl
  step_into-mask (key k) (array xs) = refl
  step_into-mask (index n) null = refl
  step_into-mask (index n) (boolean b) = refl
  step_into-mask (index n) (number b) = refl
  step_into-mask (index n) (text b) = refl
  step_into-mask (index n) (object fs) = refl

  follow-visible :
      (path : List Step) (j : Json)
      → is_visible fields path ≡ true
      → follow path (mask_keys fields j) ≡ map_option (mask_keys fields) (follow path j)
  unfolding follow is_visible shown
  follow-visible [] j h = refl
  follow-visible (s ∷ path) j h = elim (Bool-cases (is_masked fields s)) [
    | inl e ↦ absurd (ground (arith, e, h))
    | inr e ↦ elim (Option-cases (step_into s j)) [
      | inl none_there ↦ simp (step_into-mask, none_there) refl
      | inr (x, there) ↦
          simp (step_into-mask, there, e, follow-visible path x (ground (arith, e, h))) refl
    ]
  ]

  follow-hidden :
      (path : List Step) (s : Step) (j : Json)
      → is_visible fields path ≡ true
      → is_masked fields s ≡ true
      → follow (path ++ s ∷ []) (mask_keys fields j)
        ≡ map_option (λ x. mask_value) (follow (path ++ s ∷ []) j)
  unfolding follow is_visible shown
  follow-hidden [] s j h m = elim (Option-cases (step_into s j)) [
    | inl none_there ↦ simp (step_into-mask, none_there) refl
    | inr (x, there) ↦ simp (step_into-mask, there, m) refl
  ]
  follow-hidden (t ∷ path) s j h m = elim (Bool-cases (is_masked fields t)) [
    | inl e ↦ absurd (ground (arith, e, h))
    | inr e ↦ elim (Option-cases (step_into t j)) [
      | inl none_there ↦ simp (step_into-mask, none_there) refl
      | inr (x, there) ↦
          simp (step_into-mask, there, e, follow-hidden path s x (ground (arith, e, h)) m) refl
    ]
  ]

  -- What stands in the masked document on a path past no masked field: what stood there, masked (a number,
  -- text, Boolean or null is kept as it is); and under a masked field there, "***", exactly
  -- if the document has a value there.
  pub mask_keys_lem :
      (path : List Step) (s : Step) (j : Json)
      → is_visible fields path ≡ true
      → is_masked fields s ≡ true
      → (follow path (mask_keys fields j) ≡ map_option (mask_keys fields) (follow path j))
        × (follow (path ++ s ∷ []) (mask_keys fields j)
            ≡ map_option (λ x. mask_value) (follow (path ++ s ∷ []) j))
  mask_keys_lem path s j h m = (follow-visible path j h, follow-hidden path s j h m)

  -- With a field to mask, a readable document leaves the plugin as its masked document, written out.
  pub execute-marshals :
      (codec : JsonCodec) (s : Bytes) (j : Json)
      → is_empty fields ≡ false
      → is_empty s ≡ false
      → codec.unmarshal s ≡ some j
      → execute fields codec (some (buffered s)) ≡ marshalled (codec.marshal (mask_keys fields j))
  unfolding execute rewrite_body rewrite_bytes
  execute-marshals codec s j some_field full hs = simp (some_field, full, hs) refl
