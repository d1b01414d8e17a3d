-- ===== src/Plugins/Camelify/Case.antt =====
-- The keys that `snakeToCamel` gives (builtin/plugins/camelify/camelify.go).
use aastro.Prelude.{
  ℕ, ◌==◌, leb, ◌-◌, ◌≤◌, Bool, true, false, not, ◌&&◌, ◌||◌, List, [], ◌∷◌, ◌++◌, ◌≡◌, refl, ap,
  arith, Bool-cases, inl, inr, all, le→leb,
}
use mathlib.Core.List.{append-nil}
use aastro.Plugins.{Bytes, Json}
use aastro.Plugins.Rename.Keys.{all_keys, all_keys-transform_keys}
use aastro.Plugins.Camelify.{
  split_after, to_upper_byte, capitalized, join_capitalized, snake_to_camel, camelify,
}

abbrev pub is_lower : ℕ → Bool
is_lower c = leb b'a' c && leb c b'z'

abbrev has_underscore : Bytes → Bool
has_underscore [] = false
has_underscore (c ∷ s) = c == b'_' || has_underscore s

-- A word of two lower-case letters or more.
abbrev pub is_word : Bytes → Bool
is_word [] = false
is_word (c ∷ []) = false
is_word (c ∷ d ∷ t) = is_lower c && (is_lower d && all is_lower t)

-- The words of a key with "_" between them.
unfoldable pub joined_rest : List Bytes → Bytes
joined_rest [] = []
joined_rest (v ∷ vs) = b'_' ∷ (v ++ joined_rest vs)

abbrev pub joined : Bytes → List Bytes → Bytes
joined w vs = w ++ joined_rest vs

-- Splitting.
split_after_plain :
    (w s : Bytes)
    → has_underscore w ≡ false
    → split_after (w ++ s) ≡ (w ++ (split_after s).0, (split_after s).1)
unfolding split_after
split_after_plain [] s h = refl
split_after_plain (c ∷ w) s h = elim (Bool-cases (c == b'_')) [
  | inl e ↦ absurd (ground (arith, e, h))
  | inr e ↦ simp (e, split_after_plain w s (ground (arith, e, h))) refl
]

lower-has_underscore : (w : Bytes) → all is_lower w ≡ true → has_underscore w ≡ false
lower-has_underscore [] h = refl
lower-has_underscore (c ∷ w) h = ground (arith, lower-has_underscore w)

pub is_word-lower : (w : Bytes) → is_word w ≡ true → all is_lower w ≡ true
is_word-lower [] h = cc
is_word-lower (c ∷ []) h = cc
is_word-lower (c ∷ d ∷ t) h = h

is_word-has_underscore : (w : Bytes) → is_word w ≡ true → has_underscore w ≡ false
is_word-has_underscore w h = lower-has_underscore w (is_word-lower w h)

split_after_alone : (w : Bytes) → has_underscore w ≡ false → split_after w ≡ (w, [])
unfolding split_after
split_after_alone [] h = refl
split_after_alone (c ∷ w) h = elim (Bool-cases (c == b'_')) [
  | inl e ↦ absurd (ground (arith, e, h))
  | inr e ↦ simp (e, split_after_alone w (ground (arith, e, h))) refl
]

split_after-joined :
    (w : Bytes) (vs : List Bytes)
    → is_word w ≡ true
    → all is_word vs ≡ true
    → split_after (joined w vs) ≡ (w, vs)
unfolding joined_rest split_after
split_after-joined w [] h hs =
    simp (append-nil w, split_after_alone w (is_word-has_underscore w h)) refl
split_after-joined w (v ∷ vs) h hs =
    simp
      (
        split_after_plain w (b'_' ∷ joined v vs) (is_word-has_underscore w h),
        split_after-joined v vs (ground (arith, hs)) (ground (arith, hs)),
        append-nil w,
      )
      refl

-- A key of several words, in camel case.
pub snake_to_camel-joined :
    (w : Bytes) (vs : List Bytes)
    → is_word w ≡ true
    → all is_word vs ≡ true
    → snake_to_camel (joined w vs) ≡ w ++ join_capitalized vs
unfolding snake_to_camel
snake_to_camel-joined w vs h hs = rw (split_after-joined w vs h hs) refl

-- What a word of another key looks like in camel case.
pub join_capitalized-word :
    (c d : ℕ) (t : Bytes) (vs : List Bytes)
    → is_lower c ≡ true
    → join_capitalized ((c ∷ d ∷ t) ∷ vs) ≡ (c - 32) ∷ d ∷ (t ++ join_capitalized vs)
unfolding join_capitalized capitalized to_upper_byte
join_capitalized-word c d t vs h = ground (arith, h)

pub join_capitalized-none : join_capitalized [] ≡ []
unfolding join_capitalized
join_capitalized-none = refl

has_underscore-append :
    (s t : Bytes) → has_underscore (s ++ t) ≡ (has_underscore s || has_underscore t)
has_underscore-append [] t = refl
has_underscore-append (c ∷ s) t = ground (arith, has_underscore-append s t)

to_upper_byte-has_underscore :
    (c : ℕ) → (c == b'_') ≡ false → has_underscore (to_upper_byte c) ≡ false
unfolding to_upper_byte
to_upper_byte-has_underscore c h = ground arith

capitalized-has_underscore :
    (s : Bytes) → has_underscore s ≡ false → has_underscore (capitalized s) ≡ false
unfolding capitalized
capitalized-has_underscore [] h = refl
capitalized-has_underscore (c ∷ s) h =
    simp
      (
        has_underscore-append (to_upper_byte c) s,
        to_upper_byte-has_underscore c (ground (arith, h)),
      )
      (ground (arith, h))

split_after-has_underscore :
    (s : Bytes)
    → (has_underscore (split_after s).0 ≡ false)
      × (has_underscore (join_capitalized (split_after s).1) ≡ false)
unfolding split_after join_capitalized
split_after-has_underscore [] = (refl, refl)
split_after-has_underscore (c ∷ s) =
    let (first, others) = split_after-has_underscore s in
    elim (Bool-cases (c == b'_')) [
      | inl e ↦
          simp
            (
              e,
              has_underscore-append (capitalized (split_after s).0)
                  (join_capitalized (split_after s).1),
              capitalized-has_underscore (split_after s).0 first,
              others,
            )
            (refl, refl)
      | inr e ↦ simp (e, first, others) (refl, refl)
    ]

-- No key in camel case has an underscore, whatever the key was; and a key without one is kept.
snake_to_camel_lem :
    (s : Bytes)
    → (has_underscore (snake_to_camel s) ≡ false)
      × (has_underscore s ≡ false → snake_to_camel s ≡ s)
unfolding snake_to_camel join_capitalized
snake_to_camel_lem s =
    let (first, others) = split_after-has_underscore s in
    (
      simp
          (
            has_underscore-append (split_after s).0 (join_capitalized (split_after s).1),
            first,
            others,
          )
          refl,
      λ h. rw (split_after_alone s h) (append-nil s),
    )

-- After an underscore, a letter beyond ASCII, whose first byte is `c`, loses that byte: the text U+FFFD
-- stands in its place.
pub snake_to_camel_corrupts :
    (s t : Bytes) (c : ℕ)
    → has_underscore s ≡ false
    → has_underscore t ≡ false
    → 128 ≤ c
    → snake_to_camel (s ++ b'_' ∷ c ∷ t) ≡ s ++ (239 ∷ 191 ∷ 189 ∷ t)
unfolding snake_to_camel split_after join_capitalized capitalized to_upper_byte
snake_to_camel_corrupts s t c hs ht high =
    let not_underscore : (c == b'_') ≡ false = ground arith in
    simp
      (
        split_after_plain s (b'_' ∷ c ∷ t) hs,
        not_underscore,
        split_after_alone t ht,
        le→leb 128 c high,
        append-nil s,
        append-nil t,
      )
      refl

-- No key of the document that "camelify" gives has an underscore, at whatever depth.
all_keys-camelify : (j : Json) → all_keys (λ k. not (has_underscore k)) (camelify j) ≡ true
unfolding camelify
all_keys-camelify j =
    all_keys-transform_keys snake_to_camel (λ k. not (has_underscore k))
      (λ s. ap not (snake_to_camel_lem s).0) j
