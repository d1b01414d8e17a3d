-- ===== src/Prelude/Sorting.antt =====
-- `sort.Strings`, on texts and on entries by their keys. The order of the bytes of UTF-8 is that of the
-- characters.
use Prim.Native.Char.{code}
use Prim.Native.String.{String, [] as empty_text, ◌∷◌ as char_then}
use mathlib.Core.Path.{◌≡◌, refl, sym, ap, ◌∙◌, subst}
use mathlib.Core.Logic.{◌⊎◌, inl, inr}
use mathlib.Core.Bool.{Bool, true, false, ◌&&◌, ◌||◌}
use mathlib.Core.List.{List, [], ◌∷◌}
use mathlib.Core.Option.{Option, none, some}
use native.Mathlib.Omega.{arith}
use aastro.Prelude.Tests.{if◌then◌else◌, Bool-cases, ltb, ◌==◌}
use aastro.Prelude.Lists.{All}
use aastro.Prelude.Dict.{str_eq, str_eq_iff}
use text.Mathlib.TextEquality.{Char-path}

-- `<=` on texts.
unfoldable pub text_leb : String → String → Bool
text_leb empty_text t = true
text_leb (char_then c s) empty_text = false
text_leb (char_then c s) (char_then d t) =
    ltb (code c) (code d) || (code c == code d && text_leb s t)

text_leb_refl : (s : String) → text_leb s s ≡ true
unfolding text_leb
text_leb_refl empty_text = refl
text_leb_refl (char_then c s) = ground (arith, text_leb_refl s)

text_leb_total : (s t : String) → text_leb s t ≡ false → text_leb t s ≡ true
unfolding text_leb
text_leb_total empty_text t h = cc
text_leb_total (char_then c s) empty_text h = refl
text_leb_total (char_then c s) (char_then d t) h = ground (arith, h, text_leb_total s t)

text_leb_antisym : (s t : String) → text_leb s t ≡ true → text_leb t s ≡ true → s ≡ t
unfolding text_leb
text_leb_antisym empty_text empty_text h k = refl
text_leb_antisym empty_text (char_then d t) h k = cc
text_leb_antisym (char_then c s) empty_text h k = cc
text_leb_antisym (char_then c s) (char_then d t) h k = cc (
  Char-path c d (ground (arith, h, k)),
  text_leb_antisym s t (ground (arith, h, k)) (ground (arith, h, k)),
)

text_leb_trans : (s t u : String) → text_leb s t ≡ true → text_leb t u ≡ true → text_leb s u ≡ true
unfolding text_leb
text_leb_trans empty_text t u h k = refl
text_leb_trans (char_then c s) empty_text u h k = cc
text_leb_trans (char_then c s) (char_then d t) empty_text h k = cc
text_leb_trans (char_then c s) (char_then d t) (char_then e u) h k =
    ground (arith, h, k, text_leb_trans s t u)

text_leb_of_eq : (s t : String) → str_eq s t ≡ true → text_leb s t ≡ true
text_leb_of_eq s t h = subst (λ u. text_leb s u ≡ true) ((str_eq_iff s t).0 h) (text_leb_refl s)

insert_text : String → List String → List String
insert_text s [] = s ∷ []
insert_text s (t ∷ ts) =
    let further = t ∷ insert_text s ts in if text_leb s t then s ∷ (t ∷ ts) else further

pub sort_texts : List String → List String
sort_texts [] = []
sort_texts (s ∷ ss) = insert_text s (sort_texts ss)

insert_text_swap :
    (s t : String) (ts : List String)
    → insert_text s (insert_text t ts) ≡ insert_text t (insert_text s ts)
unfolding insert_text
insert_text_swap s t [] = ground (arith, text_leb_total s t, text_leb_antisym s t)
insert_text_swap s t (u ∷ us) = ground (
  arith,
  text_leb_total s t,
  text_leb_antisym s t,
  text_leb_trans s t u,
  text_leb_trans t s u,
  insert_text_swap s t us,
)

-- The same list in another order.
pub data Shuffled {ℓ} {A : Type ℓ} : List A → List A → Type ℓ where
  none_left : Shuffled [] []
  behind : {x : A} {xs ys : List A} → Shuffled xs ys → Shuffled (x ∷ xs) (x ∷ ys)
  exchanged : {x y : A} {xs : List A} → Shuffled (x ∷ y ∷ xs) (y ∷ x ∷ xs)
  followed : {xs ys zs : List A} → Shuffled xs ys → Shuffled ys zs → Shuffled xs zs

pub same {ℓ} : {A : Type ℓ} (xs : List A) → Shuffled xs xs
same [] = none_left
same (x ∷ xs) = behind (same xs)

pub sort_texts-Shuffled : {xs ys : List String} → Shuffled xs ys → sort_texts xs ≡ sort_texts ys
unfolding sort_texts
sort_texts-Shuffled none_left = refl
sort_texts-Shuffled (behind {x} h) = ap (insert_text x) (sort_texts-Shuffled h)
sort_texts-Shuffled (exchanged {x} {y} {xs}) = insert_text_swap x y (sort_texts xs)
sort_texts-Shuffled (followed h k) = sort_texts-Shuffled h ∙ sort_texts-Shuffled k

module _ {ℓ} {V : Type ℓ} where
  unfoldable pub insert_entry : String → V → List (String × V) → List (String × V)
  insert_entry k v [] = (k, v) ∷ []
  insert_entry k v ((l, w) ∷ rest) =
      let further = (l, w) ∷ insert_entry k v rest in
      if text_leb k l then (k, v) ∷ ((l, w) ∷ rest) else further

  unfoldable pub sort_entries : List (String × V) → List (String × V)
  sort_entries [] = []
  sort_entries ((k, v) ∷ es) = insert_entry k v (sort_entries es)

  module _ {κ} (P : String × V → Type κ) where
    All-insert_entry :
        (k : String) (v : V) (es : List (String × V))
        → P (k, v)
        → All P es
        → All P (insert_entry k v es)
    unfolding insert_entry
    All-insert_entry k v [] h hs = (h, tt)
    All-insert_entry k v ((l, w) ∷ rest) h hs = elim (Bool-cases (text_leb k l)) [
      | inl e ↦ rw e (h, hs)
      | inr e ↦ rw e (hs.0, All-insert_entry k v rest h hs.1)
    ]

    pub All-sort_entries : (es : List (String × V)) → All P es → All P (sort_entries es)
    unfolding sort_entries
    All-sort_entries [] h = tt
    All-sort_entries ((k, v) ∷ es) h =
        All-insert_entry k v (sort_entries es) h.0 (All-sort_entries es h.1)

-- The first of two options that is not none.
module _ {ℓ} {W : Type ℓ} where
  abbrev pub or_else : Option W → Option W → Option W
  or_else none o = o
  or_else (some w) o = some w

  or_else_swap :
      (a b c : Option W)
      → (a ≡ none) ⊎ (b ≡ none)
      → or_else a (or_else b c) ≡ or_else b (or_else a c)
  or_else_swap none b c h = refl
  or_else_swap (some w) none c h = refl
  or_else_swap (some w) (some u) c (inl h) = cc
  or_else_swap (some w) (some u) c (inr h) = cc

  pub or_else-none : (o : Option W) → or_else o none ≡ o
  or_else-none none = refl
  or_else-none (some w) = refl

  pub or_else_assoc : (a b c : Option W) → or_else (or_else a b) c ≡ or_else a (or_else b c)
  or_else_assoc none b c = refl
  or_else_assoc (some w) b c = refl

-- The first of the entries with a key that has what is looked for.
module _ {ℓ κ} {V : Type ℓ} {W : Type κ} (found : V → Option W) (key : String) where
  abbrev found_at : String → V → Option W
  found_at k v = if str_eq k key then found v else none

  unfoldable pub find : List (String × V) → Option W
  find [] = none
  find ((k, v) ∷ rest) = or_else (found_at k v) (find rest)

  found_at-other :
      (k l : String) (v w : V)
      → text_leb k l ≡ false
      → (found_at l w ≡ none) ⊎ (found_at k v ≡ none)
  found_at-other k l v w h = elim (Bool-cases (str_eq l key)) [
    | inl e ↦ elim (Bool-cases (str_eq k key)) [
      | inl e' ↦
          let same = (str_eq_iff k key).0 e' ∙ sym ((str_eq_iff l key).0 e) in
          cc (h, text_leb_of_eq k l ((str_eq_iff k l).1 same))
      | inr e' ↦ inr (rw e' refl)
    ]
    | inr e ↦ inl (rw e refl)
  ]

  find-insert_entry :
      (k : String) (v : V) (es : List (String × V))
      → find (insert_entry k v es) ≡ or_else (found_at k v) (find es)
  unfolding find insert_entry
  find-insert_entry k v [] = refl
  find-insert_entry k v ((l, w) ∷ rest) = elim (Bool-cases (text_leb k l)) [
    | inl e ↦ rw e refl
    | inr e ↦ rw e (
        ap (or_else (found_at l w)) (find-insert_entry k v rest)
        ∙ or_else_swap (found_at l w) (found_at k v) (find rest) (found_at-other k l v w e))
  ]

  pub find-sort_entries : (es : List (String × V)) → find (sort_entries es) ≡ find es
  unfolding find sort_entries
  find-sort_entries [] = refl
  find-sort_entries ((k, v) ∷ es) =
      find-insert_entry k v (sort_entries es) ∙ ap (or_else (found_at k v)) (find-sort_entries es)
