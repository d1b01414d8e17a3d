-- ===== src/Plugins/Snakeify/Case.antt =====
-- Keys that go from snake case to camel case and back (builtin/plugins/camelify/camelify.go,
-- builtin/plugins/snakeify/snakeify.go).
use aastro.Prelude.{
  ℕ, ◌==◌, ◌+◌, ◌-◌, Bool, true, false, not, List, [], ◌∷◌, ◌++◌, ◌≡◌, refl, ap, ◌∙◌, arith, all,
}
use aastro.Plugins.{Bytes}
use aastro.Plugins.Camelify.{snake_to_camel, join_capitalized}
use aastro.Plugins.Camelify.Case.{
  is_lower, is_word, is_word-lower, joined, joined_rest, join_capitalized-none,
  snake_to_camel-joined, join_capitalized-word,
}
use aastro.Plugins.Snakeify.{
  is_upper, is_lower_or_digit, starts_word, starts_upper, Scan, outside, in_word, split_words,
  split_capitals, to_lower, camel_to_snake,
}

lower_not_upper : (c : ℕ) → is_lower c ≡ true → is_upper c ≡ false
lower_not_upper c h = ground (arith, h)

-- The second expression and the lower casing, one byte at a time.
lowered : Bytes → Bytes
lowered s = to_lower (split_capitals s)

lowered-lower :
    (c : ℕ) (s : Bytes)
    → is_lower c ≡ true
    → starts_upper s ≡ false
    → lowered (c ∷ s) ≡ c ∷ lowered s
unfolding lowered split_capitals to_lower
lowered-lower c s h after = simp (h, after, lower_not_upper c h) refl

lowered-boundary :
    (c : ℕ) (s : Bytes)
    → is_lower c ≡ true
    → starts_upper s ≡ true
    → lowered (c ∷ s) ≡ c ∷ b'_' ∷ lowered s
unfolding lowered split_capitals to_lower
lowered-boundary c s h after = simp (h, after, lower_not_upper c h) refl

lowered-underscore : (s : Bytes) → lowered (b'_' ∷ s) ≡ b'_' ∷ lowered s
unfolding lowered split_capitals to_lower
lowered-underscore s = refl

lowered-capital : (c : ℕ) (s : Bytes) → is_lower c ≡ true → lowered ((c - 32) ∷ s) ≡ c ∷ lowered s
unfolding lowered split_capitals to_lower
lowered-capital c s h =
    let upper : is_upper (c - 32) ≡ true = ground (arith, h) in
    let plain : is_lower_or_digit (c - 32) ≡ false = ground (arith, h) in
    let back : (c - 32) + 32 ≡ c = ground (arith, h) in simp (upper, plain, back) refl

-- The first expression, where it is not in the midst of the step from one word to the next.
abbrev scan_of : Bool → Scan
scan_of true = outside
scan_of false = in_word

starts_upper-split_words :
    (o : Bool) (c : ℕ) (s : Bytes) → starts_upper (split_words (scan_of o) (c ∷ s)) ≡ is_upper c
unfolding split_words starts_upper
starts_upper-split_words true c s = ground arith
starts_upper-split_words false c s = ground arith

starts_word-lower : (c : ℕ) (s : Bytes) → is_lower c ≡ true → starts_word (c ∷ s) ≡ false
unfolding starts_word
starts_word-lower c [] h = refl
starts_word-lower c (d ∷ s) h = simp (lower_not_upper c h) refl

split_words-lower :
    (o : Bool) (c d : ℕ) (s : Bytes)
    → is_lower c ≡ true
    → is_lower d ≡ true
    → split_words (scan_of o) (c ∷ d ∷ s) ≡ c ∷ split_words (scan_of o) (d ∷ s)
unfolding split_words
split_words-lower true c d s hc hd = rw (starts_word-lower d s hd) (ground arith)
split_words-lower false c d s hc hd = rw hc refl

-- `camelToSnake` from a state of the scan on.
scanned : Bool → Bytes → Bytes
scanned o s = lowered (split_words (scan_of o) s)

scanned-lower :
    (o : Bool) (c d : ℕ) (s : Bytes)
    → is_lower c ≡ true
    → is_lower d ≡ true
    → scanned o (c ∷ d ∷ s) ≡ c ∷ scanned o (d ∷ s)
unfolding scanned
scanned-lower o c d s hc hd = rw (split_words-lower o c d s hc hd) (
    lowered-lower c (split_words (scan_of o) (d ∷ s)) hc
      (starts_upper-split_words o d s ∙ lower_not_upper d hd))

starts_upper_capital : (a : ℕ) (s : Bytes) → is_lower a ≡ true → starts_upper ((a - 32) ∷ s) ≡ true
unfolding starts_upper
starts_upper_capital a s h = ground (arith, h)

starts_word_capital :
    (a b : ℕ) (s : Bytes)
    → is_lower a ≡ true
    → is_lower b ≡ true
    → starts_word ((a - 32) ∷ b ∷ s) ≡ true
unfolding starts_word
starts_word_capital a b s ha hb = ground (arith, ha, hb)

split_words_outside-jump :
    (c a b : ℕ) (s : Bytes)
    → is_lower c ≡ true
    → is_lower a ≡ true
    → is_lower b ≡ true
    → split_words outside (c ∷ (a - 32) ∷ b ∷ s) ≡ c ∷ b'_' ∷ (a - 32) ∷ split_words in_word (b ∷ s)
unfolding split_words
split_words_outside-jump c a b s hc ha hb =
    let no_line_end : (c == 10) ≡ false = ground (arith, hc) in
    simp (no_line_end, starts_word_capital a b s ha hb) refl

split_words_in_word-jump :
    (c a b : ℕ) (s : Bytes)
    → is_lower c ≡ true
    → is_lower a ≡ true
    → is_lower b ≡ true
    → split_words in_word (c ∷ (a - 32) ∷ b ∷ s) ≡ c ∷ (a - 32) ∷ split_words outside (b ∷ s)
unfolding split_words
split_words_in_word-jump c a b s hc ha hb =
    let capital : is_lower (a - 32) ≡ false = ground (arith, ha) in
    simp (hc, capital, starts_word-lower b s hb) (ground arith)

starts_upper_underscore : (s : Bytes) → starts_upper (b'_' ∷ s) ≡ false
unfolding starts_upper
starts_upper_underscore s = refl

-- From the last letter of a word to the next word.
scanned-jump :
    (o : Bool) (c a b : ℕ) (s : Bytes)
    → is_lower c ≡ true
    → is_lower a ≡ true
    → is_lower b ≡ true
    → scanned o (c ∷ (a - 32) ∷ b ∷ s) ≡ c ∷ b'_' ∷ a ∷ scanned (not o) (b ∷ s)
unfolding scanned
scanned-jump true c a b s hc ha hb =
    simp
      (
        split_words_outside-jump c a b s hc ha hb,
        lowered-lower c (b'_' ∷ (a - 32) ∷ split_words in_word (b ∷ s)) hc
            (starts_upper_underscore ((a - 32) ∷ split_words in_word (b ∷ s))),
        lowered-underscore ((a - 32) ∷ split_words in_word (b ∷ s)),
        lowered-capital a (split_words in_word (b ∷ s)) ha,
      )
      refl
scanned-jump false c a b s hc ha hb =
    simp
      (
        split_words_in_word-jump c a b s hc ha hb,
        lowered-boundary c ((a - 32) ∷ split_words outside (b ∷ s)) hc
            (starts_upper_capital a (split_words outside (b ∷ s)) ha),
        lowered-capital a (split_words outside (b ∷ s)) ha,
      )
      refl

-- Through a word, to what follows it.
scanned-word :
    (o : Bool) (c : ℕ) (u after back : Bytes)
    → all is_lower (c ∷ u) ≡ true
    → ((d : ℕ) → is_lower d ≡ true → scanned o (d ∷ after) ≡ d ∷ back)
    → scanned o ((c ∷ u) ++ after) ≡ (c ∷ u) ++ back
scanned-word o c [] after back h last = last c (ground (arith, h))
scanned-word o c (d ∷ u) after back h last =
    scanned-lower o c d (u ++ after) (ground (arith, h)) (ground (arith, h))
    ∙ ap (λ t. c ∷ t) (scanned-word o d u after back (ground (arith, h)) last)

split_words_alone : (o : Bool) (c : ℕ) → split_words (scan_of o) (c ∷ []) ≡ c ∷ []
unfolding split_words starts_word
split_words_alone true c = ground arith
split_words_alone false c = ground arith

scanned-last : (o : Bool) (d : ℕ) → is_lower d ≡ true → scanned o (d ∷ []) ≡ d ∷ []
unfolding scanned lowered split_capitals to_lower starts_upper
scanned-last o d h = rw (split_words_alone o d) (lowered-lower d [] h refl)

scanned-joined :
    (vs : List Bytes) (o : Bool) (c : ℕ) (u : Bytes)
    → all is_lower (c ∷ u) ≡ true
    → all is_word vs ≡ true
    → scanned o ((c ∷ u) ++ join_capitalized vs) ≡ joined (c ∷ u) vs
unfolding joined_rest
scanned-joined [] o c u h hs =
    rw join_capitalized-none (scanned-word o c u [] [] h (scanned-last o))
scanned-joined ([] ∷ vs) o c u h hs = cc
scanned-joined ((a ∷ []) ∷ vs) o c u h hs = cc
scanned-joined ((a ∷ b ∷ t) ∷ vs) o c u h hs =
    rw (join_capitalized-word a b t vs (ground (arith, hs))) (
      scanned-word o c u ((a - 32) ∷ b ∷ (t ++ join_capitalized vs))
        (joined_rest ((a ∷ b ∷ t) ∷ vs)) h
        (λ d hd.
          scanned-jump o d a b (t ++ join_capitalized vs) hd (ground (arith, hs))
            (ground (arith, hs))
          ∙ ap (λ s. d ∷ b'_' ∷ a ∷ s)
              (scanned-joined vs (not o) b t (ground (arith, hs)) (ground (arith, hs)))))

-- A key that is words of two lower-case letters or more, with "_" between them, comes back from camel
-- case as it was.
pub camel_to_snake-snake_to_camel :
    (w : Bytes) (vs : List Bytes)
    → is_word w ≡ true
    → all is_word vs ≡ true
    → camel_to_snake (snake_to_camel (joined w vs)) ≡ joined w vs
unfolding camel_to_snake
camel_to_snake-snake_to_camel [] vs h hs = cc
camel_to_snake-snake_to_camel (c ∷ w) vs h hs =
    rw (snake_to_camel-joined (c ∷ w) vs h hs)
      (unfold scanned lowered in scanned-joined vs true c w (is_word-lower (c ∷ w) h) hs)
