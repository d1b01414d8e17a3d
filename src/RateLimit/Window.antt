-- ===== src/RateLimit/Window.antt =====
-- No more than the limit in a window.
use aastro.Prelude.{
  ℕ, suc, ◌+◌, ◌^◌, ◌≡◌, ◌≤◌, ◌<◌, refl, sym, subst, inl, inr, Bool, true, false, List, [], ◌∷◌,
  some, arith, Bool-cases, if◌then◌else◌, All,
}
use aastro.Upstream.{ℤ, pos, negsuc}
use aastro.RateLimit.Rounding.{IsRounding, IsWithin, estimated_ge}
use aastro.RateLimit.{at_least, Floats, Entry, entry_of, refresh, estimated, admit, allow_entry}

at_least_mono : (a : ℤ) (m n : ℕ) → m ≤ n → at_least a n ≡ true → at_least a m ≡ true
unfolding at_least
at_least_mono (pos a) m n h e = ground arith
at_least_mono (negsuc a) m n h e = cc

-- How many of the requests of a key with the entry `ent`, at the times `ts`, are let through.
unfoldable pub granted : Floats → ℕ → ℕ → List ℕ → Entry → ℕ
granted floats limit window [] ent = 0
granted floats limit window (t ∷ ts) ent =
    let step = allow_entry floats t limit window (some ent) in
    let rest = granted floats limit window ts step.0 in if step.1 then suc rest else rest

-- A number of requests in a window whose double a float64 holds exactly.
abbrev pub IsExact : ℕ → Type 0
IsExact limit = limit < 2 ^ 52

module _ (floats : Floats) (rounding : IsRounding floats) (limit window : ℕ) (positive : 0 < window)
    (exact : IsExact limit) where
  -- A request leaves the window as it is, counts if it is let through, and keeps to the limit.
  abbrev IsStep : Entry → Entry × Bool → Type 0
  IsStep ent (ent', allowed) =
      (ent'.window_start ≡ ent.window_start)
      × (ent'.previous_count ≡ ent.previous_count)
      × (ent'.current_count ≤ limit)
      × (ent'.current_count ≡ (if allowed then suc ent.current_count else ent.current_count))

  below_limit :
      (now : ℕ) (ent : Entry)
      → IsWithin window ent.window_start now
      → ent.current_count ≤ limit
      → ent.previous_count ≤ limit
      → at_least (estimated floats now window ent) limit ≡ false
      → ent.current_count < limit
  below_limit now ent within below before under =
      let small : ent.previous_count + ent.current_count < 2 ^ 53 =
        omega (arith, below, before, exact) in
      let ge = estimated_ge floats rounding window now ent positive small within in
      let mono = at_least_mono (estimated floats now window ent) limit ent.current_count in
      ground arith

  admit-full :
      (now : ℕ) (ent : Entry)
      → at_least (estimated floats now window ent) limit ≡ true
      → admit floats now limit window ent ≡ (ent, false)
  unfolding admit
  admit-full now ent full = ground arith

  admit-room :
      (now : ℕ) (ent : Entry)
      → at_least (estimated floats now window ent) limit ≡ false
      → admit floats now limit window ent
        ≡ (record ent { current_count = ent.current_count + 1 }, true)
  unfolding admit
  admit-room now ent room = ground arith

  admit-IsStep :
      (now : ℕ) (ent : Entry)
      → IsWithin window ent.window_start now
      → ent.current_count ≤ limit
      → ent.previous_count ≤ limit
      → IsStep ent (admit floats now limit window ent)
  admit-IsStep now ent within below before =
      let under = below_limit now ent within below before in
      elim (Bool-cases (at_least (estimated floats now window ent) limit)) [
        | inl full ↦ subst (IsStep ent) (sym (admit-full now ent full)) (refl, refl, below, refl)
        | inr room ↦
            let raised : ent.current_count + 1 ≤ limit = omega (arith, under room) in
            subst (IsStep ent) (sym (admit-room now ent room)) (refl, refl, raised, omega arith)
      ]

  allow_entry-IsStep :
      (now : ℕ) (ent : Entry)
      → IsWithin window ent.window_start now
      → ent.current_count ≤ limit
      → ent.previous_count ≤ limit
      → IsStep ent (allow_entry floats now limit window (some ent))
  unfolding allow_entry entry_of refresh
  allow_entry-IsStep now ent within below before =
      rw (within.1) (admit-IsStep now ent within below before)

  -- A key gets no more than the limit in a window: however many requests it sends and at whatever
  -- times, while the window lasts and the clock is not set back behind its start, those let through and
  -- those counted before are no more than the limit together. The window is not 0, and the limit,
  -- which the window before has not passed either, is below 2 ^ 52.
  pub granted-le_limit :
      (ts : List ℕ) (ent : Entry)
      → All (IsWithin window ent.window_start) ts
      → ent.previous_count ≤ limit
      → ent.current_count ≤ limit
      → granted floats limit window ts ent + ent.current_count ≤ limit
  unfolding granted
  granted-le_limit [] ent w before below = omega arith
  granted-le_limit (t ∷ ts) ent (w, ws) before below =
      let (start, previous, bound, count) = allow_entry-IsStep t ent w below before in
      let rest =
        granted-le_limit ts (allow_entry floats t limit window (some ent)).0
          (subst (λ s. All (IsWithin window s) ts) (sym start) ws)
          (subst (λ n. n ≤ limit) (sym previous) before) bound in
      ground arith
