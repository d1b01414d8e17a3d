-- ===== src/RateLimit/Cleanup.antt =====
-- The periodic `cleanup`, seen from `Allow`.
use native.Mathlib.Nat.{mod-lt, mod-le, zero-lt-suc}
use aastro.Prelude.{
  ℕ, zero, suc, ◌%◌, ◌-◌, ◌≡◌, ◌≤◌, ◌<◌, refl, sym, ap, ◌∙◌, inl, inr, true, false, List, [], ◌∷◌,
  Option, none, some, arith, Bool-cases, String, lookup, str_eq_iff, if◌then◌else◌,
}
use aastro.Aggregator.{Distinct}
use aastro.RateLimit.{
  at_least, Floats, Entry, since, truncate, fresh, entry_of, refresh, admit, allow_entry, expired,
  sweep,
}

-- A new entry is in its window; at a window of 0 it is made anew at once.
within_fresh :
    (now window m : ℕ) → m < window → m ≤ now → at_least (since now (now - m)) window ≡ false
unfolding since at_least
within_fresh now window m lt le = ground arith

refresh-fresh : (now window : ℕ) → refresh now window (fresh now window) ≡ fresh now window
unfolding refresh truncate
refresh-fresh now zero = unfold since at_least in ground arith
refresh-fresh now (suc w) =
    let within =
      within_fresh now (suc w) (now % suc w) (mod-lt now (zero-lt-suc w)) (mod-le now (suc w)) in
    ground arith

refresh-expired :
    (then_ now window : ℕ) (ent : Entry)
    → then_ ≤ now
    → expired then_ window ent ≡ true
    → refresh now window ent ≡ fresh now window
unfolding refresh expired since at_least
refresh-expired then_ now window ent later gone = ground arith

-- What `cleanup` leaves of a key's entry.
abbrev kept : ℕ → ℕ → Option Entry → Option Entry
kept now window none = none
kept now window (some ent) = if expired now window ent then none else some ent

entry-kept :
    (cleaned now window : ℕ) (found : Option Entry)
    → cleaned ≤ now
    → refresh now window (entry_of now window (kept cleaned window found))
      ≡ refresh now window (entry_of now window found)
unfolding entry_of
entry-kept cleaned now window none later = refl
entry-kept cleaned now window (some ent) later =
    let gone = refresh-expired cleaned now window ent later in
    let new = refresh-fresh now window in
    elim (Bool-cases (expired cleaned window ent)) [
      | inl e ↦ simp e (new ∙ sym (gone e))
      | inr e ↦ simp e refl
    ]

lookup-sweep :
    (key : String) (now window : ℕ) (m : List (String × Entry))
    → Distinct m
    → lookup key (sweep now window m) ≡ kept now window (lookup key m)
unfolding sweep lookup
lookup-sweep key now window [] d = refl
lookup-sweep key now window ((k, ent) ∷ m) (fresh_key, d) =
    ground (arith, lookup-sweep key now window m d, str_eq_iff k key)

module _ (floats : Floats) where
  -- `cleanup` cannot be seen by a client: a request that comes at the time of the cleanup or later is
  -- answered in the same way, and leaves the same entry, whether the buckets were cleaned or not. Each
  -- key has one bucket.
  pub allow_entry-sweep :
      (cleaned now limit window : ℕ) (key : String) (m : List (String × Entry))
      → cleaned ≤ now
      → Distinct m
      → allow_entry floats now limit window (lookup key (sweep cleaned window m))
        ≡ allow_entry floats now limit window (lookup key m)
  unfolding allow_entry
  allow_entry-sweep cleaned now limit window key m later d =
      ap (λ found. allow_entry floats now limit window found) (lookup-sweep key cleaned window m d)
      ∙ ap (admit floats now limit window) (entry-kept cleaned now window (lookup key m) later)
