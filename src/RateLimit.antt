-- ===== src/RateLimit.antt =====
-- internal/ratelimit/ratelimit.go: a sliding-window limit on the requests of each client.
-- Times are nanoseconds since Go's zero time, by the wall clock (`Truncate` takes the monotonic reading
-- off), so that a difference may be negative. Each call holds the mutex and takes its time from `now`.
pub mod Rounding
pub mod Window
pub mod Cleanup
use aastro.Prelude.{
  ℕ, suc, ◌+◌, ◌-◌, ◌*◌, ◌%◌, ◌^◌, ◌<◌, ◌≡◌, Bool, true, false, List, [], ◌∷◌, Option, none, some,
  String, leb, ltb, ◌==◌, if◌then◌else◌, lookup, insert,
}
use aastro.Upstream.{ℤ, pos, negsuc}

-- `a >= n` for an int64 `a`.
unfoldable pub at_least : ℤ → ℕ → Bool
at_least (pos a) n = leb n a
at_least (negsuc a) n = false

-- The operations on float64 of which `Allow` computes its estimate; `to_int` is `int(_)`, which Go leaves
-- open where the result does not fit.
pub record Floats : Type 1 where
  pub Float : Type 0
  pub of_int : ℤ → Float
  pub to_int : Float → ℤ
  pub sub : Float → Float → Float
  pub div : Float → Float → Float
  pub mul : Float → Float → Float
  pub add : Float → Float → Float

pub record Entry : Type 0 where
  pub current_count : ℕ
  pub previous_count : ℕ
  pub window_start : ℕ

pub record RateLimit : Type 0 where
  pub limit : ℕ
  pub window : ℕ
  pub buckets : List (String × Entry)

pub new : ℕ → ℕ → RateLimit
new limit window = record { limit = limit; window = window; buckets = [] }

-- `now.Sub(start)`.
unfoldable pub since : ℕ → ℕ → ℤ
since now start = if leb start now then pos (now - start) else negsuc (start - now - 1)

-- `now.Truncate(window)`, which is `now` where the window is not positive.
pub truncate : ℕ → ℕ → ℕ
truncate now window = if window == 0 then now else now - now % window

abbrev pub fresh : ℕ → ℕ → Entry
fresh now window = record {
  current_count = 0;
  previous_count = 0;
  window_start = truncate now window;
}

-- The entry of a key, made where there is none.
pub entry_of : ℕ → ℕ → Option Entry → Entry
entry_of now window none = fresh now window
entry_of now window (some ent) = ent

-- A new window, if the entry's has passed.
pub refresh : ℕ → ℕ → Entry → Entry
refresh now window ent =
    if at_least (since now ent.window_start) window
    then record {
      current_count = 0;
      previous_count =
          if at_least (since now ent.window_start) (2 * window) then 0 else ent.current_count;
      window_start = truncate now window;
    }
    else ent

module _ (floats : Floats) where
  open floats use {of_int, to_int, sub, div, mul, add}

  pub estimated : ℕ → ℕ → Entry → ℤ
  estimated now window ent =
      let elapsed = since now ent.window_start in
      let weight = sub (of_int (pos 1)) (div (of_int elapsed) (of_int (pos window))) in
      to_int (add (mul (of_int (pos ent.previous_count)) weight) (of_int (pos ent.current_count)))

  -- The end of `Allow`, on the entry in its window.
  pub admit : ℕ → ℕ → ℕ → Entry → Entry × Bool
  admit now limit window ent =
      if at_least (estimated now window ent) limit
      then (ent, false)
      else (record ent { current_count = ent.current_count + 1 }, true)

  -- What `Allow` does to the entry of the key.
  pub allow_entry : ℕ → ℕ → ℕ → Option Entry → Entry × Bool
  allow_entry now limit window found =
      admit now limit window (refresh now window (entry_of now window found))

  unfoldable pub allow : ℕ → String → RateLimit → RateLimit × Bool
  allow now key rl =
      let (ent, allowed) = allow_entry now rl.limit rl.window (lookup key rl.buckets) in
      (record rl { buckets = insert key ent rl.buckets }, allowed)

-- `ent.windowStart.Before(cutoff)` with the cutoff two windows before `now`.
pub expired : ℕ → ℕ → Entry → Bool
expired now window ent = ltb (ent.window_start + 2 * window) now

-- The loop of `cleanup`.
pub sweep : ℕ → ℕ → List (String × Entry) → List (String × Entry)
sweep now window [] = []
sweep now window ((k, ent) ∷ m) =
    let rest = sweep now window m in if expired now window ent then rest else (k, ent) ∷ rest

cleanup : ℕ → RateLimit → RateLimit
cleanup now rl = record rl { buckets = sweep now rl.window rl.buckets }
