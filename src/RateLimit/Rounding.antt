-- ===== src/RateLimit/Rounding.antt =====
-- What the rate limit's estimate relies on in float64 (internal/ratelimit/ratelimit.go, `Allow`).
use aastro.Prelude.{ℕ, ◌+◌, ◌-◌, ◌^◌, ◌<◌, ◌≤◌, ◌≡◌, sym, subst, Bool, true, false, arith}
use aastro.Upstream.{ℤ, pos}
use aastro.RateLimit.{at_least, Floats, Entry, since, estimated}

-- Laws of IEEE 754 for `<=` and the operations, each of which rounds its exact result to the nearest float64:
-- rounding keeps the order, every integer below 2 ^ 53 is a float64, and so are 0 and 1. The conversion
-- to int truncates, where the result fits in an int64. Where a compiler fuses the product with the
-- sum, the bounds are the same.
pub record IsRounding (floats : Floats) : Type 0 where
  pub le : floats.Float → floats.Float → Bool
  -- A quotient of integers, of which the divisor is not 0 and not the smaller.
  pub div_nonneg :
      (m n : ℕ)
      → 0 < n
      → le (floats.of_int (pos 0)) (floats.div (floats.of_int (pos m)) (floats.of_int (pos n)))
        ≡ true
  pub div_le_one :
      (m n : ℕ)
      → 0 < n
      → m ≤ n
      → le (floats.div (floats.of_int (pos m)) (floats.of_int (pos n))) (floats.of_int (pos 1))
        ≡ true
  pub sub_nonneg :
      (a : floats.Float)
      → le a (floats.of_int (pos 1)) ≡ true
      → le (floats.of_int (pos 0)) (floats.sub (floats.of_int (pos 1)) a) ≡ true
  pub sub_le :
      (a : floats.Float)
      → le (floats.of_int (pos 0)) a ≡ true
      → le (floats.sub (floats.of_int (pos 1)) a) (floats.of_int (pos 1)) ≡ true
  -- An integer times a factor that is not negative, and one that is at most 1.
  pub mul_nonneg :
      (m : ℕ) (a : floats.Float)
      → le (floats.of_int (pos 0)) a ≡ true
      → le (floats.of_int (pos 0)) (floats.mul (floats.of_int (pos m)) a) ≡ true
  pub mul_le :
      (m : ℕ) (a : floats.Float)
      → le (floats.of_int (pos 0)) a ≡ true
      → le a (floats.of_int (pos 1)) ≡ true
      → le (floats.mul (floats.of_int (pos m)) a) (floats.of_int (pos m)) ≡ true
  pub add_ge :
      (n : ℕ) (a : floats.Float)
      → n < 2 ^ 53
      → le (floats.of_int (pos 0)) a ≡ true
      → le (floats.of_int (pos n)) (floats.add a (floats.of_int (pos n))) ≡ true
  pub add_le :
      (m n : ℕ) (a : floats.Float)
      → m + n < 2 ^ 53
      → le a (floats.of_int (pos m)) ≡ true
      → le (floats.add a (floats.of_int (pos n))) (floats.of_int (pos (m + n))) ≡ true
  pub to_int_ge :
      (m n : ℕ) (a : floats.Float)
      → m < 2 ^ 53
      → n < 2 ^ 53
      → le (floats.of_int (pos m)) a ≡ true
      → le a (floats.of_int (pos n)) ≡ true
      → at_least (floats.to_int a) m ≡ true

-- A time in the entry's window: the clock is not set back behind the window's start, and the window has not
-- passed.
abbrev pub IsWithin : ℕ → ℕ → ℕ → Type 0
IsWithin window start now = (start ≤ now) × (at_least (since now start) window ≡ false)

since_later : (now start : ℕ) → start ≤ now → since now start ≡ pos (now - start)
unfolding since
since_later now start later = ground arith

elapsed_le : (now start window : ℕ) → IsWithin window start now → now - start ≤ window
unfolding since at_least
elapsed_le now start window (later, within) = ground arith

-- In its window, an entry's estimate is not below its current count.
pub estimated_ge :
    (floats : Floats) (rounding : IsRounding floats) (window now : ℕ) (ent : Entry)
    → 0 < window
    → ent.previous_count + ent.current_count < 2 ^ 53
    → IsWithin window ent.window_start now
    → at_least (estimated floats now window ent) ent.current_count ≡ true
unfolding estimated
estimated_ge floats rounding window now ent positive exact within =
    let elapsed = now - ent.window_start in
    let spent = floats.div (floats.of_int (pos elapsed)) (floats.of_int (pos window)) in
    let some_spent = rounding.div_nonneg elapsed window positive in
    let not_all =
      rounding.div_le_one elapsed window positive (elapsed_le now ent.window_start window within) in
    let weight = floats.sub (floats.of_int (pos 1)) spent in
    let nonneg = rounding.sub_nonneg spent not_all in
    let below_one = rounding.sub_le spent some_spent in
    let weighted = floats.mul (floats.of_int (pos ent.previous_count)) weight in
    subst
      (λ (e : ℤ).
        at_least
          (floats.to_int (
            floats.add
              (floats.mul (floats.of_int (pos ent.previous_count)) (
                floats.sub (floats.of_int (pos 1))
                  (floats.div (floats.of_int e) (floats.of_int (pos window)))))
              (floats.of_int (pos ent.current_count))))
          ent.current_count
        ≡ true)
      (sym (since_later now ent.window_start within.0))
      (rounding.to_int_ge ent.current_count (ent.previous_count + ent.current_count) _
        (omega (arith, exact)) exact
        (rounding.add_ge ent.current_count weighted (omega (arith, exact))
          (rounding.mul_nonneg ent.previous_count weight nonneg))
        (rounding.add_le ent.previous_count ent.current_count weighted exact
          (rounding.mul_le ent.previous_count weight nonneg below_one)))
