-- ===== src/Utils.antt =====
-- src/utils/mod.rs: the shared helpers. The clock is an argument: nanoseconds since the Unix epoch,
-- 0 if it is before that.
use native.Mathlib.Nat.{le-div_iff_mul-le, div-le_of_le-mul}
use matchmaker.Base.{
  All, ◌*◌, ◌≤◌, ◌<◌, arith, ◌^◌, total, wrapping_sum_exact, ℕ, ◌/◌, min, List, [], ◌∷◌, u64,
  length, sum_u64,
}
use matchmaker.Engine.Balancer.{count_ones}

abbrev pub now_unix_ms : ℕ → ℕ
now_unix_ms since_epoch = u64 (since_epoch / 1000000)

abbrev pub now_unix_secs : ℕ → ℕ
now_unix_secs since_epoch = since_epoch / 1000000000

abbrev pub clamp_rating : ℕ → ℕ → ℕ
clamp_rating rating most = min rating most

pub average_u64 : List ℕ → ℕ
average_u64 [] = 0
average_u64 (x ∷ xs) = sum_u64 (x ∷ xs) / length (x ∷ xs)

abbrev pub popcount_u16 : ℕ → ℕ
popcount_u16 mask = count_ones mask

average-bounds :
    (least most : ℕ) (xs : List ℕ)
    → All (λ x. (least ≤ x) × (x ≤ most)) xs
    → (length xs * least ≤ total xs) × (total xs ≤ length xs * most)
average-bounds least most [] h = omega arith
average-bounds least most (x ∷ xs) h =
    let (low, high) = average-bounds least most xs h.1 in
    (omega (arith, low, h.0.0), omega (arith, high, h.0.1))

-- The average of some values lies between their bounds, if their sum fits 64 bits.
pub average_u64_between :
    (least most x : ℕ) (xs : List ℕ)
    → total (x ∷ xs) < 2 ^ 64
    → All (λ y. (least ≤ y) × (y ≤ most)) (x ∷ xs)
    → (least ≤ average_u64 (x ∷ xs)) × (average_u64 (x ∷ xs) ≤ most)
unfolding average_u64
average_u64_between least most x xs fits h =
    let (low, high) = average-bounds least most (x ∷ xs) h in
    rw (wrapping_sum_exact 64 (x ∷ xs) fits) (
      (le-div_iff_mul-le (omega arith)).1 (omega (arith, low)),
      div-le_of_le-mul (length (x ∷ xs)) high,
    )
