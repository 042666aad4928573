-- ===== src/Base/Sums.antt =====
-- `Iterator::sum` over unsigned words, which wraps in the release profile.
use native.Mathlib.Nat.{mod-eq_of_lt}
use Prim.Native.Nat.{ℕ, ◌+◌, ◌%◌, ◌^◌, ◌<◌}
use mathlib.Core.Path.{◌≡◌}
use mathlib.Core.List.{List, [], ◌∷◌}
use native.Mathlib.Omega.{arith}
use matchmaker.Base.Lists.{total}

pub wrapping_sum : ℕ → ℕ → List ℕ → ℕ
wrapping_sum bits acc [] = acc
wrapping_sum bits acc (x ∷ xs) = wrapping_sum bits ((acc + x) % 2 ^ bits) xs

abbrev pub sum_u32 : List ℕ → ℕ
sum_u32 = wrapping_sum 32 0

abbrev pub sum_u64 : List ℕ → ℕ
sum_u64 = wrapping_sum 64 0

wrapping_sum-total :
    (bits acc : ℕ) (xs : List ℕ)
    → acc + total xs < 2 ^ bits
    → wrapping_sum bits acc xs ≡ acc + total xs
unfolding wrapping_sum
wrapping_sum-total bits acc [] h = omega arith
wrapping_sum-total bits acc (x ∷ xs) h =
    rw (mod-eq_of_lt {n = acc + x} {m = 2 ^ bits} (omega arith))
      (omega (arith, wrapping_sum-total bits (acc + x) xs))

-- A sum that fits its word is exact.
pub wrapping_sum_exact :
    (bits : ℕ) (xs : List ℕ) → total xs < 2 ^ bits → wrapping_sum bits 0 xs ≡ total xs
wrapping_sum_exact bits xs h = omega (arith, wrapping_sum-total bits 0 xs)
