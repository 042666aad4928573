-- ===== src/Base/Words.antt =====
-- Machine integers: unsigned words with their wrap-around, and an i64 kept as its bit pattern.
use Prim.Native.Nat.{ℕ, ◌+◌, ◌-◌, ◌%◌, ◌^◌, ◌<◌}
use mathlib.Core.Path.{◌≡◌}
use native.Mathlib.Omega.{arith}
use matchmaker.Base.Tests.{ltb, leb, if◌then◌else◌}

abbrev pub u16 : ℕ → ℕ
u16 n = n % 2 ^ 16

abbrev pub u32 : ℕ → ℕ
u32 n = n % 2 ^ 32

abbrev pub u64 : ℕ → ℕ
u64 n = n % 2 ^ 64

-- `fetch_add` and `fetch_sub` of the 64-bit atomics wrap, signed and unsigned alike.
abbrev pub fetch_add : ℕ → ℕ → ℕ
fetch_add w n = u64 (w + n)

abbrev pub fetch_sub : ℕ → ℕ → ℕ
fetch_sub w n = u64 (w + 2 ^ 64 - n % 2 ^ 64)

abbrev pub abs_diff : ℕ → ℕ → ℕ
abs_diff a b = if ltb a b then b - a else a - b

abbrev pub saturating_sub : ℕ → ℕ → ℕ
saturating_sub a b = a - b

-- `u32::saturating_add`.
abbrev pub saturating_add : ℕ → ℕ → ℕ
saturating_add a b = if leb (a + b) 4294967295 then a + b else 4294967295

pub fetch_sub-fetch_add : (w n : ℕ) → w < 2 ^ 64 → n < 2 ^ 64 → fetch_sub (fetch_add w n) n ≡ w
fetch_sub-fetch_add w n h k = omega arith
