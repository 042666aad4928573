-- ===== src/Engine/Balancer/Masks.antt =====
-- src/engine/balancer.rs: each split of at most sixteen players has a mask, and each mask a split.
use native.Mathlib.Nat.{div-div-eq-div-mul, pow-suc, div-one}
use matchmaker.Base.{
  ℕ, zero, suc, ◌+◌, ◌*◌, ◌/◌, ◌%◌, ◌^◌, ◌≤◌, ◌<◌, ◌≡◌, refl, sym, ap, ◌∙◌, true, false, inl, inr,
  List, [], ◌∷◌, arith, length, ◌==◌, if◌then◌else◌, Bool-cases,
}
use matchmaker.Engine.Balancer.{bit, bits_set, count_ones, picked, deal}
use matchmaker.Engine.Balancer.Splits.{Splits, done, left, right}

shift-suc : (mask i : ℕ) → mask / 2 ^ suc i ≡ mask / 2 ^ i / 2
shift-suc mask i = rw (pow-suc 2 i) (sym (div-div-eq-div-mul mask (2 ^ i) 2))

-- What `deal` does, with the mask used up bit by bit.
abbrev pub chosen {ℓ} : {A : Type ℓ} → ℕ → List A → List A
chosen mask [] = []
chosen mask (x ∷ xs) = let rest = chosen (mask / 2) xs in if mask % 2 == 1 then x ∷ rest else rest

abbrev pub others {ℓ} : {A : Type ℓ} → ℕ → List A → List A
others mask [] = []
others mask (x ∷ xs) = let rest = others (mask / 2) xs in if mask % 2 == 1 then rest else x ∷ rest

picked-chosen' {ℓ} :
    {A : Type ℓ} (mask i : ℕ) (xs : List A) → picked mask i xs ≡ chosen (mask / 2 ^ i) xs
unfolding picked bit
picked-chosen' mask i [] = refl
picked-chosen' mask i (x ∷ xs) = rw (picked-chosen' mask (suc i) xs, shift-suc mask i)

pub picked-chosen {ℓ} : {A : Type ℓ} (mask : ℕ) (xs : List A) → picked mask 0 xs ≡ chosen mask xs
picked-chosen mask xs = picked-chosen' mask 0 xs ∙ ap (λ m. chosen m xs) (div-one mask)

deal-chosen' {ℓ} :
    {A : Type ℓ} (mask i : ℕ) (xs : List A)
    → deal mask i xs ≡ (chosen (mask / 2 ^ i) xs, others (mask / 2 ^ i) xs)
unfolding deal bit
deal-chosen' mask i [] = refl
deal-chosen' mask i (x ∷ xs) = elim (Bool-cases (mask / 2 ^ i % 2 == 1)) [
  | inl e ↦ rw (deal-chosen' mask (suc i) xs, shift-suc mask i, e)
  | inr e ↦ rw (deal-chosen' mask (suc i) xs, shift-suc mask i, e)
]

pub deal-chosen {ℓ} :
    {A : Type ℓ} (mask : ℕ) (xs : List A) → deal mask 0 xs ≡ (chosen mask xs, others mask xs)
deal-chosen mask xs = deal-chosen' mask 0 xs ∙ ap (λ m. (chosen m xs, others m xs)) (div-one mask)

module _ {A : Type 0} where
  pub split_of : (mask : ℕ) (xs : List A) → Splits xs (chosen mask xs) (others mask xs)
  split_of mask [] = done
  split_of mask (x ∷ xs) = elim (Bool-cases (mask % 2 == 1)) [
    | inl e ↦ rw e (left (split_of (mask / 2) xs))
    | inr e ↦ rw e (right (split_of (mask / 2) xs))
  ]

  pub mask_of : {xs ps bs : List A} → Splits xs ps bs → ℕ
  mask_of done = 0
  mask_of (left s) = 1 + 2 * mask_of s
  mask_of (right s) = 2 * mask_of s

  pub mask_of-lt : {xs ps bs : List A} (s : Splits xs ps bs) → mask_of s < 2 ^ length xs
  unfolding mask_of
  mask_of-lt done = omega arith
  mask_of-lt (left {xs = xs} s) = omega (arith, mask_of-lt s, pow-suc 2 (length xs))
  mask_of-lt (right {xs = xs} s) = omega (arith, mask_of-lt s, pow-suc 2 (length xs))

  pub chosen-mask_of : {xs ps bs : List A} (s : Splits xs ps bs) → chosen (mask_of s) xs ≡ ps
  unfolding mask_of
  chosen-mask_of done = refl
  chosen-mask_of (left {x = x} {xs = xs} s) =
      let odd : ((1 + 2 * mask_of s) % 2 == 1) ≡ true = ground arith in
      let half : (1 + 2 * mask_of s) / 2 ≡ mask_of s = omega arith in
      rw (odd, half) (ap (λ ys. x ∷ ys) (chosen-mask_of s))
  chosen-mask_of (right s) =
      let even : (2 * mask_of s % 2 == 1) ≡ false = ground arith in
      let half : 2 * mask_of s / 2 ≡ mask_of s = omega arith in rw (even, half) (chosen-mask_of s)

  bits_set-chosen : (mask : ℕ) (xs : List A) → bits_set (length xs) mask ≡ length (chosen mask xs)
  unfolding bits_set
  bits_set-chosen mask [] = refl
  bits_set-chosen mask (x ∷ xs) = ground (arith, bits_set-chosen (mask / 2) xs)

bits_set-zero : (n : ℕ) → bits_set n 0 ≡ 0
unfolding bits_set
bits_set-zero zero = refl
bits_set-zero (suc n) = omega (arith, bits_set-zero n)

bits_set-more : (n k mask : ℕ) → mask < 2 ^ n → n ≤ k → bits_set k mask ≡ bits_set n mask
unfolding bits_set
bits_set-more zero k mask lt h = let e : mask ≡ 0 = omega arith in rw e (bits_set-zero k)
bits_set-more (suc n) zero mask lt h = absurd (omega arith)
bits_set-more (suc n) (suc k) mask lt h =
    ap (λ (b : ℕ). mask % 2 + b)
      (bits_set-more n k (mask / 2) (omega (arith, pow-suc 2 n)) (omega arith))

pub count_ones-chosen :
    {A : Type 0} (mask : ℕ) (xs : List A)
    → mask < 2 ^ length xs
    → length xs ≤ 16
    → count_ones mask ≡ length (chosen mask xs)
unfolding count_ones
count_ones-chosen mask xs lt h = bits_set-more (length xs) 16 mask lt h ∙ bits_set-chosen mask xs
