-- ===== src/Base/Members.antt =====
-- Membership with its witness, by recursion, and the operations that keep it.
use Prim.Native.Nat.{ℕ, zero, suc}
use mathlib.Core.Path.{◌≡◌, refl, ap, subst}
use mathlib.Core.Logic.{inl, inr}
use mathlib.Core.Bool.{Bool, true}
use mathlib.Core.List.{List, [], ◌∷◌, map}
use matchmaker.Base.Tests.{Bool-cases}
use matchmaker.Base.Lists.{Any, All, keep, take}

abbrev pub In : {A : Type 0} → A → List A → Type 0
In x xs = Any (λ y. y ≡ x) xs

module _ {A : Type 0} where
  pub In-keep : (p : A → Bool) (x : A) (xs : List A) → In x xs → p x ≡ true → In x (keep p xs)
  In-keep p x [] m h = m
  In-keep p x (y ∷ ys) (inl e) h = rw (e, h) (inl refl)
  In-keep p x (y ∷ ys) (inr m) h = elim (Bool-cases (p y)) [
    | inl e ↦ rw e (inr (In-keep p x ys m h))
    | inr e ↦ rw e (In-keep p x ys m h)
  ]

  pub keep-In : (p : A → Bool) (x : A) (xs : List A) → In x (keep p xs) → In x xs × (p x ≡ true)
  keep-In p x [] m = absurd m
  keep-In p x (y ∷ ys) m = elim (Bool-cases (p y)) [
    | inl e ↦ elim (rw e at m) [
      | inl q ↦ (inl q, subst (λ z. p z ≡ true) q e)
      | inr n ↦ let (a, b) = keep-In p x ys n in (inr a, b)
    ]
    | inr e ↦ let (a, b) = keep-In p x ys (rw e at m) in (inr a, b)
  ]

  pub In-take : (n : ℕ) (x : A) (xs : List A) → In x (take n xs) → In x xs
  In-take zero x xs m = absurd m
  In-take (suc n) x [] m = absurd m
  In-take (suc n) x (y ∷ ys) (inl e) = inl e
  In-take (suc n) x (y ∷ ys) (inr m) = inr (In-take n x ys m)

  pub All-In : (P : A → Type 0) (xs : List A) → ((x : A) → In x xs → P x) → All P xs
  All-In P [] h = tt
  All-In P (x ∷ xs) h = (h x (inl refl), All-In P xs (λ y m. h y (inr m)))

  pub In-All : (P : A → Type 0) (xs : List A) (x : A) → All P xs → In x xs → P x
  In-All P [] x h m = absurd m
  In-All P (y ∷ ys) x h (inl e) = subst P e h.0
  In-All P (y ∷ ys) x h (inr m) = In-All P ys x h.1 m

module _ {A B : Type 0} (f : A → B) where
  pub In-map : (x : A) (xs : List A) → In x xs → In (f x) (map f xs)
  In-map x [] m = m
  In-map x (y ∷ ys) (inl e) = inl (ap f e)
  In-map x (y ∷ ys) (inr m) = inr (In-map x ys m)

  pub map-In : (y : B) (xs : List A) → In y (map f xs) → (x : A) × In x xs × (f x ≡ y)
  map-In y [] m = absurd m
  map-In y (x ∷ xs) (inl e) = (x, inl refl, e)
  map-In y (x ∷ xs) (inr m) = let (z, n, e) = map-In y xs m in (z, inr n, e)
