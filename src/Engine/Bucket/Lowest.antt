-- ===== src/Engine/Bucket/Lowest.antt =====
-- src/engine/bucket.rs: a scan that stops early has come to the entries in the order of their keys.
use matchmaker.Base.{
  ℕ, zero, suc, ◌≡◌, refl, subst, Bool, true, List, [], ◌∷◌, map, take, keep, All, In, In-All, inl,
  inr, Bool-cases,
}
use matchmaker.Models.Memory.{Ref}
use matchmaker.Engine.Bucket.Index.{Key, RatingIndex, key_lt}
use matchmaker.Engine.Bucket.Sorted.{IsSorted, Above}

module _ (key : Ref → Key) where
  abbrev pub Below : Ref → Ref → Type 0
  Below r q = key_lt (key r) (key q) ≡ true

  -- References in the order of their keys.
  abbrev pub IsKeyed : List Ref → Type 0
  IsKeyed [] = Unit {0}
  IsKeyed (r ∷ rs) = All (Below r) rs × IsKeyed rs

  Above-Below :
      (r : Ref) (m : RatingIndex)
      → ((e : Key × ℕ) → In e m → e.0 ≡ key e.1)
      → Above (key r) m
      → All (Below r) (map (λ e. e.1) m)
  Above-Below r [] own a = tt
  Above-Below r (e ∷ m) own a = (
    subst (λ k. key_lt (key r) k ≡ true) (own e (inl refl)) a.0,
    Above-Below r m (λ x i. own x (inr i)) a.1,
  )

  pub map-IsKeyed :
      (m : RatingIndex)
      → ((e : Key × ℕ) → In e m → e.0 ≡ key e.1)
      → IsSorted m
      → IsKeyed (map (λ e. e.1) m)
  map-IsKeyed [] own s = tt
  map-IsKeyed (e ∷ m) own s = (
    Above-Below e.1 m (λ x i. own x (inr i)) (subst (λ k. Above k m) (own e (inl refl)) s.0),
    map-IsKeyed m (λ x i. own x (inr i)) s.1,
  )

  keep-Below :
      (p : Ref → Bool) (r : Ref) (rs : List Ref) → All (Below r) rs → All (Below r) (keep p rs)
  keep-Below p r [] a = tt
  keep-Below p r (q ∷ qs) a = elim (Bool-cases (p q)) [
    | inl h ↦ rw h (a.0, keep-Below p r qs a.1)
    | inr h ↦ rw h (keep-Below p r qs a.1)
  ]

  pub keep-IsKeyed : (p : Ref → Bool) (rs : List Ref) → IsKeyed rs → IsKeyed (keep p rs)
  keep-IsKeyed p [] k = tt
  keep-IsKeyed p (r ∷ rs) k = elim (Bool-cases (p r)) [
    | inl h ↦ rw h (keep-Below p r rs k.0, keep-IsKeyed p rs k.1)
    | inr h ↦ rw h (keep-IsKeyed p rs k.1)
  ]

  -- What the first `n` leave out comes after each of them.
  pub take-Below :
      (n : ℕ) (rs : List Ref) (r q : Ref)
      → IsKeyed rs
      → In r (take n rs)
      → In q rs
      → ¬ In q (take n rs)
      → Below r q
  take-Below zero rs r q k m i out = absurd m
  take-Below (suc n) [] r q k m i out = absurd m
  take-Below (suc n) (x ∷ xs) r q k m (inl e) out = absurd (out (inl e))
  take-Below (suc n) (x ∷ xs) r q k (inl e) (inr i) out =
      subst (λ y. Below y q) e (In-All (Below x) xs q k.0 i)
  take-Below (suc n) (x ∷ xs) r q k (inr m) (inr i) out =
      take-Below n xs r q k.1 m i (λ j. out (inr j))
