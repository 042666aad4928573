-- ===== src/Engine/Balancer/Splits.antt =====
-- What the search of src/engine/balancer.rs ranges over, with no bit masks: the ways to split a list
-- in two, each part in the order of the list.
use mathlib.Core.List.{perm_middle}
use mathlib.Core.List.Perm
use matchmaker.Base.{ℕ, ◌+◌, ◌≡◌, List, [], ◌∷◌, ◌++◌, map, Perm, arith, length, total, refl}

pub data Splits {A : Type 0} : List A → List A → List A → Type 0 where
  done : Splits [] [] []
  left : {x : A} {xs ps bs : List A} → Splits xs ps bs → Splits (x ∷ xs) (x ∷ ps) bs
  right : {x : A} {xs ps bs : List A} → Splits xs ps bs → Splits (x ∷ xs) ps (x ∷ bs)

module _ {A : Type 0} where
  -- Either part may come first.
  pub flip : {xs ps bs : List A} → Splits xs ps bs → Splits xs bs ps
  flip done = done
  flip (left s) = right (flip s)
  flip (right s) = left (flip s)

  -- The parts hold the elements of the list, each once.
  pub Splits-perm : {xs ps bs : List A} → Splits xs ps bs → Perm (ps ++ bs) xs
  Splits-perm done = Perm.nil
  Splits-perm (left s) = Perm.cons _ (Splits-perm s)
  Splits-perm (right {ps = ps} {bs = bs} s) =
      Perm.trans (perm_middle ps bs) (Perm.cons _ (Splits-perm s))

  pub Splits-length : {xs ps bs : List A} → Splits xs ps bs → length ps + length bs ≡ length xs
  Splits-length done = refl
  Splits-length (left s) = omega (arith, Splits-length s)
  Splits-length (right s) = omega (arith, Splits-length s)

  pub Splits-total :
      (f : A → ℕ) {xs ps bs : List A}
      → Splits xs ps bs
      → total (map f ps) + total (map f bs) ≡ total (map f xs)
  Splits-total f done = refl
  Splits-total f (left s) = omega (arith, Splits-total f s)
  Splits-total f (right s) = omega (arith, Splits-total f s)
