-- ===== src/Models/Memory/Held.antt =====
-- Lists of distinct references that are appended.
use matchmaker.Base.{◌≡◌, refl, true, false, ◌||◌, List, [], ◌∷◌, ◌++◌, arith}
use matchmaker.Models.Memory.{Ref, is_held, Distinct}

pub is_held-append :
    (r : Ref) (xs ys : List Ref) → is_held r (xs ++ ys) ≡ (is_held r xs || is_held r ys)
is_held-append r [] ys = refl
is_held-append r (x ∷ xs) ys = ground (arith, is_held-append r xs ys)

-- Distinct references, none of which stands in the other list.
pub Distinct-append :
    (xs ys : List Ref)
    → Distinct xs
    → Distinct ys
    → ((r : Ref) → is_held r xs ≡ true → is_held r ys ≡ false)
    → Distinct (xs ++ ys)
Distinct-append [] ys d e apart = e
Distinct-append (x ∷ xs) ys d e apart = (
  ground (arith, is_held-append x xs ys, apart x, d.0),
  Distinct-append xs ys d.1 e (λ r h. apart r (ground arith)),
)

pub Distinct-snoc :
    (r : Ref) (xs : List Ref) → Distinct xs → is_held r xs ≡ false → Distinct (xs ++ r ∷ [])
Distinct-snoc r xs d h = Distinct-append xs (r ∷ []) d (refl, tt) (λ q k. ground arith)

pub Distinct-init :
    (r : Ref) (xs : List Ref) → Distinct (xs ++ r ∷ []) → Distinct xs × (is_held r xs ≡ false)
Distinct-init r [] d = (tt, refl)
Distinct-init r (x ∷ xs) d =
    let (rest, apart) = Distinct-init r xs d.1 in
    (
      (ground (arith, d.0, is_held-append x xs (r ∷ [])), rest),
      ground (arith, d.0, is_held-append x xs (r ∷ []), apart),
    )
