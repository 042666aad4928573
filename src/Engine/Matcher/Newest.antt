-- ===== src/Engine/Matcher/Newest.antt =====
-- src/engine/mod.rs, `recent_matches`: the newest matches of a history that keeps only the last ones.
use mathlib.Core.List.{reverse, reverse-append, reverse-cons}
use matchmaker.Base.{
  ℕ, zero, suc, ◌-◌, ◌≤◌, ◌≡◌, refl, ◌∙◌, ap, sym, List, [], ◌∷◌, ◌++◌, arith, length, take, drop,
  min, length-append, length-drop, Bool-cases, leb, inl, inr,
}
use matchmaker.Models.Match.{Match}
use matchmaker.Engine.Matcher.History.{last_of}

take_nil : (n : ℕ) → take {A = Match} n [] ≡ []
take_nil zero = refl
take_nil (suc n) = refl

take-append :
    (w limit : ℕ) (ys zs : List Match)
    → length ys ≡ limit
    → take (min w limit) (ys ++ zs) ≡ take w ys
take-append w zero [] zs e = let h : min w 0 ≡ 0 = omega arith in rw h (sym (take_nil w))
take-append w (suc n) [] zs e = absurd (omega (arith, e))
take-append w zero (y ∷ ys) zs e = absurd (omega (arith, e))
take-append zero (suc n) (y ∷ ys) zs e = let h : min 0 (suc n) ≡ 0 = omega arith in rw h refl
take-append (suc w) (suc n) (y ∷ ys) zs e =
    let h : min (suc w) (suc n) ≡ suc (min w n) = omega arith in
    rw h (ap (λ xs. y ∷ xs) (take-append w n ys zs (omega (arith, e))))

take-min : (w limit : ℕ) (ys : List Match) → length ys ≤ limit → take (min w limit) ys ≡ take w ys
take-min w limit [] e = take_nil _ ∙ sym (take_nil w)
take-min w zero (y ∷ ys) e = absurd (omega (arith, e))
take-min zero (suc n) (y ∷ ys) e = let h : min 0 (suc n) ≡ 0 = omega arith in rw h refl
take-min (suc w) (suc n) (y ∷ ys) e =
    let h : min (suc w) (suc n) ≡ suc (min w n) = omega arith in
    rw h (ap (λ xs. y ∷ xs) (take-min w n ys (omega (arith, e))))

length-reverse : (xs : List Match) → length (reverse xs) ≡ length xs
length-reverse [] = refl
length-reverse (x ∷ xs) =
    ap length (reverse-cons x xs)
    ∙ omega (arith, length-append (reverse xs) (x ∷ []), length-reverse xs)

take-append-drop : (n : ℕ) (xs : List Match) → take n xs ++ drop n xs ≡ xs
take-append-drop zero xs = refl
take-append-drop (suc n) [] = refl
take-append-drop (suc n) (x ∷ xs) = ap (λ ys. x ∷ ys) (take-append-drop n xs)

-- The newest of the last `limit` are the newest of all, up to `limit` of them.
pub newest-last_of :
    (w limit : ℕ) (all : List Match)
    → take w (reverse (last_of limit all)) ≡ take (min w limit) (reverse all)
newest-last_of w limit all = elim (Bool-cases (leb (length all) limit)) [
  | inl short ↦
      let none_cut : length all - limit ≡ 0 = ground arith in
      rw none_cut (sym (take-min w limit (reverse all) (ground (arith, length-reverse all))))
  | inr long ↦ sym (
      ap (take (min w limit)) (
        ap reverse (sym (take-append-drop (length all - limit) all))
        ∙ reverse-append (take (length all - limit) all) (last_of limit all))
      ∙ take-append w limit (reverse (last_of limit all)) _ (
          ground (arith, length-reverse (last_of limit all), length-drop (length all - limit) all)))
]
