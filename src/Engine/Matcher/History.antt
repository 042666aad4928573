-- ===== src/Engine/Matcher/History.antt =====
-- src/engine/matcher.rs: the bounded match history.
use matchmaker.Base.{
  sym, sym, ℕ, zero, suc, ◌+◌, ◌-◌, ◌≤◌, ◌≡◌, refl, ◌∙◌, ap, List, [], ◌∷◌, ◌++◌, arith, length,
  drop, length-append, length-drop, Bool-cases, inl, inr, ltb, ltb→lt,
}
use matchmaker.Models.Match.{Match}
use matchmaker.Engine.Matcher.{evict_oldest}

-- The last `limit` elements.
abbrev pub last_of : ℕ → List Match → List Match
last_of limit ms = drop (length ms - limit) ms

drop-suc :
    (limit : ℕ) (m : Match) (ms : List Match)
    → limit ≤ length ms
    → drop (suc (length ms) - limit) (m ∷ ms) ≡ drop (length ms - limit) ms
drop-suc limit m ms h =
    let e : suc (length ms) - limit ≡ suc (length ms - limit) = omega (arith, h) in rw e refl

drop_none : (n : ℕ) (ms : List Match) → n ≡ 0 → drop n ms ≡ ms
drop_none n ms e = rw e refl

-- The loop that cuts the history keeps its last `limit` records.
pub evict_oldest-last_of : (limit : ℕ) (ms : List Match) → evict_oldest limit ms ≡ last_of limit ms
unfolding evict_oldest
evict_oldest-last_of limit [] = sym (drop_none _ [] (omega arith))
evict_oldest-last_of limit (m ∷ ms) = elim (Bool-cases (ltb limit (length (m ∷ ms)))) [
  | inl b ↦
      let h = ltb→lt _ _ b in
      rw b (evict_oldest-last_of limit ms ∙ sym (drop-suc limit m ms (omega (arith, h))))
  | inr b ↦ rw b (sym (drop_none _ (m ∷ ms) (ground (arith, b))))
]

drop-append : (n : ℕ) (xs ys : List Match) → n ≤ length xs → drop n (xs ++ ys) ≡ drop n xs ++ ys
drop-append zero xs ys h = refl
drop-append (suc n) [] ys h = absurd (omega (arith, h))
drop-append (suc n) (x ∷ xs) ys h = drop-append n xs ys (omega (arith, h))

drop_nil : (n : ℕ) → drop {A = Match} n [] ≡ []
drop_nil zero = refl
drop_nil (suc n) = refl

drop-drop : (a b n : ℕ) (xs : List Match) → n ≡ b + a → drop a (drop b xs) ≡ drop n xs
drop-drop a zero n xs e = ap (λ k. drop k xs) (omega (arith, e))
drop-drop a (suc b) n [] e = drop_nil a ∙ sym (drop_nil n)
drop-drop a (suc b) zero (x ∷ xs) e = absurd (omega (arith, e))
drop-drop a (suc b) (suc n) (x ∷ xs) e = drop-drop a b n xs (omega (arith, e))

-- Pushing a match and cutting the history to the limit keeps the last `limit` of all the matches
-- that were ever pushed.
pub evict_oldest-push :
    (limit : ℕ) (all : List Match) (m : Match)
    → evict_oldest limit (last_of limit all ++ m ∷ []) ≡ last_of limit (all ++ m ∷ [])
evict_oldest-push limit all m =
    evict_oldest-last_of limit (last_of limit all ++ m ∷ [])
    ∙ ap (drop (length (last_of limit all ++ m ∷ []) - limit))
        (sym (drop-append (length all - limit) all (m ∷ []) (omega arith)))
    ∙ drop-drop _ (length all - limit) _ (all ++ m ∷ []) (
        omega (
          arith,
          length-append all (m ∷ []),
          length-append (last_of limit all) (m ∷ []),
          length-drop (length all - limit) all,
        ))
