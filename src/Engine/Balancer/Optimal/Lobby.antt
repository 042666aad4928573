-- ===== src/Engine/Balancer/Optimal/Lobby.antt =====
-- src/engine/balancer.rs: what does not depend on the order in which the ten players come.
use mathlib.Core.Logic.{∥∥₁_elim}
use mathlib.Core.List.Permᴰ as PermD
use mathlib.Core.List.{Permᴰ}
use native.Mathlib.Nat.{ℕ_set}
use matchmaker.Base.{
  ℕ, subst, some-eq, ◌≤◌, ◌≡◌, refl, sym, ap, ◌∙◌, some, List, [], ◌∷◌, map, Perm, arith, length,
  total, All,
}
use matchmaker.Engine.Bucket.{max_skill_rating}
use matchmaker.Engine.Balancer.{BalanceResult, exhaustive_balance}
use matchmaker.Engine.Balancer.Splits.{Splits, done, left, right, Splits-total}
use matchmaker.Engine.Balancer.Optimal.Teams.{
  IsBalanced, exhaustive_balance_teams, exhaustive_balance_optimal, exhaustive_balance_tie,
}

module _ {A : Type 0} (rating : A → ℕ) where
  -- A split with parts of the same sizes and sums.
  abbrev Like : List A → List A → List A → Type 0
  Like ys ps bs =
      (ps' : List A) × (bs' : List A) × Splits ys ps' bs'
      × (length ps' ≡ length ps)
      × (total (map rating ps') ≡ total (map rating ps))
      × (total (map rating bs') ≡ total (map rating bs))

  Splits-Permᴰ : {xs ys : List A} → Permᴰ xs ys → {ps bs : List A} → Splits xs ps bs → Like ys ps bs
  Splits-Permᴰ Permᴰ.nil done = ([], [], done, refl, refl, refl)
  Splits-Permᴰ (Permᴰ.cons {b = b} e d) (left s) =
      let (ps, bs, t, n, p, q) = Splits-Permᴰ d s in
      (b ∷ ps, bs, left t, omega (arith, n), omega (arith, p, ap rating e), q)
  Splits-Permᴰ (Permᴰ.cons {b = b} e d) (right s) =
      let (ps, bs, t, n, p, q) = Splits-Permᴰ d s in
      (ps, b ∷ bs, right t, n, p, omega (arith, q, ap rating e))
  Splits-Permᴰ (Permᴰ.swap e f) (left (left s)) =
      (_, _, left (left s), refl, omega (arith, ap rating e, ap rating f), refl)
  Splits-Permᴰ (Permᴰ.swap e f) (left (right s)) =
      (_, _, right (left s), refl, omega (arith, ap rating e), omega (arith, ap rating f))
  Splits-Permᴰ (Permᴰ.swap e f) (right (left s)) =
      (_, _, left (right s), refl, omega (arith, ap rating f), omega (arith, ap rating e))
  Splits-Permᴰ (Permᴰ.swap e f) (right (right s)) =
      (_, _, right (right s), refl, refl, omega (arith, ap rating e, ap rating f))
  Splits-Permᴰ (Permᴰ.trans c d) s =
      let (ps, bs, t, n, p, q) = Splits-Permᴰ c s in
      let (ps', bs', t', n', p', q') = Splits-Permᴰ d t in (ps', bs', t', n' ∙ n, p' ∙ p, q' ∙ q)

  Permᴰ-total : {xs ys : List A} → Permᴰ xs ys → total (map rating ys) ≡ total (map rating xs)
  Permᴰ-total Permᴰ.nil = refl
  Permᴰ-total (Permᴰ.cons e d) = omega (arith, ap rating e, Permᴰ-total d)
  Permᴰ-total (Permᴰ.swap e f) = omega (arith, ap rating e, ap rating f)
  Permᴰ-total (Permᴰ.trans c d) = Permᴰ-total d ∙ Permᴰ-total c

  -- Ten players with valid ratings.
  pub record IsTen (players : List A) : Type 0 where
    pub ten : length players ≡ 10
    pub valid : All (λ p. rating p ≤ max_skill_rating) players

  module _ {xs ys : List A} (h : IsTen xs) (k : IsTen ys) {r q : BalanceResult A}
      (e : exhaustive_balance rating xs ≡ some r) (f : exhaustive_balance rating ys ≡ some q) where
    balanced : IsBalanced rating ys q
    balanced =
        let (q', f', b, _) = exhaustive_balance_teams rating ys k.ten k.valid in
        subst (IsBalanced rating ys) (some-eq (sym f' ∙ f)) b

    difference-le : Permᴰ ys xs → r.team_delta ≤ q.team_delta
    difference-le d =
        let (ps, bs, s, n, a, b) = Splits-Permᴰ d balanced.split in
        rw (balanced.delta, ← a, ← b)
          (exhaustive_balance_optimal rating xs h.ten h.valid e s (n ∙ balanced.five_a))

    sum-le :
        r.team_delta ≡ q.team_delta
        → Permᴰ ys xs
        → total (map rating q.team_a) ≤ total (map rating r.team_a)
    sum-le same d =
        let (ps, bs, s, n, a, b) = Splits-Permᴰ d balanced.split in
        rw (← a)
          (exhaustive_balance_tie rating xs h.ten h.valid e s (n ∙ balanced.five_a)
            (rw (a, b) (sym balanced.delta ∙ sym same))).0

  module _ {xs ys : List A} (h : IsTen xs) (k : IsTen ys) {r q : BalanceResult A}
      (e : exhaustive_balance rating xs ≡ some r) (f : exhaustive_balance rating ys ≡ some q) where
    -- What an order of the players does not change.
    abbrev SameFigures : Type 0
    SameFigures =
        (q.team_delta ≡ r.team_delta)
        × (q.total_rating ≡ r.total_rating)
        × (total (map rating q.team_a) ≡ total (map rating r.team_a))
        × (total (map rating q.team_b) ≡ total (map rating r.team_b))

    same_figures : Permᴰ xs ys → SameFigures
    same_figures d =
        let b = balanced h k e f in
        let c = balanced k h f e in
        let delta : q.team_delta ≡ r.team_delta =
          omega (arith, difference-le h k e f (PermD.symm d), difference-le k h f e d) in
        let a : total (map rating q.team_a) ≡ total (map rating r.team_a) =
          omega (arith, sum-le h k e f (sym delta) (PermD.symm d), sum-le k h f e delta d) in
        (
          delta,
          omega (arith, b.sum, c.sum, Permᴰ-total d),
          a,
          omega (arith, a, Splits-total rating b.split, Splits-total rating c.split, Permᴰ-total d),
        )

    SameFigures-prop : IsProp SameFigures
    SameFigures-prop = hlevel ℕ_set

    -- Two runs on the same ten players with valid ratings, in any two orders, end with the same
    -- difference and the same total, and with teams of the same sums of ratings. (Which players
    -- make up a team may depend on the order.)
    pub exhaustive_balance_perm :
        Perm xs ys
        → (q.team_delta ≡ r.team_delta)
          × (q.total_rating ≡ r.total_rating)
          × (total (map rating q.team_a) ≡ total (map rating r.team_a))
          × (total (map rating q.team_b) ≡ total (map rating r.team_b))
    exhaustive_balance_perm d = ∥∥₁_elim d SameFigures-prop same_figures
