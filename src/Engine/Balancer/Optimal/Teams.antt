-- ===== src/Engine/Balancer/Optimal/Teams.antt =====
-- src/engine/balancer.rs: what `exhaustive_balance` guarantees of its result.
use matchmaker.Base.{
  ℕ, ◌≤◌, ◌≡◌, refl, sym, ◌∙◌, some, List, ◌++◌, map, Perm, arith, abs_diff, length, total, All,
  some-eq,
}
use matchmaker.Engine.Bucket.{max_skill_rating}
use matchmaker.Engine.Balancer.{BalanceResult, exhaustive_balance}
use matchmaker.Engine.Balancer.Splits.{Splits, flip, Splits-perm, Splits-length}
use matchmaker.Engine.Balancer.Optimal.{
  result, exhaustive_balance-result, best_wins, teams, team_a-five, best-a_sum, best-delta,
}

module _ {A : Type 0} (rating : A → ℕ) where
  -- Two teams that are made up of the players, with their figures.
  pub record IsBalanced (players : List A) (r : BalanceResult A) : Type 0 where
    pub split : Splits players r.team_a r.team_b
    pub five_a : length r.team_a ≡ 5
    pub five_b : length r.team_b ≡ 5
    pub delta : r.team_delta ≡ abs_diff (total (map rating r.team_a)) (total (map rating r.team_b))
    pub sum : r.total_rating ≡ total (map rating players)

module _ {A : Type 0} (rating : A → ℕ) (players : List A) (ten : length players ≡ 10)
    (valid : All (λ p. rating p ≤ max_skill_rating) players) where
  five_others : {ps bs : List A} → Splits players ps bs → length ps ≡ 5 → length bs ≡ 5
  five_others s five = omega (arith, Splits-length s)

  -- Ten players with valid ratings are split in two teams of five, each player in exactly one of
  -- them; `team_delta` is the difference of the two exact sums of ratings, and `total_rating` the
  -- exact sum of all ten.
  pub exhaustive_balance_teams :
      (r : BalanceResult A) × (exhaustive_balance rating players ≡ some r)
      × IsBalanced rating players r
      × Perm (r.team_a ++ r.team_b) players
  unfolding result
  exhaustive_balance_teams = (
    result rating players ten valid,
    exhaustive_balance-result rating players ten valid,
    record {
      split = teams rating players ten valid;
      five_a = team_a-five rating players ten valid;
      five_b = five_others (teams rating players ten valid) (team_a-five rating players ten valid);
      delta = best-delta rating players ten valid;
      sum = refl;
    },
    Splits-perm (teams rating players ten valid),
  )

  -- Of ten players with valid ratings: no split into five and five has a smaller difference than
  -- the result.
  pub exhaustive_balance_optimal :
      {r : BalanceResult A}
      → exhaustive_balance rating players ≡ some r
      → {ps bs : List A} → Splits players ps bs
      → length ps ≡ 5
      → r.team_delta ≤ abs_diff (total (map rating ps)) (total (map rating bs))
  unfolding result
  exhaustive_balance_optimal e s five = ground (
    arith,
    best_wins rating players ten valid s five,
    some-eq (sym e ∙ exhaustive_balance-result rating players ten valid),
  )

  -- Of ten players with valid ratings: among the splits into five and five with the least
  -- difference, team A of the result has the greatest sum; so team A is at least as strong as
  -- team B.
  pub exhaustive_balance_tie :
      {r : BalanceResult A}
      → exhaustive_balance rating players ≡ some r
      → {ps bs : List A} → Splits players ps bs
      → length ps ≡ 5
      → abs_diff (total (map rating ps)) (total (map rating bs)) ≡ r.team_delta
      → (total (map rating ps) ≤ total (map rating r.team_a))
        × (total (map rating r.team_b) ≤ total (map rating r.team_a))
  unfolding result
  exhaustive_balance_tie e s five least =
      let same = some-eq (sym e ∙ exhaustive_balance-result rating players ten valid) in
      let five_b =
        five_others (teams rating players ten valid) (team_a-five rating players ten valid) in
      ground (
        arith,
        same,
        best_wins rating players ten valid s five,
        best-a_sum rating players ten valid,
        best-delta rating players ten valid,
        best_wins rating players ten valid (flip (teams rating players ten valid)) five_b,
      )
