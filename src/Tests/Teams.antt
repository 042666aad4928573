-- ===== src/Tests/Teams.antt =====
-- src/engine/balancer.rs: its theorems at ten concrete players.
use matchmaker.Engine.Balancer.{exhaustive_balance, BalanceResult}
use mathlib.Core.List.{Permᴰ}
use matchmaker.Engine.Balancer.Optimal.Lobby.{IsTen, exhaustive_balance_perm}
use matchmaker.Base.{
  All, length, total, map, Perm, ◌≡◌, ◌≤◌, ◌++◌, refl, some, List, [], ◌∷◌, arith, ℕ,
}
use matchmaker.Engine.Bucket.{max_skill_rating}
use matchmaker.Engine.Balancer.Splits.{done, right, left, Splits}
use matchmaker.Engine.Balancer.Optimal.Teams.{
  IsBalanced, exhaustive_balance_teams, exhaustive_balance_optimal,
}

abbrev ratings : List ℕ
ratings = 1000 ∷ 1100 ∷ 1200 ∷ 1300 ∷ 1400 ∷ 1500 ∷ 1600 ∷ 1700 ∷ 1800 ∷ 2900 ∷ []

abbrev itself : ℕ → ℕ
itself r = r

abbrev halves :
    Splits ratings (1000 ∷ 1200 ∷ 1400 ∷ 1600 ∷ 1800 ∷ []) (1100 ∷ 1300 ∷ 1500 ∷ 1700 ∷ 2900 ∷ [])
halves = left (right (left (right (left (right (left (right (left (right done)))))))))

ratings-valid : All (λ r. itself r ≤ max_skill_rating) ratings
ratings-valid = (
  omega arith,
  (
    omega arith,
    (
      omega arith,
      (
        omega arith,
        (
          omega arith,
          (omega arith, (omega arith, (omega arith, (omega arith, (omega arith, tt))))),
        ),
      ),
    ),
  ),
)

exhaustive_balance_teams_example :
    (x : BalanceResult ℕ) × exhaustive_balance itself ratings ≡ some x
    × IsBalanced {A = ℕ} itself ratings x
    × Perm (x.team_a ++ x.team_b) ratings
exhaustive_balance_teams_example = exhaustive_balance_teams itself ratings refl ratings-valid

exhaustive_balance_optimal_example :
    (exhaustive_balance_teams itself ratings (refl {A = ℕ} {a = 10}) ratings-valid).0.team_delta
    ≤ 1500
exhaustive_balance_optimal_example =
    exhaustive_balance_optimal itself ratings refl ratings-valid
      (exhaustive_balance_teams itself ratings refl ratings-valid).1 halves refl

-- The same ten, the first two the other way round.
abbrev others : List ℕ
others = 1100 ∷ 1000 ∷ 1200 ∷ 1300 ∷ 1400 ∷ 1500 ∷ 1600 ∷ 1700 ∷ 1800 ∷ 2900 ∷ []

ratings-IsTen : IsTen itself ratings
ratings-IsTen = record { ten = refl; valid = ratings-valid }

others-IsTen : IsTen itself others
others-IsTen = record {
  ten = refl;
  valid = (ratings-valid.1.0, (ratings-valid.0, ratings-valid.1.1));
}

exhaustive_balance_perm_example :
    (exhaustive_balance_teams itself others
        (refl {A = ℕ} {a = length others})
        others-IsTen.valid).0.team_delta
      ≡ (exhaustive_balance_teams itself ratings
          (refl {A = ℕ} {a = length ratings})
          ratings-valid).0.team_delta
    × (exhaustive_balance_teams itself others
        (refl {A = ℕ} {a = length others})
        others-IsTen.valid).0.total_rating
      ≡ (exhaustive_balance_teams itself ratings
          (refl {A = ℕ} {a = length ratings})
          ratings-valid).0.total_rating
    × total (
        map itself
          (exhaustive_balance_teams itself others
            (refl {A = ℕ} {a = length others})
            others-IsTen.valid).0.team_a)
      ≡ total (
          map itself
            (exhaustive_balance_teams itself ratings
              (refl {A = ℕ} {a = length ratings})
              ratings-valid).0.team_a)
    × total (
        map itself
          (exhaustive_balance_teams itself others
            (refl {A = ℕ} {a = length others})
            others-IsTen.valid).0.team_b)
      ≡ total (
          map itself
            (exhaustive_balance_teams itself ratings
              (refl {A = ℕ} {a = length ratings})
              ratings-valid).0.team_b)
exhaustive_balance_perm_example =
    exhaustive_balance_perm itself ratings-IsTen others-IsTen
      (exhaustive_balance_teams itself ratings refl ratings-valid).1
      (exhaustive_balance_teams itself others refl others-IsTen.valid).1 ∣ Permᴰ.swap refl refl ∣₁
