-- ===== src/Engine/Balancer/Optimal.antt =====
-- src/engine/balancer.rs: `exhaustive_balance` splits ten players in two teams of five, and no
-- split has a smaller difference.
pub mod Teams
pub mod Lobby
use matchmaker.Base.{
  sum_u32, wrapping_sum_exact, ℕ, ◌+◌, ◌/◌, ◌^◌, ◌≤◌, ◌<◌, ◌≡◌, refl, sym, ap, ◌∙◌, subst, ◌⊎◌, inl,
  inr, some, List, [], ◌∷◌, map, arith, abs_diff, length, total, All, take_all, total-map_le, u32,
}
use matchmaker.Engine.Bucket.{max_skill_rating}
use matchmaker.Engine.Balancer.{
  Best, BalanceResult, team_size, no_best, a_sum_of, delta_of, count_ones, best_of,
  exhaustive_balance,
}
use matchmaker.Engine.Balancer.Splits.{Splits, flip, Splits-total}
use matchmaker.Engine.Balancer.Masks.{
  chosen, others, picked-chosen, deal-chosen, split_of, mask_of, mask_of-lt, chosen-mask_of,
  count_ones-chosen,
}
use matchmaker.Engine.Balancer.Search.{NoWorse, search-NoWorse, search-IsFound}

chosen-map :
    {A : Type 0} (f : A → ℕ) (m : ℕ) (xs : List A) → chosen m (map f xs) ≡ map f (chosen m xs)
chosen-map f m [] = refl
chosen-map f m (x ∷ xs) = ground (arith, chosen-map f (m / 2) xs)

module _ {A : Type 0} (rating : A → ℕ) (players : List A) (ten : length players ≡ 10)
    (valid : All (λ p. rating p ≤ max_skill_rating) players) where
  abbrev sum_of : List A → ℕ
  sum_of xs = total (map rating xs)

  abbrev ratings : List ℕ
  ratings = map rating players

  sum-le : sum_of players ≤ 30000
  sum-le = omega (arith, total-map_le rating max_skill_rating players valid)

  sum_u32-ratings : sum_u32 ratings ≡ sum_of players
  sum_u32-ratings = wrapping_sum_exact 32 ratings (omega (arith, sum-le))

  a_sum_of-chosen : (mask : ℕ) → a_sum_of ratings mask ≡ sum_of (chosen mask players)
  a_sum_of-chosen mask =
      rw (picked-chosen mask ratings, chosen-map rating mask players)
        (wrapping_sum_exact 32 (map rating (chosen mask players))
          (omega (arith, sum-le, Splits-total rating (split_of mask players))))

  delta_of-split :
      {ps bs : List A} (s : Splits players ps bs)
      → delta_of (sum_u32 ratings) (sum_of ps) ≡ abs_diff (sum_of ps) (sum_of bs)
  delta_of-split s = rw sum_u32-ratings (ground (arith, sum-le, Splits-total rating s))

  five-mask : (mask : ℕ) → mask < 1024 → count_ones mask ≡ length (chosen mask players)
  five-mask mask lt = count_ones-chosen mask players (rw ten lt) (omega arith)

  best : Best
  best = best_of rating players

  best-NoWorse :
      (mask : ℕ)
      → mask < 1024
      → count_ones mask ≡ team_size
      → NoWorse ratings (sum_u32 ratings) best mask
  unfolding best best_of
  best-NoWorse mask lt five =
      search-NoWorse ratings (sum_u32 ratings) 1024 0 mask no_best (omega arith) (omega arith) five

  -- Against any split into five and five.
  best_wins :
      {ps bs : List A} (s : Splits players ps bs)
      → length ps ≡ 5
      → (best.delta < abs_diff (sum_of ps) (sum_of bs))
        ⊎ ((best.delta ≡ abs_diff (sum_of ps) (sum_of bs)) × (sum_of ps ≤ best.a_sum))
  best_wins {ps} {bs} s five = ground (
    arith,
    delta_of-split s,
    a_sum_of-chosen (mask_of s),
    ap sum_of (chosen-mask_of s),
    ap (delta_of (sum_u32 ratings)) (a_sum_of-chosen (mask_of s) ∙ ap sum_of (chosen-mask_of s)),
    best-NoWorse (mask_of s) (subst (λ n. mask_of s < 2 ^ n) ten (mask_of-lt s)) (
        five-mask (mask_of s) (subst (λ n. mask_of s < 2 ^ n) ten (mask_of-lt s))
        ∙ ap length (chosen-mask_of s)
        ∙ five),
  )

  sum_of-le : {ps bs : List A} → Splits players ps bs → sum_of ps ≤ 30000
  sum_of-le s = omega (arith, sum-le, Splits-total rating s)

  -- The first five bits are a mask to start from.
  lowest : Splits players (chosen 31 players) (others 31 players)
  lowest = split_of 31 players

  lowest-five : length (chosen 31 players) ≡ 5
  unfolding count_ones
  lowest-five = sym (five-mask 31 (omega arith))

  best-IsFound :
      (count_ones best.mask ≡ team_size)
      × (best.mask < 1024)
      × (best.delta ≡ delta_of (sum_u32 ratings) (a_sum_of ratings best.mask))
      × (best.a_sum ≡ a_sum_of ratings best.mask)
  unfolding best best_of
  best-IsFound = elim (search-IsFound ratings (sum_u32 ratings) 1024 0 no_best (inl refl)) [
    | inl e ↦ absurd (
        ground (
          arith,
          ap (λ (b : Best). b.delta) e,
          best_wins lowest lowest-five,
          sum_of-le lowest,
          sum_of-le (flip lowest),
        ))
    | inr h ↦ h
  ]

  team_a : List A
  team_a = chosen best.mask players

  team_b : List A
  team_b = others best.mask players

  teams : Splits players team_a team_b
  unfolding team_a team_b
  teams = split_of best.mask players

  team_a-five : length team_a ≡ 5
  unfolding team_a
  team_a-five = sym (five-mask best.mask best-IsFound.1) ∙ best-IsFound.0

  best-a_sum : best.a_sum ≡ sum_of team_a
  unfolding team_a
  best-a_sum = best-IsFound.3 ∙ a_sum_of-chosen best.mask

  best-delta : best.delta ≡ abs_diff (sum_of team_a) (sum_of team_b)
  unfolding team_a
  best-delta =
      best-IsFound.2
      ∙ ap (delta_of (sum_u32 ratings)) (a_sum_of-chosen best.mask)
      ∙ delta_of-split teams

  pub result : BalanceResult A
  unfolding best
  result = record {
    team_a = team_a;
    team_b = team_b;
    team_delta = best.delta;
    total_rating = sum_of players;
  }

  pub exhaustive_balance-result : exhaustive_balance rating players ≡ some result
  unfolding exhaustive_balance result best team_a team_b
  exhaustive_balance-result = rw (
    ten,
    take_all 10 players (omega (arith, ten)),
    deal-chosen best.mask players,
    sum_u32-ratings,
  )
