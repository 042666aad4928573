-- ===== src/Engine/Balancer.antt =====
-- src/engine/balancer.rs: the search for the best split of ten players. The players are any type
-- with a rating, which stands for an `Arc<Player>` and the field `skill_rating` behind it.
pub mod Splits
pub mod Masks
pub mod Search
pub mod Optimal
use matchmaker.Base.{
  ℕ, zero, suc, ◌+◌, ◌*◌, ◌/◌, ◌%◌, ◌^◌, Bool, ◌&&◌, ◌||◌, Option, none, some, List, [], ◌∷◌, map,
  u32, abs_diff, ltb, ◌==◌, sum_u32, if◌then◌else◌, length, take,
}

abbrev pub match_size : ℕ
match_size = 10

abbrev pub team_size : ℕ
team_size = 5

pub record BalanceResult (A : Type 0) : Type 0 where
  pub team_a : List A
  pub team_b : List A
  pub team_delta : ℕ
  pub total_rating : ℕ

-- `(mask >> i) & 1 == 1`.
pub bit : ℕ → ℕ → Bool
bit mask i = mask / 2 ^ i % 2 == 1

-- The set bits among the lowest ones.
bits_set : ℕ → ℕ → ℕ
bits_set zero mask = 0
bits_set (suc n) mask = mask % 2 + bits_set n (mask / 2)

-- `u16::count_ones`.
pub count_ones : ℕ → ℕ
unfolding bits_set
count_ones mask = bits_set 16 mask

-- The elements at the indices, from `i` on, whose bit is set.
pub picked {ℓ} : {A : Type ℓ} → ℕ → ℕ → List A → List A
picked mask i [] = []
picked mask i (x ∷ xs) = let rest = picked mask (suc i) xs in if bit mask i then x ∷ rest else rest

-- The best mask so far.
pub record Best : Type 0 where
  pub mask : ℕ
  pub delta : ℕ
  pub a_sum : ℕ

abbrev pub a_sum_of : List ℕ → ℕ → ℕ
a_sum_of ratings mask = sum_u32 (picked mask 0 ratings)

abbrev pub delta_of : ℕ → ℕ → ℕ
delta_of total_sum a_sum = abs_diff (u32 (2 * a_sum)) total_sum

-- The body of the loop, for a mask with five bits.
pub update_best : ℕ → ℕ → ℕ → Best → Best
update_best total_sum mask a_sum best =
    let delta = delta_of total_sum a_sum in
    if ltb delta best.delta || (delta == best.delta && ltb best.a_sum a_sum)
    then record { mask = mask; delta = delta; a_sum = a_sum }
    else best

pub consider : List ℕ → ℕ → ℕ → Best → Best
unfolding update_best
consider ratings total_sum mask best =
    let updated = update_best total_sum mask (a_sum_of ratings mask) best in
    if count_ones mask == team_size then updated else best

-- `rounds` rounds of the loop over the masks, from `mask` on.
pub search_masks : List ℕ → ℕ → ℕ → ℕ → Best → Best
search_masks ratings total_sum zero mask best = best
search_masks ratings total_sum (suc rounds) mask best =
    search_masks ratings total_sum rounds (suc mask) (consider ratings total_sum mask best)

abbrev pub no_best : Best
no_best = record { mask = 0; delta = 4294967295; a_sum = 0 }

-- The teams of a mask: the players whose bit is set, and the others.
pub deal {ℓ} : {A : Type ℓ} → ℕ → ℕ → List A → List A × List A
deal mask i [] = ([], [])
deal mask i (x ∷ xs) =
    let rest = deal mask (suc i) xs in
    if bit mask i then (x ∷ rest.0, rest.1) else (rest.0, x ∷ rest.1)

module _ {A : Type 0} (rating : A → ℕ) where
  pub best_of : List A → Best
  best_of players =
      let ratings = map rating players in search_masks ratings (sum_u32 ratings) 1024 0 no_best

  balance_ten : List A → BalanceResult A
  balance_ten players =
      let best = best_of players in
      let teams = deal best.mask 0 players in
      record {
        team_a = teams.0;
        team_b = teams.1;
        team_delta = best.delta;
        total_rating = sum_u32 (map rating players);
      }

  -- `none` is the panic on an index out of range; of more than ten players the first ten are used.
  pub exhaustive_balance : List A → Option (BalanceResult A)
  unfolding balance_ten
  exhaustive_balance players =
      if ltb (length players) match_size then none else some (balance_ten (take match_size players))
