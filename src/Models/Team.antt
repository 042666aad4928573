-- ===== src/Models/Team.antt =====
-- src/models/mod.rs: `PlayerSnapshot` and `Team`.
use matchmaker.Base.{ℕ, Option, none, some, List, map, length, sum_u32}
use matchmaker.Models.Player.{Uuid, Instant, Player, matched_wait_ms, wait_ms}

pub record PlayerSnapshot : Type 0 where
  pub id : Uuid
  pub skill_rating : ℕ
  pub wait_ms : ℕ

abbrev pub unwrap_or {ℓ} : {A : Type ℓ} → A → Option A → A
unwrap_or default none = default
unwrap_or default (some a) = a

-- How long the player waited for its match, or has waited up to `now` if it has none.
pub waited_ms : Instant → Player → ℕ
waited_ms now p = unwrap_or (wait_ms now p) (matched_wait_ms p)

unfoldable pub capture : Instant → Player → PlayerSnapshot
capture now p = record { id = p.id; skill_rating = p.skill_rating; wait_ms = waited_ms now p }

-- The `f32` quotient of two integers, not evaluated: nothing in the program reads it back.
pub record Quotient : Type 0 where
  pub dividend : ℕ
  pub divisor : ℕ

pub record Team : Type 0 where
  pub players : List PlayerSnapshot
  pub total_rating : ℕ
  pub avg_rating : Quotient

abbrev pub ratings_of : List PlayerSnapshot → List ℕ
ratings_of = map λ p. p.skill_rating

unfoldable pub new : List PlayerSnapshot → Team
new players =
    let total_rating = sum_u32 (ratings_of players) in
    record {
      players = players;
      total_rating = total_rating;
      avg_rating = record { dividend = total_rating; divisor = length players };
    }
