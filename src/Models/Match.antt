-- ===== src/Models/Match.antt =====
-- src/models/mod.rs: `Match`. The random identifier and the time of day are arguments.
use matchmaker.Base.{ℕ, abs_diff}
use matchmaker.Models.Player.{Uuid}
use matchmaker.Models.Team.{Team}

pub record Match : Type 0 where
  pub match_id : Uuid
  pub team_a : Team
  pub team_b : Team
  pub team_delta : ℕ
  pub skill_spread : ℕ
  pub avg_wait_ms : ℕ
  pub max_wait_ms : ℕ
  pub formed_at_unix : ℕ

unfoldable pub new : Uuid → Team → Team → ℕ → ℕ → ℕ → ℕ → Match
new match_id team_a team_b skill_spread avg_wait_ms max_wait_ms formed_at_unix = record {
  match_id = match_id;
  team_a = team_a;
  team_b = team_b;
  team_delta = abs_diff team_a.total_rating team_b.total_rating;
  skill_spread = skill_spread;
  avg_wait_ms = avg_wait_ms;
  max_wait_ms = max_wait_ms;
  formed_at_unix = formed_at_unix;
}
