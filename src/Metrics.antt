-- ===== src/Metrics.antt =====
-- src/metrics/mod.rs: the counters, as the words that the atomics hold. `current_queue_size` is an
-- `AtomicI64`: its word is read in two's complement.
use matchmaker.Base.{ℕ, ◌/◌, Option, none, some, ◌==◌, if◌then◌else◌}
use matchmaker.Models.Team.{unwrap_or}

pub record Metrics : Type 0 where
  pub total_players_enqueued : ℕ
  pub total_players_cancelled : ℕ
  pub total_matches_created : ℕ
  pub total_players_matched : ℕ
  pub match_attempts_insufficient : ℕ
  pub match_attempts_claim_failed : ℕ
  pub worker_cycles_total : ℕ
  pub total_stale_claims_recovered : ℕ
  pub current_queue_size : ℕ
  pub total_wait_time_ms : ℕ
  pub skill_spread_sum : ℕ
  pub skill_spread_count : ℕ
  pub team_delta_sum : ℕ
  pub team_delta_count : ℕ

abbrev pub new : Metrics
new = record {
  total_players_enqueued = 0;
  total_players_cancelled = 0;
  total_matches_created = 0;
  total_players_matched = 0;
  match_attempts_insufficient = 0;
  match_attempts_claim_failed = 0;
  worker_cycles_total = 0;
  total_stale_claims_recovered = 0;
  current_queue_size = 0;
  total_wait_time_ms = 0;
  skill_spread_sum = 0;
  skill_spread_count = 0;
  team_delta_sum = 0;
  team_delta_count = 0;
}

pub record MetricsSnapshot : Type 0 where
  pub total_players_enqueued : ℕ
  pub total_players_cancelled : ℕ
  pub total_matches_created : ℕ
  pub total_players_matched : ℕ
  pub match_attempts_insufficient : ℕ
  pub match_attempts_claim_failed : ℕ
  pub worker_cycles_total : ℕ
  pub total_stale_claims_recovered : ℕ
  pub current_queue_size : ℕ
  pub total_wait_time_ms : ℕ
  pub avg_wait_ms : ℕ
  pub avg_skill_spread : ℕ
  pub avg_team_delta : ℕ

abbrev pub checked_div : ℕ → ℕ → Option ℕ
checked_div a b = if b == 0 then none else some (a / b)

-- With no other task between its loads.
abbrev pub snapshot : Metrics → MetricsSnapshot
snapshot m = record {
  total_players_enqueued = m.total_players_enqueued;
  total_players_cancelled = m.total_players_cancelled;
  total_matches_created = m.total_matches_created;
  total_players_matched = m.total_players_matched;
  match_attempts_insufficient = m.match_attempts_insufficient;
  match_attempts_claim_failed = m.match_attempts_claim_failed;
  worker_cycles_total = m.worker_cycles_total;
  total_stale_claims_recovered = m.total_stale_claims_recovered;
  current_queue_size = m.current_queue_size;
  total_wait_time_ms = m.total_wait_time_ms;
  avg_wait_ms = unwrap_or 0 (checked_div m.total_wait_time_ms m.total_players_matched);
  avg_skill_spread = unwrap_or 0 (checked_div m.skill_spread_sum m.skill_spread_count);
  avg_team_delta = unwrap_or 0 (checked_div m.team_delta_sum m.team_delta_count);
}
