-- ===== src/Api/Averages.antt =====
-- src/metrics/mod.rs, src/api/mod.rs: what `GET /metrics` answers, over the whole run of the service.
use matchmaker.Engine.Bucket.{max_skill_rating}
use matchmaker.Base.{
  All-map, total-map_le, ℕ, ◌*◌, ◌/◌, ◌^◌, ◌<◌, ◌≡◌, arith, length, total, map, u64,
}
use matchmaker.Models.Player.{Instant}
use matchmaker.Models.Memory.{Heap}
use matchmaker.Models.Team.{unwrap_or}
use matchmaker.Metrics.{checked_div}
use matchmaker.Config.{Config}
use matchmaker.Engine.Bucket.Store.{ConcurrentMap}
use matchmaker.Engine.Balancer.{match_size}
use matchmaker.Workers.System.{System, Reachable}
use matchmaker.Workers.History.{formed_in, Reachable-IsRecorded}
use matchmaker.Api.{metrics_handler}

-- An average over words that hold a sum and a count exactly.
average_exact :
    (sum count s n : ℕ)
    → sum ≡ u64 s
    → count ≡ u64 n
    → s < 2 ^ 64
    → n < 2 ^ 64
    → 0 < n
    → unwrap_or 0 (checked_div sum count) ≡ s / n
average_exact sum count s n e f small few some_match =
    let exact : sum ≡ s = omega arith in
    let counted : count ≡ n = omega arith in rw (exact, counted) (ground arith)

module _ (S : ConcurrentMap) where
  -- After any calls of `enqueue` and `cancel`, attempts of workers and scans of the Reaper that follow each other as wholes, from the
  -- start of the service, with at least one match formed and fewer than 2^49, `GET
  -- /metrics` answers as the average team difference and the average skill spread those of all
  -- matches formed so far, rounded down, and as the number of matched players ten times the number
  -- of these matches.
  pub metrics_handler_averages :
      {heap : Heap} {now : Instant} {config : Config} {sys : System S}
      (run : Reachable S heap now config sys)
      → 0 < length (formed_in S run)
      → length (formed_in S run) < 2 ^ 49
      → let answer = metrics_handler S sys.core in
        let formed = formed_in S run in
        (answer.avg_team_delta ≡ total (map (λ m. m.team_delta) formed) / length formed)
        × (answer.avg_skill_spread ≡ total (map (λ m. m.skill_spread) formed) / length formed)
        × (answer.total_players_matched ≡ match_size * length formed)
  metrics_handler_averages run some_match few =
      let h = Reachable-IsRecorded S run in
      let formed = formed_in S run in
      let deltas =
        total-map_le (λ m. m.team_delta) 30000 formed (All-map _ _ (λ m k. k.0) formed h.small) in
      let spreads =
        total-map_le (λ m. m.skill_spread) max_skill_rating formed
          (All-map _ _ (λ m k. k.1) formed h.small) in
      (
        average_exact _ _ _ _ h.deltas h.deltas_counted (omega (arith, deltas)) (omega arith)
            some_match,
        average_exact _ _ _ _ h.spreads h.spreads_counted (omega (arith, spreads)) (omega arith)
            some_match,
        omega (arith, h.players),
      )
