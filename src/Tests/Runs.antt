-- ===== src/Tests/Runs.antt =====
-- src/api/mod.rs, src/workers/mod.rs: the theorems on requests and on the whole service at a run in
-- which ten players are queued and matched.
use matchmaker.Models.Team.{unwrap_or}
use matchmaker.Base.{refl, ◌/◌, ℕ, ◌+◌, ◌⊎◌, ◌==◌, if◌then◌else◌, ◌≡◌, true, some, arith, ◌∙◌}
use matchmaker.Metrics
use matchmaker.Engine.Matcher.{reset, success, new_worker, attempt_match}
use matchmaker.Engine.Core.{MatchmakerCore}
use matchmaker.Workers.System.{System, Reachable, started, later, enqueues, attempts}
use matchmaker.Api.{delete_enqueue, serve}
use matchmaker.Api.Router.{is_get, serve_outcome}
use matchmaker.Api.Averages.{metrics_handler_averages}
use matchmaker.Tests.AssocMap.{assoc_map}
use matchmaker.Tests.Fixtures.{no_players, defaults, two_core, ten_core, worker_1, readings}
use matchmaker.Workers.Service.{Reaches}
use matchmaker.Workers.Service.Refines.{acts_in, service_of, Reachable-Reaches}
use matchmaker.Workers.History.{formed_in}
use matchmaker.Tests.Phases.{formed}
use matchmaker.Tests.Attempts.{ten_core-attempt}

abbrev with_core : MatchmakerCore assoc_map → System assoc_map
with_core core = record { core = core; workers = λ i. new_worker }

ten_queued : Reachable assoc_map no_players 0 defaults (with_core ten_core)
ten_queued =
    later
      (later
        (later
          (later
            (later
              (later
                (later
                  (later
                    (later (later started (enqueues 1000000 11 1000 (omega arith)))
                      (enqueues 2000000 12 1020 (omega arith)))
                    (enqueues 3000000 13 1025 (omega arith)))
                  (enqueues 4000000 14 1030 (omega arith)))
                (enqueues 5000000 15 1035 (omega arith)))
              (enqueues 6000000 16 1040 (omega arith)))
            (enqueues 7000000 17 1050 (omega arith)))
          (enqueues 8000000 18 1060 (omega arith)))
        (enqueues 9000000 19 1070 (omega arith)))
      (enqueues 10000000 20 1090 (omega arith))

attempted :
    attempt_match assoc_map worker_1 readings ten_core.shared new_worker
    ≡ some (formed.0, reset new_worker, success formed.1)
attempted = ten_core-attempt ∙ formed.2

abbrev matched_system : System assoc_map
matched_system = record {
  core = record ten_core { shared = formed.0 };
  workers = λ j. if j == 1 then reset new_worker else new_worker;
}

ten_matched : Reachable assoc_map no_players 0 defaults matched_system
ten_matched = later ten_queued (attempts 1 readings attempted)

Reachable-Reaches_example :
    Reaches defaults
      (acts_in assoc_map ten_matched)
      (service_of assoc_map matched_system (formed_in assoc_map ten_matched))
Reachable-Reaches_example = Reachable-Reaches assoc_map (λ r h. (refl, refl)) ten_matched

metrics_handler_averages_example :
    unwrap_or {A = ℕ} 0
        (Metrics.checked_div formed.0.metrics.team_delta_sum formed.0.metrics.team_delta_count)
      ≡ (formed.1.team_delta + 0) / 1
    × unwrap_or {A = ℕ} 0
        (Metrics.checked_div formed.0.metrics.skill_spread_sum formed.0.metrics.skill_spread_count)
      ≡ (formed.1.skill_spread + 0) / 1
    × formed.0.metrics.total_players_matched ≡ 10
unfolding ten_matched ten_queued
metrics_handler_averages_example =
    metrics_handler_averages assoc_map ten_matched (omega arith) (omega arith)

serve_outcome_example :
    ((serve assoc_map 3000000 (delete_enqueue 11) two_core).1.status ≡ 200
      ⊎ (serve assoc_map 3000000 (delete_enqueue 11) two_core).0 ≡ two_core
        × ((serve assoc_map 3000000 (delete_enqueue 11) two_core).1.status ≡ 404
            ⊎ (serve assoc_map 3000000 (delete_enqueue 11) two_core).1.status ≡ 409
            ⊎ (serve assoc_map 3000000 (delete_enqueue 11) two_core).1.status ≡ 422))
    × (is_get (delete_enqueue 11) ≡ true
        → (serve assoc_map 3000000 (delete_enqueue 11) two_core).1.status ≡ 200
          × (serve assoc_map 3000000 (delete_enqueue 11) two_core).0 ≡ two_core)
serve_outcome_example = serve_outcome assoc_map 3000000 two_core (delete_enqueue 11)
