-- ===== src/Tests/Service.antt =====
-- src/workers/mod.rs: the theorems on the workers, the Reaper and the whole service at concrete runs.
use matchmaker.Api.{limit_of, matches_handler}
use mathlib.Core.List.{reverse}
use matchmaker.Api.Matches.{matches_handler_newest}
use matchmaker.Engine.Core.Accounts.{SameAccounts, IsShared-SameAccounts}
use matchmaker.Models.Player.{claimed}
use matchmaker.Engine.Bucket.{all_players, get}
use matchmaker.Engine.Core.Queue.{IsShared}
use matchmaker.Base.{
  Bool, List, replicate, none, take, min, max, u64, refl, length, if◌then◌else◌, ◌≡◌, true, false,
  some, [], ◌∷◌, arith, ℕ,
}
use matchmaker.Engine.Matcher.{
  insufficient_candidates, record_failure, Outcome, attempt_match, match_history_limit, WorkerState,
  Shared, new_worker,
}
use matchmaker.Workers.{run_worker, reaper_tick, Ready}
use matchmaker.Engine.Core.{cancel, enqueue}
use matchmaker.Workers.Reaper.{recovered}
use matchmaker.Workers.System.{
  cancels, has_shutdown, System, Reachable, started, later, enqueues, Reachable-IsShared,
  run_worker_total, start,
}
use matchmaker.Models.Memory.{Ref}
use matchmaker.Workers.{run_reaper}
use matchmaker.Workers.Rounds.{stops, turns_stale, run_reaper_exact}
use matchmaker.Engine.Relaxation.{relaxation_stage}
use matchmaker.Workers.Starved.{run_worker-starves}
use matchmaker.Engine.Matcher.Starved.{IsUnlisted}
use matchmaker.Workers.Records.{IsRecorded}
use matchmaker.Workers.History.{formed_in, Reachable-IsRecorded}
use matchmaker.Workers.Interleaving.{World, at_rest, run, scans, reaps}
use matchmaker.Workers.Interleaving.Scanning.{reaper_tick_alone}
use matchmaker.Tests.AssocMap.{assoc_map}
use matchmaker.Tests.Fixtures.{
  no_players, defaults, two_core, two_core-IsShared, worker_1, readings,
}

abbrev pub woken : Ready
woken = record { shutdown = false; notified = true; ticked = false }

abbrev pub stopped : Ready
stopped = record { shutdown = true; notified = true; ticked = false }

abbrev system_1 : System assoc_map
system_1 = record (start assoc_map no_players 0 defaults) {
  core = (enqueue assoc_map 1000000 11 1000 (start assoc_map no_players 0 defaults).core).0;
}

abbrev system_2 : System assoc_map
system_2 = record system_1 { core = (cancel assoc_map 11 system_1.core).0 }

history : Reachable assoc_map no_players 0 defaults system_2
history = later (later started (enqueues 1000000 11 1000 (omega arith))) (cancels 11)

-- All players have been claimed by a worker that has not come back since.
abbrev pub all_claimed : Shared assoc_map → Shared assoc_map
all_claimed s = record s {
  heap =
      λ r. record (s.heap r) { state = claimed; claimed_by = 3; claim_timestamp = 1699999999000 };
}

all_claimed-SameAccounts : (s : Shared assoc_map) → SameAccounts assoc_map s (all_claimed s)
all_claimed-SameAccounts s = record {
  keys = record { ids = λ r. refl; ratings = λ r. refl };
  live = λ r h. omega arith;
  pool = refl;
  next = refl;
  enqueued = refl;
  cancelled = refl;
  matched = refl;
  queued = refl;
}

pub all_claimed-IsShared :
    (s : Shared assoc_map) → IsShared assoc_map s → IsShared assoc_map (all_claimed s)
all_claimed-IsShared s = IsShared-SameAccounts assoc_map (all_claimed-SameAccounts s)

abbrev stuck : Shared assoc_map
stuck = all_claimed two_core.shared

stuck-IsShared : IsShared assoc_map stuck
stuck-IsShared = all_claimed-IsShared two_core.shared two_core-IsShared

-- Too early a tick, one that finds the claims stale, and the shutdown.
abbrev three_wakes : List (Bool × ℕ)
three_wakes = (false, 1699999999100) ∷ (false, 1700000000000) ∷ (true, 1700000001000) ∷ []

run_reaper_exact_example :
    ((run_reaper assoc_map 500 stuck three_wakes).1 ≡ stops three_wakes)
    × IsShared assoc_map (run_reaper assoc_map 500 stuck three_wakes).0
    × ((r : Ref)
        → get assoc_map (stuck.heap r).id stuck.pool ≡ some r
        → (run_reaper assoc_map 500 stuck three_wakes).0.heap r ≡ (
            if turns_stale 500 three_wakes (stuck.heap r)
            then recovered (stuck.heap r)
            else stuck.heap r))
run_reaper_exact_example = run_reaper_exact assoc_map 500 stuck three_wakes stuck-IsShared

abbrev stuck_world : World
stuck_world = record (at_rest stuck.heap 1700000000000) {
  recovered = stuck.metrics.total_stale_claims_recovered;
}

reaper_tick_alone_example :
    (x : ℕ) × run 500 (scans (all_players assoc_map stuck.pool) ∷ replicate x reaps) stuck_world
      ≡ record {
        heap = (reaper_tick assoc_map 500 stuck_world.clock stuck).heap;
        clock = stuck_world.clock;
        pc = stuck_world.pc;
        scan = stuck_world.scan;
        recovered =
            (reaper_tick assoc_map 500 stuck_world.clock
              stuck).metrics.total_stale_claims_recovered;
        formed = stuck_world.formed;
      }
reaper_tick_alone_example = reaper_tick_alone assoc_map 500 stuck stuck_world refl refl refl

Reachable-IsShared_example : IsShared assoc_map system_2.core.shared
Reachable-IsShared_example = Reachable-IsShared assoc_map history

Reachable-IsRecorded_example :
    IsRecorded assoc_map match_history_limit (formed_in assoc_map history) system_2.core.shared
Reachable-IsRecorded_example = Reachable-IsRecorded assoc_map history

run_worker_total_example :
    (x : Shared assoc_map) × (x' : WorkerState) × run_worker assoc_map worker_1 two_core.shared
        new_worker
        ((woken, readings) ∷ (stopped, readings) ∷ [])
      ≡ some (x, x', has_shutdown assoc_map ((woken, readings) ∷ (stopped, readings) ∷ []))
    × IsShared assoc_map x
run_worker_total_example =
    run_worker_total assoc_map worker_1 two_core.shared new_worker
      ((woken, readings) ∷ (stopped, readings) ∷ []) two_core-IsShared

matches_handler_newest_example :
    (matches_handler assoc_map none system_2.core).matches
      ≡ take
          (min (max (limit_of none) 1) match_history_limit)
          (reverse (formed_in assoc_map history))
    × u64 (matches_handler assoc_map none system_2.core).total_matches_formed
      ≡ u64 (length (formed_in assoc_map history))
matches_handler_newest_example = matches_handler_newest assoc_map history none

-- The two players are in the map, and not in the index.
abbrev lost : Shared assoc_map
lost = record two_core.shared { pool = record two_core.shared.pool { index = [] } }

abbrev lost_after : Outcome assoc_map
lost_after = (
  record lost {
    metrics = record lost.metrics { worker_cycles_total = 1; match_attempts_insufficient = 1 };
  },
  record_failure 11 new_worker,
  insufficient_candidates 0 800 1000 (relaxation_stage readings.stage 1000000 defaults),
)

lost-attempt : attempt_match assoc_map worker_1 readings lost new_worker ≡ some lost_after
unfolding matchmaker.Engine.Core.enqueue matchmaker.Engine.Core.new matchmaker.Engine.Bucket.new
    matchmaker.Engine.Bucket.insert matchmaker.Engine.Bucket.Index.index_insert
    matchmaker.Engine.Matcher.select_seed matchmaker.Engine.Bucket.oldest_waiting
    matchmaker.Engine.Bucket.oldest_of matchmaker.Engine.Bucket.oldest_from
    matchmaker.Engine.Bucket.oldest_waiting_excluding_range matchmaker.Engine.Matcher.attempt_match
    matchmaker.Engine.Matcher.discover matchmaker.Engine.Bucket.range_scan
    matchmaker.Engine.Bucket.Index.range matchmaker.Engine.Relaxation.scan_bounds
    matchmaker.Engine.Bucket.sort_by_age matchmaker.Engine.Bucket.collect
    matchmaker.Engine.Bucket.is_alive matchmaker.Engine.Bucket.insert_by
lost-attempt = refl

lost-run :
    run_worker assoc_map worker_1 lost new_worker ((woken, readings) ∷ (stopped, readings) ∷ [])
    ≡ some (lost_after.0, lost_after.1, true)
unfolding matchmaker.Workers.run_worker matchmaker.Workers.select
lost-run = rw (lost-attempt, run_worker) refl

run_worker-starves_example :
    (lost_after.0.heap 0 ≡ lost.heap 0) × IsUnlisted assoc_map 0 lost_after.0.pool
run_worker-starves_example =
    run_worker-starves assoc_map 0 worker_1 lost lost_after.0 new_worker lost_after.1
      ((woken, readings) ∷ (stopped, readings) ∷ []) true (λ m. m) lost-run
