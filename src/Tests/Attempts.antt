-- ===== src/Tests/Attempts.antt =====
-- src/engine/matcher.rs: its theorems at attempts on concrete queues.
use matchmaker.Engine.Relaxation.{relaxation_window}
use matchmaker.Engine.Bucket.Seeds.{Candidate}
use matchmaker.Engine.Balancer.{match_size}
use matchmaker.Engine.Matcher.Forming.{is_held-In}
use matchmaker.Engine.Matcher.Attempt.Anchor.{attempt_match_anchor}
use matchmaker.Engine.Matcher.Attempt.Progress.{attempt_match_progress}
use matchmaker.Models.Player.{matched}
use matchmaker.Models.Match.{Match}
use matchmaker.Engine.Bucket.{range_scan, max_candidates_per_scan}
use matchmaker.Engine.Matcher.Attempt.{bounds_of}
use matchmaker.Base.{
  ◌⊎◌, length, All, In, In-All, length, abs_diff, fetch_add, ◌≡◌, ◌≤◌, ◌<◌, ◌↔◌, ◌⊎◌, refl, ◌∙◌,
  true, false, some, List, [], ◌∷◌, arith, inl, inr,
}
use matchmaker.Models.Memory.{Ref, is_held}
use matchmaker.Engine.Bucket.{range_scan, max_candidates_per_scan, older, max_skill_rating}
use matchmaker.Engine.Matcher.{
  MatchAttemptResult, pool_empty, success, reset, WorkerState, record_failure, claim_failed, Shared,
  Outcome, new_worker, select_seed, attempt_match, claim_phase, roll_back,
}
use matchmaker.Engine.Matcher.Forming.Success.{FormedFrom}
use matchmaker.Engine.Matcher.Attempt.{Alternate, select_seed_fair, cycle, gave_up, Primary}
use matchmaker.Engine.Matcher.Attempt.Outcomes.{
  Sought, Sought-Near, Near, attempt_match_insufficient, attempt_match_success,
}
use matchmaker.Tests.Phases.{ten, ten_found, formed}
use matchmaker.Tests.AssocMap.{assoc_map}
use matchmaker.Tests.Fixtures.{
  two_core, ten_core, two_core-IsShared, ten_core-IsShared, worker_1, readings,
}

ten_core-seed : select_seed assoc_map worker_1 readings ten_core.shared new_worker ≡ some 0
unfolding matchmaker.Engine.Core.enqueue matchmaker.Engine.Core.new matchmaker.Engine.Bucket.new
    matchmaker.Engine.Bucket.insert matchmaker.Engine.Bucket.Index.index_insert
    matchmaker.Engine.Matcher.select_seed matchmaker.Engine.Bucket.oldest_waiting
    matchmaker.Engine.Bucket.oldest_of matchmaker.Engine.Bucket.oldest_from
    matchmaker.Engine.Bucket.oldest_waiting_excluding_range
ten_core-seed = refl

pub ten_core-attempt :
    attempt_match assoc_map worker_1 readings ten_core.shared new_worker
    ≡ claim_phase assoc_map worker_1 readings ten_found new_worker 0 ten
unfolding matchmaker.Engine.Core.enqueue matchmaker.Engine.Core.new matchmaker.Engine.Bucket.new
    matchmaker.Engine.Bucket.insert matchmaker.Engine.Bucket.Index.index_insert
    matchmaker.Engine.Matcher.select_seed matchmaker.Engine.Bucket.oldest_waiting
    matchmaker.Engine.Bucket.oldest_of matchmaker.Engine.Bucket.oldest_from
    matchmaker.Engine.Bucket.oldest_waiting_excluding_range matchmaker.Engine.Matcher.attempt_match
    matchmaker.Engine.Matcher.discover matchmaker.Engine.Bucket.range_scan
    matchmaker.Engine.Bucket.Index.range matchmaker.Engine.Relaxation.scan_bounds
    matchmaker.Engine.Bucket.sort_by_age matchmaker.Engine.Bucket.collect
    matchmaker.Engine.Bucket.is_alive matchmaker.Engine.Bucket.insert_by
ten_core-attempt = refl

two_core-seed : select_seed assoc_map worker_1 readings two_core.shared new_worker ≡ some 0
unfolding matchmaker.Engine.Core.enqueue matchmaker.Engine.Core.new matchmaker.Engine.Bucket.new
    matchmaker.Engine.Bucket.insert matchmaker.Engine.Bucket.Index.index_insert
    matchmaker.Engine.Matcher.select_seed matchmaker.Engine.Bucket.oldest_waiting
    matchmaker.Engine.Bucket.oldest_of matchmaker.Engine.Bucket.oldest_from
    matchmaker.Engine.Bucket.oldest_waiting_excluding_range
two_core-seed = refl

abbrev two_gave_up : Outcome assoc_map
two_gave_up =
    gave_up assoc_map worker_1 readings two_core.shared new_worker two_core-IsShared.agrees 0
      (0 ∷ 1 ∷ [])

two_core-attempt :
    attempt_match assoc_map worker_1 readings two_core.shared new_worker ≡ some two_gave_up
unfolding matchmaker.Engine.Core.enqueue matchmaker.Engine.Core.new matchmaker.Engine.Bucket.new
    matchmaker.Engine.Bucket.insert matchmaker.Engine.Bucket.Index.index_insert
    matchmaker.Engine.Matcher.select_seed matchmaker.Engine.Bucket.oldest_waiting
    matchmaker.Engine.Bucket.oldest_of matchmaker.Engine.Bucket.oldest_from
    matchmaker.Engine.Bucket.oldest_waiting_excluding_range matchmaker.Engine.Matcher.attempt_match
    matchmaker.Engine.Matcher.discover matchmaker.Engine.Bucket.range_scan
    matchmaker.Engine.Bucket.Index.range matchmaker.Engine.Relaxation.scan_bounds
    matchmaker.Engine.Bucket.sort_by_age matchmaker.Engine.Bucket.collect
    matchmaker.Engine.Bucket.is_alive matchmaker.Engine.Bucket.insert_by
two_core-attempt = refl

pub ten_core-Primary :
    Primary assoc_map worker_1 readings ten_core.shared new_worker ten_core-IsShared.agrees 0
ten_core-Primary =
    elim (select_seed_fair assoc_map worker_1 readings ten_core.shared new_worker
      ten_core-IsShared.agrees ten_core-seed) [
        | inl first ↦ first
        | inr (p, _, (same, _, _, _)) ↦ absurd (ground (arith, same))
      ]

ten-Sought :
    All
      (Sought assoc_map worker_1 readings ten_core.shared new_worker ten_core-IsShared.agrees 0)
      ten
unfolding matchmaker.Engine.Core.enqueue matchmaker.Engine.Core.new matchmaker.Engine.Bucket.new
    matchmaker.Engine.Bucket.insert matchmaker.Engine.Bucket.Index.index_insert
    matchmaker.Engine.Relaxation.scan_bounds
ten-Sought = (
  record { pooled = refl; ready = refl; above = omega arith; below = omega arith },
  (
    record { pooled = refl; ready = refl; above = omega arith; below = omega arith },
    (
      record { pooled = refl; ready = refl; above = omega arith; below = omega arith },
      (
        record { pooled = refl; ready = refl; above = omega arith; below = omega arith },
        (
          record { pooled = refl; ready = refl; above = omega arith; below = omega arith },
          (
            record { pooled = refl; ready = refl; above = omega arith; below = omega arith },
            (
              record { pooled = refl; ready = refl; above = omega arith; below = omega arith },
              (
                record { pooled = refl; ready = refl; above = omega arith; below = omega arith },
                (
                  record { pooled = refl; ready = refl; above = omega arith; below = omega arith },
                  (
                    record {
                      pooled = refl;
                      ready = refl;
                      above = omega arith;
                      below = omega arith;
                    },
                    tt,
                  ),
                ),
              ),
            ),
          ),
        ),
      ),
    ),
  ),
)

pub ten-Near :
    (r : Ref)
    → is_held r ten ≡ true
    → Near assoc_map worker_1 readings ten_core.shared new_worker ten_core-IsShared.agrees 0 r
ten-Near r h =
    Sought-Near assoc_map worker_1 readings ten_core.shared new_worker ten_core-IsShared.agrees 0 r
      ten_core-Primary.0
      (In-All
        (Sought assoc_map worker_1 readings ten_core.shared new_worker ten_core-IsShared.agrees 0)
        ten r ten-Sought (is_held-In r ten h))

select_seed_fair_example :
    Candidate assoc_map two_core.shared.heap two_core.shared.pool 0
      × ((q : Ref)
          → Candidate assoc_map two_core.shared.heap two_core.shared.pool q
          → older (two_core.shared.heap q) (two_core.shared.heap 0) ≡ false)
    ⊎ ((x : Ref) × (Candidate assoc_map two_core.shared.heap two_core.shared.pool x
          × ((q : Ref)
              → Candidate assoc_map two_core.shared.heap two_core.shared.pool q
              → older (two_core.shared.heap q) (two_core.shared.heap x) ≡ false))
        × Alternate assoc_map worker_1 readings two_core.shared new_worker two_core-IsShared.agrees
            x 0)
select_seed_fair_example =
    select_seed_fair assoc_map worker_1 readings two_core.shared new_worker two_core-IsShared.agrees
      two_core-seed

attempt_match_insufficient_example :
    (length {A = Ref} (0 ∷ 1 ∷ []) < match_size)
    × ((seed : Ref) × (rs : List Ref) × (select_seed assoc_map worker_1 readings two_core.shared
            new_worker
          ≡ some seed)
        × (length rs ≡ 2)
        × ((r : Ref)
            → In r rs
              ↔ Near assoc_map worker_1 readings two_core.shared new_worker two_core-IsShared.agrees
                  seed r)
        × ((two_core.shared.heap 0).skill_rating ≡ (two_core.shared.heap seed).skill_rating)
        × (two_gave_up.1 ≡ record_failure (two_core.shared.heap seed).id new_worker))
    × (two_gave_up.0 ≡ record two_core.shared {
      metrics = record two_core.shared.metrics {
        worker_cycles_total = fetch_add two_core.shared.metrics.worker_cycles_total 1;
        match_attempts_insufficient =
            fetch_add two_core.shared.metrics.match_attempts_insufficient 1;
      };
    })
attempt_match_insufficient_example =
    attempt_match_insufficient assoc_map worker_1 readings two_core.shared new_worker
      two_core-IsShared.agrees two_core-attempt

attempt_match_success_example :
    reset new_worker ≡ reset new_worker
    × ((x : Ref) × (x' : List Ref) × (x'' : List Ref) × select_seed assoc_map worker_1 readings
            ten_core.shared new_worker
          ≡ some x
        × ((r : Ref)
            → is_held r x' ≡ true
            → Candidate assoc_map ten_core.shared.heap ten_core.shared.pool r
              × abs_diff (ten_core.shared.heap r).skill_rating (ten_core.shared.heap x).skill_rating
                ≤ relaxation_window readings.bounds
                    (ten_core.shared.heap x).join_timestamp
                    worker_1.config)
        × FormedFrom assoc_map worker_1.match_history_limit x'
            (cycle assoc_map worker_1 readings ten_core.shared new_worker ten_core-IsShared.agrees)
            formed.0
            formed.1
            x'')
attempt_match_success_example =
    attempt_match_success assoc_map worker_1 readings ten_core.shared new_worker
      ten_core-IsShared.agrees (ten_core-attempt ∙ formed.2)

attempt_match_anchor_example :
    (formed.0.heap 0).state ≡ matched
    ⊎ ((x : List Ref) × length x ≡ max_candidates_per_scan
        × range_scan assoc_map ten_core.shared.heap
            (0 ∷ ten_core.shared.held)
            ten_core.shared.pool
            (bounds_of assoc_map worker_1 readings ten_core.shared new_worker
              ten_core-IsShared.agrees 0).0
            (bounds_of assoc_map worker_1 readings ten_core.shared new_worker
              ten_core-IsShared.agrees 0).1
          ≡ some x)
attempt_match_anchor_example =
    attempt_match_anchor assoc_map worker_1 readings ten_core.shared new_worker
      ten_core-IsShared.agrees (ten_core-attempt ∙ formed.2) ten_core-seed ten_core-Primary

attempt_match_progress_example :
    (s' : Shared assoc_map) × (m : Match) × (attempt_match assoc_map worker_1 readings
        ten_core.shared new_worker
      ≡ some (s', reset new_worker, success m))
attempt_match_progress_example =
    attempt_match_progress assoc_map worker_1 readings ten_core.shared new_worker
      ten_core-IsShared.agrees 0 ten ten_core-seed
      (refl, (refl, (refl, (refl, (refl, (refl, (refl, (refl, (refl, (refl, tt))))))))))
      (omega arith) ten-Near
