-- ===== src/Tests/Phases.antt =====
-- src/engine/matcher.rs: the theorems on phases 3 to 5 at concrete queues.
use matchmaker.Models.Player.{Instant, matched}
use matchmaker.Engine.Balancer.{match_size}
use matchmaker.Models.Match.{Match}
use matchmaker.Engine.Matcher.Forming.{is_held-In}
use matchmaker.Base.{
  ltb, if◌then◌else◌, ◌++◌, map, All, In-All, length, fetch_add, ◌≡◌, ◌≤◌, ◌<◌, refl, true, some,
  List, [], ◌∷◌, arith,
}
use matchmaker.Models.Memory.{Ref, is_held}
use matchmaker.Engine.Bucket.{range_scan, max_candidates_per_scan, older, max_skill_rating}
use matchmaker.Engine.Matcher.{
  MatchAttemptResult, pool_empty, success, reset, WorkerState, record_failure, claim_failed, Shared,
  Outcome, new_worker, select_seed, attempt_match, claim_phase, roll_back,
}
use matchmaker.Engine.Matcher.Claiming.{claims}
use matchmaker.Engine.Matcher.Rollback.{Unclaimed, claim_phase_few, claim_phase_rollback}
use matchmaker.Engine.Matcher.Forming.Success.{FormedFrom, claim_phase-ten, claim_phase_success}
use matchmaker.Engine.Matcher.Attempt.{cycle}
use matchmaker.Workers.Interleaving.{Event, World, at_rest, run, begins, works}
use matchmaker.Workers.Interleaving.Attempt.{claim_phase_alone}
use matchmaker.Tests.AssocMap.{assoc_map}
use matchmaker.Tests.Fixtures.{empty_core, ten_core, ten_core-IsShared, worker_1, readings}

abbrev three : List Ref
three = 0 ∷ 1 ∷ 2 ∷ []

three-few : length (claims assoc_map worker_1 readings empty_core.shared three).1 < 10
unfolding claims matchmaker.Engine.Matcher.claim_all matchmaker.Models.Player.try_claim
    matchmaker.Engine.Core.new
three-few = omega arith

empty_core-Unclaimed : Unclaimed empty_core.shared.heap
unfolding matchmaker.Engine.Core.new
empty_core-Unclaimed r h = (refl, refl)

abbrev rolled : Outcome assoc_map
rolled =
    roll_back assoc_map
      (record empty_core.shared {
        heap = (claims assoc_map worker_1 readings empty_core.shared three).0;
      })
      new_worker 0 (claims assoc_map worker_1 readings empty_core.shared three).1

three-rolled :
    claim_phase assoc_map worker_1 readings empty_core.shared new_worker 0 three
    ≡ some (
      rolled.0,
      rolled.1,
      claim_failed (length (claims assoc_map worker_1 readings empty_core.shared three).1) 10,
    )
unfolding roll_back
three-rolled =
    claim_phase_few assoc_map worker_1 readings empty_core.shared new_worker 0 three three-few

abbrev pub ten : List Ref
ten = 0 ∷ 1 ∷ 2 ∷ 3 ∷ 4 ∷ 5 ∷ 6 ∷ 7 ∷ 8 ∷ 9 ∷ []

abbrev pub ten_found : Shared assoc_map
ten_found = cycle assoc_map worker_1 readings ten_core.shared new_worker ten_core-IsShared.agrees

ratings-valid : All (λ r. (ten_found.heap r).skill_rating ≤ max_skill_rating) ten
unfolding matchmaker.Engine.Core.enqueue matchmaker.Engine.Core.new matchmaker.Engine.Bucket.new
    matchmaker.Engine.Bucket.insert matchmaker.Engine.Bucket.Index.index_insert
ratings-valid = (
  omega arith,
  (
    omega arith,
    (
      omega arith,
      (
        omega arith,
        (
          omega arith,
          (omega arith, (omega arith, (omega arith, (omega arith, (omega arith, tt))))),
        ),
      ),
    ),
  ),
)

pub ten-valid :
    (r : Ref) → is_held r ten ≡ true → (ten_found.heap r).skill_rating ≤ max_skill_rating
ten-valid r h =
    In-All (λ r. (ten_found.heap r).skill_rating ≤ max_skill_rating) ten r ratings-valid
      (is_held-In r ten h)

pub ten-claims : length (claims assoc_map worker_1 readings ten_found ten).1 ≡ 10
unfolding claims matchmaker.Engine.Matcher.claim_all matchmaker.Models.Player.try_claim
    matchmaker.Engine.Core.enqueue matchmaker.Engine.Core.new matchmaker.Engine.Bucket.new
    matchmaker.Engine.Bucket.insert matchmaker.Engine.Bucket.Index.index_insert
ten-claims = refl

-- The state after the match of ten, and the match.
pub formed :
    (s' : Shared assoc_map) × (m : Match) × (claim_phase assoc_map worker_1 readings ten_found
        new_worker 0 ten
      ≡ some (s', reset new_worker, success m))
    × FormedFrom assoc_map worker_1.match_history_limit ten ten_found s' m
        (claims assoc_map worker_1 readings ten_found ten).1
formed = claim_phase-ten assoc_map worker_1 readings ten_found new_worker 0 ten ten-valid ten-claims

claim_phase_rollback_example :
    ((r : Ref) → rolled.0.heap r ≡ empty_core.shared.heap r)
    × (rolled.0.pool ≡ empty_core.shared.pool)
    × (rolled.0.match_history ≡ empty_core.shared.match_history)
    × (length (claims assoc_map worker_1 readings empty_core.shared three).1 < 10)
    × (10 ≡ match_size)
    × (rolled.1 ≡ record_failure (empty_core.shared.heap 0).id new_worker)
    × (rolled.0.metrics ≡ record empty_core.shared.metrics {
      match_attempts_claim_failed =
          fetch_add empty_core.shared.metrics.match_attempts_claim_failed 1;
    })
claim_phase_rollback_example =
    claim_phase_rollback assoc_map worker_1 readings empty_core.shared new_worker 0 three
      empty_core-Unclaimed three-rolled

abbrev resting_world : World
resting_world = at_rest ten_found.heap readings.claim_ms

claim_phase_alone_example :
    (x : List Instant) × run 500
        (begins worker_1.worker_id ten
          ∷ map {A = Instant} {B = Event} (λ x'. works worker_1.worker_id x') x)
        resting_world
      ≡ record {
        heap = formed.0.heap;
        clock = resting_world.clock;
        pc = resting_world.pc;
        scan = resting_world.scan;
        recovered = resting_world.recovered;
        formed =
            resting_world.formed
            ++ if◌then◌else◌ {A = List Ref}
                (ltb (length (claims assoc_map worker_1 readings ten_found ten).1) match_size)
                []
                (claims assoc_map worker_1 readings ten_found ten).1;
      }
claim_phase_alone_example =
    claim_phase_alone assoc_map worker_1 readings ten_found new_worker 0 ten _ _ _ formed.2 500
      resting_world refl refl refl

claim_phase_success_example :
    reset new_worker ≡ reset new_worker
    × FormedFrom assoc_map worker_1.match_history_limit ten ten_found formed.0 formed.1
        (claims assoc_map worker_1 readings ten_found ten).1
claim_phase_success_example =
    claim_phase_success assoc_map worker_1 readings ten_found new_worker 0 ten ten-valid formed.2
