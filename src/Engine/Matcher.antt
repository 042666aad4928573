-- ===== src/Engine/Matcher.antt =====
-- src/engine/matcher.rs: one attempt to form a match. The shared state is passed from step to step;
-- the readings of the clocks and the random identifier are arguments.
mod State
pub mod Claiming
pub mod Marking
pub mod Removal
pub mod Rollback
pub mod Written
pub mod Forming
pub mod Attempt
pub mod History
pub mod Newest
pub mod Starved
pub use State.*
use matchmaker.Base.{
  ℕ, suc, ◌+◌, ◌-◌, ◌/◌, ◌%◌, ◌^◌, min, max, Bool, true, false, ◌&&◌, Option, none, some, List, [],
  ◌∷◌, ◌++◌, map, ltb, leb, ◌==◌, if◌then◌else◌, length, u32, fetch_add, fetch_sub, sum_u64,
}
use matchmaker.Models.Player.{Uuid, Instant, Player, try_claim, release_claim, mark_matched}
use matchmaker.Models.Memory.{Ref, Heap, write}
use matchmaker.Models.Team.{Team, PlayerSnapshot, capture, waited_ms}
use matchmaker.Models.Team
use matchmaker.Models.Match.{Match}
use matchmaker.Models.Match
use matchmaker.Metrics.{Metrics}
use matchmaker.Config.{Config}
use matchmaker.Engine.Bucket.Store.{ConcurrentMap}
use matchmaker.Engine.Bucket.{
  PlayerPool, oldest_waiting, oldest_waiting_excluding_range, range_scan, remove,
}
use matchmaker.Engine.Relaxation.{scan_bounds, relaxation_stage}
use matchmaker.Engine.Balancer.{BalanceResult, match_size, exhaustive_balance}

-- The loop over the candidates, with `room` claims still wanted: the memory after it and the claimed
-- players, in order.
unfoldable pub claim_all : ℕ → ℕ → ℕ → Heap → List Ref → Heap × List Ref
claim_all worker_id now_ms room heap [] = (heap, [])
claim_all worker_id now_ms room heap (c ∷ cs) =
    let tried = try_claim worker_id now_ms (heap c) in
    let heap' = write heap c tried.0 in
    let won = claim_all worker_id now_ms (room - 1) heap' cs in
    let lost = claim_all worker_id now_ms room heap' cs in
    if room == 0 then (heap, []) else (if tried.1 then (won.0, c ∷ won.1) else lost)

unfoldable pub release_all : Heap → List Ref → Heap
release_all heap [] = heap
release_all heap (r ∷ rs) = release_all (write heap r (release_claim (heap r))) rs

-- `nows` are the readings of the clock from index `i` on.
unfoldable pub mark_all : (ℕ → Instant) → ℕ → Heap → List Ref → Heap
mark_all nows i heap [] = heap
mark_all nows i heap (r ∷ rs) =
    mark_all nows (suc i) (write heap r (mark_matched (nows i) (heap r))) rs

pub max_of : List ℕ → ℕ
max_of [] = 0
max_of (x ∷ xs) = max x (max_of xs)

pub min_of : List ℕ → ℕ
min_of [] = 0
min_of (x ∷ []) = x
min_of (x ∷ y ∷ ys) = min x (min_of (y ∷ ys))

-- `while history.len() > limit { history.pop_front(); }`.
pub evict_oldest : ℕ → List Match → List Match
evict_oldest limit [] = []
evict_oldest limit (m ∷ ms) = if ltb limit (length (m ∷ ms)) then evict_oldest limit ms else m ∷ ms

unfoldable pub update_metrics_on_success : Match → List ℕ → ℕ → Metrics → Metrics
update_metrics_on_success completed wait_times_ms skill_spread m = record m {
  total_matches_created = fetch_add m.total_matches_created 1;
  total_players_matched = fetch_add m.total_players_matched match_size;
  current_queue_size = fetch_sub m.current_queue_size match_size;
  total_wait_time_ms = fetch_add m.total_wait_time_ms (sum_u64 wait_times_ms);
  skill_spread_sum = fetch_add m.skill_spread_sum skill_spread;
  skill_spread_count = fetch_add m.skill_spread_count 1;
  team_delta_sum = fetch_add m.team_delta_sum completed.team_delta;
  team_delta_count = fetch_add m.team_delta_count 1;
}

abbrev pub snapshots : Instant → Heap → List Ref → List PlayerSnapshot
snapshots now heap = map λ r. capture now (heap r)

-- The match of the claimed players, whose marks are in the memory.
pub build_match : Readings → Heap → List Ref → BalanceResult Ref → Match
build_match t heap claimed balance =
    let wait_times_ms = map (λ r. waited_ms t.late (heap r)) claimed in
    let all_ratings = map (λ r. (heap r).skill_rating) claimed in
    Match.new t.match_id (Team.new (snapshots t.late heap balance.team_a))
      (Team.new (snapshots t.late heap balance.team_b)) (max_of all_ratings - min_of all_ratings)
      (sum_u64 wait_times_ms / length wait_times_ms) (max_of wait_times_ms) t.formed_at_unix

module _ (S : ConcurrentMap) where
  abbrev or_else : Option Ref → Ref → Option Ref
  or_else none r = some r
  or_else (some q) r = some q

  abbrev chosen_seed : WorkerContext → Readings → Shared S → WorkerState → Ref → Option Ref
  chosen_seed ctx t s w primary =
      let (exclude_min, exclude_max) =
        scan_bounds t.guard (s.heap primary).skill_rating (s.heap primary).join_timestamp
          ctx.config in
      if is_seed w.current_seed_id (s.heap primary).id
        && leb seed_retry_limit w.consecutive_failures
      then or_else (oldest_waiting_excluding_range S s.heap s.pool exclude_min exclude_max) primary
      else some primary

  unfoldable pub select_seed : WorkerContext → Readings → Shared S → WorkerState → Option Ref
  select_seed ctx t s w = elim (oldest_waiting S s.heap s.pool) [
    | none ↦ none
    | some primary ↦ chosen_seed ctx t s w primary
  ]

  pub remove_all : Heap → List Ref → PlayerPool S → PlayerPool S
  remove_all heap [] pool = pool
  remove_all heap (r ∷ rs) pool = remove_all heap rs (remove S heap (heap r).id pool).1

  abbrev pub Outcome : Type 0
  Outcome = Shared S × WorkerState × MatchAttemptResult

  -- Phases 5 and 6, with ten players claimed and balanced.
  pub complete :
      WorkerContext → Readings → Shared S → WorkerState → List Ref → BalanceResult Ref → Outcome
  complete ctx t s w claimed balance =
      let heap = mark_all t.matched 0 s.heap claimed in
      let completed = build_match t heap claimed balance in
      (
        record s {
          heap = heap;
          pool = remove_all heap claimed s.pool;
          metrics =
              update_metrics_on_success completed (map (λ r. waited_ms t.late (heap r)) claimed)
                completed.skill_spread s.metrics;
          match_history = evict_oldest ctx.match_history_limit (s.match_history ++ completed ∷ []);
        },
        reset w,
        success completed,
      )

  -- The way back out of phase 3.
  unfoldable pub roll_back : Shared S → WorkerState → Ref → List Ref → Outcome
  roll_back s w seed claimed = (
    record s {
      heap = release_all s.heap claimed;
      metrics = record s.metrics {
        match_attempts_claim_failed = fetch_add s.metrics.match_attempts_claim_failed 1;
      };
    },
    record_failure (s.heap seed).id w,
    claim_failed (length claimed) match_size,
  )

  abbrev balanced :
      WorkerContext
      → Readings
      → Shared S
      → WorkerState
      → List Ref
      → Option (BalanceResult Ref)
      → Option Outcome
  balanced ctx t s w claimed none = none
  balanced ctx t s w claimed (some balance) = some (complete ctx t s w claimed balance)

  -- From phase 3 on: the candidates were found earlier, and other tasks may have claimed some of
  -- them since. `none` is a panic.
  pub claim_phase :
      WorkerContext → Readings → Shared S → WorkerState → Ref → List Ref → Option Outcome
  claim_phase ctx t s w seed candidates =
      let (heap, claimed) = claim_all ctx.worker_id t.claim_ms match_size s.heap candidates in
      let s' = record s { heap = heap } in
      if ltb (length claimed) match_size
      then some (roll_back s' w seed claimed)
      else balanced ctx t s' w claimed (exhaustive_balance (λ r. (heap r).skill_rating) claimed)

  abbrev discovered :
      WorkerContext
      → Readings
      → Shared S
      → WorkerState
      → Ref
      → ℕ
      → Option (List Ref)
      → Option Outcome
  discovered ctx t s w seed window none = none
  discovered ctx t s w seed window (some candidates) =
      if ltb (length candidates) match_size
      then some (
        record s {
          metrics = record s.metrics {
            match_attempts_insufficient = fetch_add s.metrics.match_attempts_insufficient 1;
          };
        },
        record_failure (s.heap seed).id w,
        insufficient_candidates (length candidates) window (s.heap seed).skill_rating
            (relaxation_stage t.stage (s.heap seed).join_timestamp ctx.config),
      )
      else claim_phase ctx t s w seed candidates

  -- Phase 2, and what follows it. The worker holds the seed while it scans.
  unfoldable pub discover : WorkerContext → Readings → Shared S → WorkerState → Ref → Option Outcome
  discover ctx t s w seed =
      let (min_rating, max_rating) =
        scan_bounds t.bounds (s.heap seed).skill_rating (s.heap seed).join_timestamp ctx.config in
      let s' = record s {
        metrics = record s.metrics {
          worker_cycles_total = fetch_add s.metrics.worker_cycles_total 1;
        };
      } in
      discovered ctx t s' w seed (u32 (max_rating + 2 ^ 32 - min_rating))
        (range_scan S s.heap (seed ∷ s.held) s.pool min_rating max_rating)

  unfoldable pub attempt_match : WorkerContext → Readings → Shared S → WorkerState → Option Outcome
  attempt_match ctx t s w = elim (select_seed ctx t s w) [
    | none ↦ some (s, w, pool_empty)
    | some seed ↦ discover ctx t s w seed
  ]
