-- ===== src/Workers.antt =====
-- src/workers/mod.rs: the worker loop, the Reaper and `spawn_all`. One scan of the Reaper and one
-- attempt of a worker run here with no other task between their steps.
pub mod Reaper
pub mod Rounds
pub mod System
pub mod Records
pub mod History
pub mod Spawn
pub mod Starved
pub mod Served
pub mod Drained
pub mod Recovered
pub mod Service
pub mod Interleaving
use matchmaker.Base.{
  ℕ, zero, suc, ◌+◌, ◌-◌, Bool, true, false, not, Option, none, some, List, [], ◌∷◌, map, ltb, ◌==◌,
  if◌then◌else◌, u32, fetch_add, saturating_sub,
}
use matchmaker.Models.Player.{Player, claimed, waiting, compare_exchange}
use matchmaker.Models.Memory.{Ref, Heap, write}
use matchmaker.Engine.Bucket.Store.{ConcurrentMap}
use matchmaker.Engine.Bucket.{all_players}
use matchmaker.Engine.Matcher.{
  WorkerContext, WorkerState, Readings, Shared, MatchAttemptResult, Outcome, new_worker,
  attempt_match,
}
use matchmaker.Engine.Core.{MatchmakerCore, make_worker_context}

abbrev pub reaper_interval_ms : ℕ
reaper_interval_ms = 1000

abbrev clear_claim : Player × Bool → Player × Bool
clear_claim (p, true) = (record p { claimed_by = 0; claim_timestamp = 0 }, true)
clear_claim (p, false) = (p, false)

-- One round of the Reaper's loop: the player after it, and whether it was recovered.
unfoldable pub reap : ℕ → ℕ → Player → Player × Bool
reap stale_claim_timeout_ms now_ms p =
    if not (p.state == claimed)
    then (p, false)
    else if p.claim_timestamp == 0
    then (p, false)
    else if ltb stale_claim_timeout_ms (saturating_sub now_ms p.claim_timestamp)
    then clear_claim (compare_exchange claimed waiting p)
    else (p, false)

-- The loop, and the number of recovered players, a u32.
unfoldable pub reap_all : ℕ → ℕ → ℕ → Heap → List Ref → Heap × ℕ
reap_all stale_claim_timeout_ms now_ms recovered heap [] = (heap, recovered)
reap_all stale_claim_timeout_ms now_ms recovered heap (r ∷ rs) =
    let reaped = reap stale_claim_timeout_ms now_ms (heap r) in
    reap_all stale_claim_timeout_ms now_ms (if reaped.1 then u32 (recovered + 1) else recovered)
      (write heap r reaped.0) rs

-- What can wake a worker, when it polls: `tokio::select!` with `biased` looks at them in this order.
pub record Ready : Type 0 where
  pub shutdown : Bool
  pub notified : Bool
  pub ticked : Bool

pub data Wake : Type 0 where
  stop : Wake
  attempt : Wake
  sleep : Wake

unfoldable pub select : Ready → Wake
select ready =
    if ready.shutdown
    then stop
    else if ready.notified
    then attempt
    else if ready.ticked
    then attempt
    else sleep

abbrev numbers_from : ℕ → ℕ → List ℕ
numbers_from zero first = []
numbers_from (suc n) first = first ∷ numbers_from n (suc first)

-- `1..=worker_count`.
pub worker_ids : ℕ → List ℕ
worker_ids worker_count = numbers_from worker_count 1

module _ (S : ConcurrentMap) where
  unfoldable pub reaper_tick : ℕ → ℕ → Shared S → Shared S
  reaper_tick stale_claim_timeout_ms now_ms s =
      let (heap, recovered) =
        reap_all stale_claim_timeout_ms now_ms 0 s.heap (all_players S s.pool) in
      record s {
        heap = heap;
        metrics =
            if ltb 0 recovered
            then record s.metrics {
              total_stale_claims_recovered =
                  fetch_add s.metrics.total_stale_claims_recovered recovered;
            }
            else s.metrics;
      }

  -- The loop of the Reaper over the wakes that come, each a shutdown or a tick with the time of its
  -- scan. It is left at the first shutdown, and the Boolean says whether it has been left.
  unfoldable pub run_reaper : ℕ → Shared S → List (Bool × ℕ) → Shared S × Bool
  run_reaper stale_claim_timeout_ms s [] = (s, false)
  run_reaper stale_claim_timeout_ms s ((true, now_ms) ∷ rest) = (s, true)
  run_reaper stale_claim_timeout_ms s ((false, now_ms) ∷ rest) =
      run_reaper stale_claim_timeout_ms (reaper_tick stale_claim_timeout_ms now_ms s) rest

  -- The loop of a worker over the wakes that come; `none` is a panic in an attempt. It is left at the
  -- first shutdown, and the Boolean says whether it has been left.
  unfoldable pub run_worker :
      WorkerContext
      → Shared S
      → WorkerState
      → List (Ready × Readings)
      → Option (Shared S × WorkerState × Bool)
  run_worker ctx s w [] = some (s, w, false)
  run_worker ctx s w ((ready, t) ∷ rest) = elim (select ready) [
    | stop ↦ some (s, w, true)
    | attempt ↦ elim (attempt_match S ctx t s w) [
      | none ↦ none
      | some (s', w', result) ↦ run_worker ctx s' w' rest
    ]
    | sleep ↦ run_worker ctx s w rest
  ]

  -- The contexts of the workers that `spawn_all` starts; the Reaper runs beside them.
  pub spawn_all : MatchmakerCore S → List WorkerContext
  spawn_all core = map (λ id. make_worker_context S id core) (worker_ids core.config.worker_count)
