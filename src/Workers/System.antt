-- ===== src/Workers/System.antt =====
-- src/workers/mod.rs and src/engine/mod.rs: the whole service as a state machine. Calls of `enqueue`
-- and `cancel`, attempts of the workers and scans of the Reaper follow each other in any order, each of
-- them as a whole: none begins before the one before it has returned. (What happens when they overlap
-- is in Engine/Core/Queue/Race, Engine/Bucket/Steps and Workers/Interleaving.)
use matchmaker.Base.{
  ◌||◌, ◌||◌, ℕ, ◌≤◌, ◌≡◌, refl, true, false, some, List, [], ◌∷◌, arith, if◌then◌else◌, ◌==◌, inl,
  inr, ◌⊎◌, Bool,
}
use matchmaker.Models.Player.{Uuid, Instant}
use matchmaker.Models.Memory.{Heap}
use matchmaker.Metrics
use matchmaker.Config.{Config}
use matchmaker.Engine.Bucket.Store.{ConcurrentMap}
use matchmaker.Engine.Bucket.{uuid_max}
use matchmaker.Engine.Matcher.{
  WorkerState, Readings, Shared, MatchAttemptResult, Outcome, new_worker, attempt_match,
  WorkerContext,
}
use matchmaker.Engine.Matcher.Attempt.Outcomes.{attempt_match_total}
use matchmaker.Engine.Core.{MatchmakerCore, new, enqueue, cancel, make_worker_context}
use matchmaker.Engine.Core.Queue.{IsShared, new-IsShared}
use matchmaker.Engine.Core.Queue.Enqueue.{enqueue-IsShared}
use matchmaker.Engine.Core.Queue.Cancel.{cancel-IsShared}
use matchmaker.Engine.Core.Accounts.{attempt_match-IsShared}
use matchmaker.Workers.{Ready, select, run_worker, reaper_tick, stop, attempt, sleep}
use matchmaker.Workers.Reaper.{reaper_tick-IsShared}

-- The core, and what each worker keeps for itself.
pub record System (S : ConcurrentMap) : Type 0 where
  pub core : MatchmakerCore S
  pub workers : ℕ → WorkerState

module _ (S : ConcurrentMap) where
  abbrev pub shared_after : System S → Shared S → MatchmakerCore S
  shared_after sys s = record sys.core { shared = s }

  pub data Step (sys : System S) : System S → Type 0 where
    enqueues :
        (now : Instant) (id : Uuid) (skill_rating : ℕ)
        → id ≤ uuid_max
        → Step sys (record sys { core = (enqueue S now id skill_rating sys.core).0 })
    cancels : (id : Uuid) → Step sys (record sys { core = (cancel S id sys.core).0 })
    attempts :
        (i : ℕ) (t : Readings) {s' : Shared S} {w' : WorkerState} {r : MatchAttemptResult}
        → attempt_match S (make_worker_context S i sys.core) t sys.core.shared (sys.workers i)
          ≡ some (s', w', r)
        → Step sys (record {
          core = shared_after sys s';
          workers = λ j. if j == i then w' else sys.workers j;
        })
    reaps :
        (now_ms : ℕ)
        → Step sys (record sys {
          core =
              shared_after sys
                (reaper_tick S sys.core.config.stale_claim_timeout_ms now_ms sys.core.shared);
        })

  -- The service as `main` starts it.
  abbrev pub start : Heap → Instant → Config → System S
  start heap now config = record {
    core = new S heap now config Metrics.new;
    workers = λ i. new_worker;
  }

  pub data Reachable (heap : Heap) (now : Instant) (config : Config) : System S → Type 0 where
    started : Reachable heap now config (start heap now config)
    later :
        {sys next : System S}
        → Reachable heap now config sys
        → Step sys next
        → Reachable heap now config next

  Step-IsShared :
      {sys next : System S}
      → IsShared S sys.core.shared
      → Step sys next
      → IsShared S next.core.shared
  Step-IsShared {sys} v (enqueues now id skill_rating wide) =
      enqueue-IsShared S now id skill_rating sys.core v wide
  Step-IsShared {sys} v (cancels id) = cancel-IsShared S id sys.core v
  Step-IsShared {sys} v (attempts i t e) =
      attempt_match-IsShared S (make_worker_context S i sys.core) t sys.core.shared (sys.workers i)
        v e
  Step-IsShared {sys} v (reaps now_ms) =
      reaper_tick-IsShared S sys.core.config.stale_claim_timeout_ms now_ms sys.core.shared v

  -- After any calls of `enqueue` and `cancel`, attempts of workers and scans of the Reaper that follow each other as wholes, from the
  -- start of the service, the map and the index of the pool agree, every player of
  -- the pool is Waiting or Claimed, `current_queue_size` is the number of players in the pool, and
  -- each player that was enqueued is counted as cancelled, matched or in the queue, all modulo 2^64.
  pub Reachable-IsShared :
      {heap : Heap} {now : Instant} {config : Config} {sys : System S}
      → Reachable heap now config sys
      → IsShared S sys.core.shared
  Reachable-IsShared {heap} {now} {config} started = new-IsShared S heap now config
  Reachable-IsShared (later r st) = Step-IsShared (Reachable-IsShared r) st

  -- No attempt of a worker panics in a state that the service reaches.
  pub Reachable-total :
      {heap : Heap} {now : Instant} {config : Config} {sys : System S} (i : ℕ) (t : Readings)
      → Reachable heap now config sys
      → (o : Outcome S) × (attempt_match S
            (make_worker_context S i sys.core)
            t
            sys.core.shared
            (sys.workers i)
          ≡ some o)
  Reachable-total {sys = sys} i t r =
      attempt_match_total S (make_worker_context S i sys.core) t sys.core.shared (sys.workers i)
        (Reachable-IsShared r).agrees

  abbrev pub has_shutdown : List (Ready × Readings) → Bool
  has_shutdown [] = false
  has_shutdown ((ready, t) ∷ rest) = ready.shutdown || has_shutdown rest

  pub select-cases :
      (ready : Ready)
      → ((ready.shutdown ≡ true) × (select ready ≡ stop))
        ⊎ ((ready.shutdown ≡ false) × ((select ready ≡ attempt) ⊎ (select ready ≡ sleep)))
  unfolding select
  select-cases ready = ground arith

  -- The loop of a worker never panics from a state whose pool is well-formed, whatever wakes it; the
  -- pool stays so; and the loop is left if and only if a shutdown is among the wakes.
  pub run_worker_total :
      (ctx : WorkerContext) (s : Shared S) (w : WorkerState) (rounds : List (Ready × Readings))
      → IsShared S s
      → (s' : Shared S) × (w' : WorkerState) × (run_worker S ctx s w rounds
          ≡ some (s', w', has_shutdown rounds))
        × IsShared S s'
  unfolding run_worker
  run_worker_total ctx s w [] v = (s, w, refl, v)
  run_worker_total ctx s w ((ready, t) ∷ rest) v = elim (select-cases ready) [
    | inl (b, e) ↦ (s, w, rw (e, b, run_worker) refl, v)
    | inr (b, inl e) ↦
        let ((s', w', r), o) = attempt_match_total S ctx t s w v.agrees in
        let (s'', w'', p, v'') =
          run_worker_total ctx s' w' rest (attempt_match-IsShared S ctx t s w v o) in
        (s'', w'', rw (e, b, o, run_worker) p, v'')
    | inr (b, inr e) ↦
        let (s', w', p, v') = run_worker_total ctx s w rest v in
        (s', w', rw (e, b, run_worker) p, v')
  ]
