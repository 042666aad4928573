-- ===== src/Engine/Matcher/State.antt =====
-- src/engine/matcher.rs: what a worker knows, what an attempt reads and returns, and the state that all
-- tasks share.
use matchmaker.Base.{ℕ, ◌+◌, Bool, false, Option, none, some, List, ◌==◌, if◌then◌else◌, u32}
use matchmaker.Models.Player.{Uuid, Instant}
use matchmaker.Models.Memory.{Ref, Heap}
use matchmaker.Models.Match.{Match}
use matchmaker.Metrics.{Metrics}
use matchmaker.Config.{Config}
use matchmaker.Engine.Bucket.Store.{ConcurrentMap}
use matchmaker.Engine.Bucket.{PlayerPool}

-- What a worker knows besides the shared state.
pub record WorkerContext : Type 0 where
  pub worker_id : ℕ
  pub config : Config
  pub match_history_limit : ℕ

pub data MatchAttemptResult : Type 0 where
  success : Match → MatchAttemptResult
  pool_empty : MatchAttemptResult
  insufficient_candidates : (found window seed_mmr stage : ℕ) → MatchAttemptResult
  claim_failed : (claimed needed : ℕ) → MatchAttemptResult

pub record WorkerState : Type 0 where
  pub consecutive_failures : ℕ
  pub current_seed_id : Option Uuid

abbrev pub new_worker : WorkerState
new_worker = record { consecutive_failures = 0; current_seed_id = none }

abbrev pub reset : WorkerState → WorkerState
reset w = record w { consecutive_failures = 0; current_seed_id = none }

abbrev pub is_seed : Option Uuid → Uuid → Bool
is_seed none id = false
is_seed (some seed) id = seed == id

abbrev pub record_failure : Uuid → WorkerState → WorkerState
record_failure seed_id w =
    if is_seed w.current_seed_id seed_id
    then record w { consecutive_failures = u32 (w.consecutive_failures + 1) }
    else record w { consecutive_failures = 1; current_seed_id = some seed_id }

abbrev pub seed_retry_limit : ℕ
seed_retry_limit = 3

abbrev pub match_history_limit : ℕ
match_history_limit = 10000

-- What the clocks show and the random generator yields during one attempt, in the order of use.
pub record Readings : Type 0 where
  pub guard : Instant
  pub bounds : Instant
  pub stage : Instant
  pub claim_ms : ℕ
  pub matched : ℕ → Instant
  pub late : Instant
  pub match_id : Uuid
  pub formed_at_unix : ℕ

-- The state that all tasks share: the players in memory, the references that other tasks hold, the
-- pool, the counters and the match history, oldest first. Objects from `next` on are not in use.
pub record Shared (S : ConcurrentMap) : Type 0 where
  pub heap : Heap
  pub next : Ref
  pub held : List Ref
  pub pool : PlayerPool S
  pub metrics : Metrics
  pub match_history : List Match
