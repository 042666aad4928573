-- ===== src/Engine/Core.antt =====
-- src/engine/mod.rs: `MatchmakerCore`. The shared state is the `Shared` of the matcher; `notified`
-- counts the calls of `Notify::notify_one`, and the clock is an argument. One call runs here with no
-- other task between its steps.
pub mod Queue
pub mod Accounts
use mathlib.Core.List.{reverse}
use matchmaker.Base.{
  ℕ, suc, ◌+◌, ◌-◌, ◌/◌, Bool, true, false, Option, none, some, List, [], ltb, if◌then◌else◌,
  length, take, fetch_add, fetch_sub, Result, ok, err,
}
use matchmaker.Models.Player.{Uuid, Instant, try_evict}
use matchmaker.Models.Player
use matchmaker.Models.Memory.{Ref, Heap, write}
use matchmaker.Models.Match.{Match}
use matchmaker.Metrics.{Metrics, MetricsSnapshot, snapshot}
use matchmaker.Metrics
use matchmaker.Config.{Config}
use matchmaker.Engine.Bucket.Store.{ConcurrentMap}
use matchmaker.Engine.Bucket.{max_skill_rating, insert, remove, get, contains, len}
use matchmaker.Engine.Bucket
use matchmaker.Engine.Matcher.{Shared, WorkerContext, match_history_limit}

pub data EnqueueError : Type 0 where
  already_queued : Uuid → EnqueueError
  invalid_skill_rating : (rating most : ℕ) → EnqueueError

pub data CancelError : Type 0 where
  not_found : Uuid → CancelError
  currently_being_matched : Uuid → CancelError

module _ (S : ConcurrentMap) where
  pub record MatchmakerCore : Type 0 where
    pub shared : Shared S
    pub notified : ℕ
    pub config : Config
    pub started_at : Instant

  -- `heap` is the memory at the start: no object of it is in use.
  unfoldable pub new : Heap → Instant → Config → Metrics → MatchmakerCore
  new heap now config metrics = record {
    shared = record {
      heap = heap;
      next = 0;
      held = [];
      pool = Bucket.new S;
      metrics = metrics;
      match_history = [];
    };
    notified = 0;
    config = config;
    started_at = now;
  }

  -- The player is allocated at `next`.
  abbrev pub enqueued : Instant → Uuid → ℕ → Shared S → Shared S
  enqueued now id skill_rating s =
      let heap = write s.heap s.next (Player.new id skill_rating now) in
      record s {
        heap = heap;
        next = suc s.next;
        pool = insert S heap s.next s.pool;
        metrics = record s.metrics {
          total_players_enqueued = fetch_add s.metrics.total_players_enqueued 1;
          current_queue_size = fetch_add s.metrics.current_queue_size 1;
        };
      }

  unfoldable pub enqueue :
      Instant → Uuid → ℕ → MatchmakerCore → MatchmakerCore × Result EnqueueError ℕ
  enqueue now id skill_rating core =
      let shared' = enqueued now id skill_rating core.shared in
      if ltb max_skill_rating skill_rating
      then (core, err (invalid_skill_rating skill_rating max_skill_rating))
      else if contains S id core.shared.pool
      then (core, err (already_queued id))
      else (record core { shared = shared'; notified = core.notified + 1 }, ok (len S shared'.pool))

  abbrev pub cancelled : Uuid → Heap → Shared S → Shared S
  cancelled id heap s = record s {
    heap = heap;
    pool = (remove S heap id s.pool).1;
    metrics = record s.metrics {
      total_players_cancelled = fetch_add s.metrics.total_players_cancelled 1;
      current_queue_size = fetch_sub s.metrics.current_queue_size 1;
    };
  }

  unfoldable pub cancel : Uuid → MatchmakerCore → MatchmakerCore × Result CancelError (Unit {0})
  cancel id core = elim (get S id core.shared.pool) [
    | none ↦ (core, err (not_found id))
    | some r ↦
        let tried = try_evict (core.shared.heap r) in
        let heap = write core.shared.heap r tried.0 in
        if tried.1
        then (record core { shared = cancelled id heap core.shared }, ok tt)
        else (core, err (currently_being_matched id))
  ]

  -- Newest first.
  unfoldable pub recent_matches : ℕ → MatchmakerCore → List Match
  recent_matches limit core = take limit (reverse core.shared.match_history)

  abbrev pub total_matches_formed : MatchmakerCore → ℕ
  total_matches_formed core = core.shared.metrics.total_matches_created

  abbrev pub metrics_snapshot : MatchmakerCore → MetricsSnapshot
  metrics_snapshot core = snapshot core.shared.metrics

  -- The word of an i64.
  abbrev pub players_waiting : MatchmakerCore → ℕ
  players_waiting core = core.shared.metrics.current_queue_size

  abbrev pub uptime_secs : Instant → MatchmakerCore → ℕ
  uptime_secs now core = (now - core.started_at) / 1000000000

  abbrev pub make_worker_context : ℕ → MatchmakerCore → WorkerContext
  make_worker_context worker_id core = record {
    worker_id = worker_id;
    config = core.config;
    match_history_limit = match_history_limit;
  }
