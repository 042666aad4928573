-- ===== src/Engine/Core/Queue.antt =====
-- src/engine/mod.rs: the invariant of the core, and `enqueue` and `cancel` against the queue that
-- they promise: a map from identifiers to players.
pub mod Enqueue
pub mod Cancel
pub mod Race
pub mod Returns
use matchmaker.Base.{
  ap, sym, inl, inr, ◌⊎◌, ℕ, suc, ◌+◌, ◌≤◌, ◌<◌, ◌≡◌, refl, Bool, true, false, Option, none, some,
  arith, ◌==◌, ltb, if◌then◌else◌, u64, Result, ok, err, fetch_add, fetch_sub, Option-cases,
  Bool-cases,
}
use matchmaker.Models.Player.{Uuid, Instant, Player, waiting, claimed, is_waiting, try_evict}
use matchmaker.Models.Player
use matchmaker.Models.Memory.{Ref, Heap, write}
use matchmaker.Metrics
use matchmaker.Config.{Config}
use matchmaker.Engine.Bucket.Store.{ConcurrentMap}
use matchmaker.Engine.Bucket.{max_skill_rating, uuid_max, insert, get, len, remove}
use matchmaker.Engine.Bucket
use matchmaker.Engine.Bucket.Invariant.{
  IsPool, new-IsPool, insert-IsPool, remove-IsPool, IsPool-SameKeys,
}
use matchmaker.Engine.Matcher.{Shared}
use matchmaker.Engine.Core.{
  MatchmakerCore, EnqueueError, already_queued, invalid_skill_rating, CancelError, not_found,
  currently_being_matched, new, enqueue, cancel,
}

-- The counters agree with the pool: the queue size is the number of players in the pool, and each
-- player that came is cancelled, matched or in the queue. The words wrap.
pub record IsShared (S : ConcurrentMap) (s : Shared S) : Type 0 where
  pub agrees : IsPool S s.heap s.pool
  pub fresh : (id : ℕ) (r : Ref) → get S id s.pool ≡ some r → r < s.next
  pub live : (id : ℕ) (r : Ref) → get S id s.pool ≡ some r → (s.heap r).state ≤ claimed
  pub counted : s.metrics.current_queue_size ≡ u64 (len S s.pool)
  pub conserved :
      u64 s.metrics.total_players_enqueued
      ≡ u64 (
          s.metrics.total_players_cancelled + s.metrics.total_players_matched
          + s.metrics.current_queue_size)

-- The queue as its clients see it.
abbrev pub View : Type 0
View = Uuid → Option Player

-- What `enqueue` and `cancel` promise of the queue.
abbrev pub enqueue_spec : Instant → Uuid → ℕ → View → View × Result EnqueueError (Unit {0})
enqueue_spec now id skill_rating v =
    if ltb max_skill_rating skill_rating
    then (v, err (invalid_skill_rating skill_rating max_skill_rating))
    else elim (v id) [
      | none ↦ (λ j. if j == id then some (Player.new id skill_rating now) else v j, ok tt)
      | some p ↦ (v, err (already_queued id))
    ]

abbrev pub cancel_spec : Uuid → View → View × Result CancelError (Unit {0})
cancel_spec id v = elim (v id) [
  | none ↦ (v, err (not_found id))
  | some p ↦
      if is_waiting p
      then (λ j. if j == id then none else v j, ok tt)
      else (v, err (currently_being_matched id))
]

abbrev pub forget : Result EnqueueError ℕ → Result EnqueueError (Unit {0})
forget (ok n) = ok tt
forget (err e) = err e

module _ (S : ConcurrentMap) where
  abbrev pub seen : Heap → Option Ref → Option Player
  seen heap none = none
  seen heap (some r) = some (heap r)

  abbrev pub view : Shared S → Uuid → Option Player
  view s id = seen s.heap (get S id s.pool)

  pub new-IsShared :
      (heap : Heap) (now : Instant) (config : Config)
      → IsShared S (new S heap now config Metrics.new).shared
  unfolding new Bucket.new
  new-IsShared heap now config = record {
    agrees = new-IsPool S heap;
    fresh = λ id r e. absurd (ground (arith, S.get-new id));
    live = λ id r e. absurd (ground (arith, S.get-new id));
    counted = ground (arith, S.len-new);
    conserved = refl;
  }
