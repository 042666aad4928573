-- ===== src/Engine/Core/Queue/Enqueue.antt =====
-- src/engine/mod.rs: `enqueue` on all its branches.
use matchmaker.Base.{
  ap, inl, inr, ◌⊎◌, ℕ, ◌+◌, ◌≤◌, ◌<◌, ◌≡◌, refl, none, some, arith, ◌==◌, if◌then◌else◌, ok, err,
  Option-cases,
}
use matchmaker.Models.Player.{Uuid, Instant, Player, waiting, claimed, is_waiting, try_evict}
use matchmaker.Models.Player
use matchmaker.Models.Memory.{Ref, Heap, write}
use matchmaker.Engine.Bucket.Store.{ConcurrentMap}
use matchmaker.Engine.Bucket.{max_skill_rating, uuid_max, insert, get, len}
use matchmaker.Engine.Bucket.Index.{index_insert}
use matchmaker.Engine.Bucket.Invariant.{IsPool, insert-IsPool}
use matchmaker.Engine.Matcher.{Shared}
use matchmaker.Engine.Core.Queue.{forget, enqueue_spec, view, seen, IsShared}
use matchmaker.Engine.Core.{enqueued, MatchmakerCore, already_queued, invalid_skill_rating, enqueue}

module _ (S : ConcurrentMap) (now : Instant) (id : Uuid) (skill_rating : ℕ)
    (core : MatchmakerCore S) where
  pub enqueue-cases :
      (max_skill_rating < skill_rating
        × (enqueue S now id skill_rating core
            ≡ (core, err (invalid_skill_rating skill_rating max_skill_rating))))
      ⊎ (skill_rating ≤ max_skill_rating
          × ((r : Ref) × (get S id core.shared.pool ≡ some r))
          × (enqueue S now id skill_rating core ≡ (core, err (already_queued id))))
      ⊎ (skill_rating ≤ max_skill_rating
          × (get S id core.shared.pool ≡ none)
          × (enqueue S now id skill_rating core ≡ (
            record core {
              shared = enqueued S now id skill_rating core.shared;
              notified = core.notified + 1;
            },
            ok (len S (enqueued S now id skill_rating core.shared).pool),
          )))
  unfolding enqueue
  enqueue-cases = elim (Option-cases (get S id core.shared.pool)) [
    | inl e ↦ ground (arith, e)
    | inr (r, e) ↦ ground (arith, e)
  ]

  accepted :
      (heap' : Heap)
      → heap' core.shared.next ≡ Player.new id skill_rating now
      → insert S heap' core.shared.next core.shared.pool ≡ record {
        primary = S.insert id core.shared.next core.shared.pool.primary;
        index = index_insert (skill_rating, id) core.shared.next core.shared.pool.index;
      }
  unfolding insert
  accepted heap' e = rw e refl

  module _ (v : IsShared S core.shared) where
    abbrev s : Shared S
    s = core.shared

    abbrev heap' : Heap
    heap' = write s.heap s.next (Player.new id skill_rating now)

    at_next : heap' s.next ≡ Player.new id skill_rating now
    at_next = ground arith

    same_pooled : (j : ℕ) (r : Ref) → get S j s.pool ≡ some r → heap' r ≡ s.heap r
    same_pooled j r e = ground (arith, v.fresh j r e)

    still-IsPool : IsPool S heap' s.pool
    still-IsPool = record {
      keyed = λ j r e. ground (arith, same_pooled j r e, v.agrees.keyed j r e);
      valid = λ j r e. ground (arith, same_pooled j r e, v.agrees.valid j r e);
      indexed = λ j r e. rw (same_pooled j r e) (v.agrees.indexed j r e);
      listed = λ rating j r e.
          let (m, q) = v.agrees.listed rating j r e in (m, ground (arith, same_pooled j r m));
      sorted = v.agrees.sorted;
    }

    pub pooled_after :
        (j : ℕ)
        → get S j (enqueued S now id skill_rating s).pool
          ≡ (if j == id then some s.next else get S j s.pool)
    pooled_after j = rw (accepted heap' at_next) (S.get-insert id j s.next s.pool.primary)

    len_after :
        get S id s.pool ≡ none → len S (enqueued S now id skill_rating s).pool ≡ len S s.pool + 1
    len_after e = rw (accepted heap' at_next) (S.len-insert id s.next s.pool.primary e)

    enqueued-IsShared :
        skill_rating ≤ max_skill_rating
        → get S id s.pool ≡ none
        → id ≤ uuid_max
        → IsShared S (enqueued S now id skill_rating s)
    enqueued-IsShared small e wide = record {
      agrees =
          insert-IsPool S heap' s.next s.pool (ground (arith, at_next)) (ground (arith, at_next))
            (ground (arith, at_next)) still-IsPool;
      fresh = λ j r m. ground (arith, pooled_after j, v.fresh j r);
      live = λ j r m. ground (arith, pooled_after j, v.live j r, v.fresh j r);
      counted = ground (arith, v.counted, len_after e);
      conserved = ground (arith, v.conserved);
    }

    -- Whatever `enqueue` answers, the pool stays well-formed and the counters right.
    pub enqueue-IsShared : id ≤ uuid_max → IsShared S (enqueue S now id skill_rating core).0.shared
    enqueue-IsShared wide = elim enqueue-cases [
      | inl (_, e) ↦ rw e v
      | inr (inl (_, _, e)) ↦ rw e v
      | inr (inr (small, free, e)) ↦ rw e (enqueued-IsShared small free wide)
    ]

    pub view_after : (j : Uuid) → seen S heap' (get S j s.pool) ≡ view S s j
    view_after j = elim (Option-cases (get S j s.pool)) [
      | inl e ↦ rw e refl
      | inr (r, e) ↦ rw e (ap some (same_pooled j r e))
    ]

    -- On a pool whose structures and counters agree, `enqueue` does to the queue what it
    -- promises, and answers so: a rating above the maximum or an identifier in the queue is
    -- refused, and the queue is as before; otherwise exactly the new player is added, Waiting
    -- since now.
    pub enqueue-view :
        ((j : Uuid)
          → view S (enqueue S now id skill_rating core).0.shared j
            ≡ (enqueue_spec now id skill_rating (view S core.shared)).0 j)
        × (forget (enqueue S now id skill_rating core).1
            ≡ (enqueue_spec now id skill_rating (view S core.shared)).1)
    enqueue-view = elim enqueue-cases [
      | inl (big, e) ↦ ground (arith, e)
      | inr (inl (small, (r, held), e)) ↦ (λ j. ground (arith, e, held), ground (arith, e, held))
      | inr (inr (small, free, e)) ↦
          (λ j. ground (arith, e, free, pooled_after j, view_after j), ground (arith, e, free))
    ]
