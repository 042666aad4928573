-- ===== src/Engine/Core/Queue/Race.antt =====
-- src/engine/mod.rs: two calls of `enqueue` whose tests both come before both insertions.
use native.Mathlib.Decide.{ℕ_discrete}
use matchmaker.Base.{
  ℕ, Option-cases, ap, sym, ◌∙◌, ◌+◌, ◌≡◌, ◌≢◌, ◌⊎◌, inl, inr, refl, false, none, some, arith, ◌==◌,
  ltb, if◌then◌else◌, Result, ok, err, u64,
}
use matchmaker.Models.Player.{Uuid, Instant}
use matchmaker.Engine.Bucket.Store.{ConcurrentMap}
use matchmaker.Engine.Bucket.{PlayerPool, max_skill_rating, insert, get, len, contains}
use matchmaker.Engine.Core.Queue.{IsShared}
use matchmaker.Engine.Core.{
  enqueued, MatchmakerCore, EnqueueError, already_queued, invalid_skill_rating, enqueue,
}

pub record Call : Type 0 where
  pub now : Instant
  pub id : Uuid
  pub skill_rating : ℕ

module _ (S : ConcurrentMap) where
  -- The tests with which `enqueue` begins.
  abbrev pub admits : Call → PlayerPool S → Result EnqueueError (Unit {0})
  admits c pool =
      if ltb max_skill_rating c.skill_rating
      then err (invalid_skill_rating c.skill_rating max_skill_rating)
      else if contains S c.id pool
      then err (already_queued c.id)
      else ok tt

  -- What it does once they have passed.
  abbrev pub enters : Call → MatchmakerCore S → MatchmakerCore S
  enters c core = record core {
    shared = enqueued S c.now c.id c.skill_rating core.shared;
    notified = core.notified + 1;
  }

  abbrev pub one_call : Call → MatchmakerCore S → MatchmakerCore S
  one_call c core = (enqueue S c.now c.id c.skill_rating core).0

  -- `enqueue` is the one after the other.
  enqueue-admits :
      (c : Call) (core : MatchmakerCore S)
      → one_call c core
        ≡ elim (admits c core.shared.pool) [ ok done ↦ enters c core | err e ↦ core ]
  unfolding enqueue
  enqueue-admits c core = ground arith

  one_call-enters :
      (c : Call) (core : MatchmakerCore S)
      → admits c core.shared.pool ≡ ok tt
      → one_call c core ≡ enters c core
  one_call-enters c core e = enqueue-admits c core ∙ rw e refl

  -- A call is admitted if its rating is valid and its identifier is not in the queue.
  admitted :
      (c : Call) (pool : PlayerPool S)
      → admits c pool ≡ ok tt
      → (ltb max_skill_rating c.skill_rating ≡ false) × (get S c.id pool ≡ none)
  admitted c pool e = elim (Option-cases (get S c.id pool)) [
    | inl free ↦ (ground (arith, e, free), free)
    | inr (r, held) ↦ absurd (ground (arith, e, held))
  ]

  admits_free :
      (c : Call) (pool : PlayerPool S)
      → ltb max_skill_rating c.skill_rating ≡ false
      → get S c.id pool ≡ none
      → admits c pool ≡ ok tt
  admits_free c pool small free = ground (arith, small, free)

  module _ (c : Call) (core : MatchmakerCore S) where
    primary_after :
        (enters c core).shared.pool.primary
        ≡ S.insert c.id core.shared.next core.shared.pool.primary
    unfolding insert
    primary_after = ap (λ id. S.insert id core.shared.next core.shared.pool.primary) (ground arith)

    get-enters :
        (j : Uuid)
        → get S j (enters c core).shared.pool
          ≡ (if j == c.id then some core.shared.next else get S j core.shared.pool)
    get-enters j =
        ap (S.get j) primary_after ∙ S.get-insert c.id j core.shared.next core.shared.pool.primary

  module _ (core : MatchmakerCore S) (a b : Call) (v : IsShared S core.shared)
      (a_admitted : admits a core.shared.pool ≡ ok tt)
      (b_admitted : admits b core.shared.pool ≡ ok tt) where
    abbrev pub raced : MatchmakerCore S
    raced = enters b (enters a core)

    apart : a.id ≢ b.id → raced ≡ one_call b (one_call a core)
    apart other = rw (one_call-enters a core a_admitted) (
        sym (
          one_call-enters b (enters a core) (
            admits_free b (enters a core).shared.pool (admitted b core.shared.pool b_admitted).0 (
              ground (arith, get-enters a core b.id, (admitted b core.shared.pool b_admitted).1)))))

    len_raced : a.id ≡ b.id → len S raced.shared.pool ≡ len S core.shared.pool + 1
    len_raced same =
        ap S.len (primary_after b (enters a core))
        ∙ S.len-insert_again b.id (enters a core).shared.next core.shared.next
            (enters a core).shared.pool.primary (ground (arith, get-enters a core b.id))
        ∙ ap S.len (primary_after a core)
        ∙ S.len-insert a.id core.shared.next core.shared.pool.primary
            (admitted a core.shared.pool a_admitted).1

    counted_raced :
        a.id ≡ b.id → raced.shared.metrics.current_queue_size ≡ u64 (len S raced.shared.pool + 1)
    counted_raced same = omega (arith, len_raced same, v.counted)

    -- When the tests of two calls both pass before either inserts its player, then with different
    -- identifiers the outcome is that of the two calls one after the other; with one identifier the
    -- queue size counts one player more than the pool holds, and the invariant of the core is lost.
    pub race_outcome :
        ((a.id ≢ b.id) × (raced ≡ one_call b (one_call a core)))
        ⊎ ((a.id ≡ b.id)
            × (raced.shared.metrics.current_queue_size ≡ u64 (len S raced.shared.pool + 1))
            × ¬ IsShared S raced.shared)
    race_outcome = elim (ℕ_discrete a.id b.id) [
      | no other ↦ inl (other, apart other)
      | yes same ↦
          inr (same, counted_raced same, λ w. absurd (omega (arith, counted_raced same, w.counted)))
    ]
