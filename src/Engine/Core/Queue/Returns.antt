-- ===== src/Engine/Core/Queue/Returns.antt =====
-- src/engine/mod.rs: `enqueue` and then `cancel` of the same player.
use matchmaker.Base.{
  ◌≡◌, ◌≤◌, ℕ, ◌==◌, if◌then◌else◌, fetch_add, fetch_sub, none, some, inl, inr, arith, ok,
  fetch_sub-fetch_add, ap, ◌∙◌,
}
use matchmaker.Models.Player.{Uuid, Instant, waiting}
use matchmaker.Models.Player
use matchmaker.Engine.Bucket.Store.{ConcurrentMap}
use matchmaker.Engine.Bucket.{max_skill_rating, uuid_max, get}
use matchmaker.Engine.Core.{MatchmakerCore, enqueue, cancel}
use matchmaker.Engine.Core.Queue.{IsShared, view, forget}
use matchmaker.Engine.Core.Queue.Enqueue.{enqueue-cases, enqueue-IsShared, enqueue-view}
use matchmaker.Engine.Core.Queue.Cancel.{cancel-cases, cancel-view}

module _ (S : ConcurrentMap) (now : Instant) (id : Uuid) (skill_rating : ℕ)
    (core : MatchmakerCore S) (v : IsShared S core.shared) (wide : id ≤ uuid_max)
    (small : skill_rating ≤ max_skill_rating) (free : get S id core.shared.pool ≡ none) where
  abbrev entered : MatchmakerCore S
  entered = (enqueue S now id skill_rating core).0

  entered-IsShared : IsShared S entered.shared
  entered-IsShared = enqueue-IsShared S now id skill_rating core v wide

  entered-view :
      (j : Uuid)
      → view S entered.shared j
        ≡ (if j == id then some (Player.new id skill_rating now) else view S core.shared j)
  entered-view j = ground (arith, (enqueue-view S now id skill_rating core v).0 j, free, small)

  entered-size :
      entered.shared.metrics.current_queue_size ≡ fetch_add core.shared.metrics.current_queue_size 1
  entered-size = elim (enqueue-cases S now id skill_rating core) [
    | inl (big, e) ↦ absurd (omega (arith, big, small))
    | inr (inl (_, (r, held), e)) ↦ absurd (ground (arith, held, free))
    | inr (inr (_, _, e)) ↦ ap (λ o. o.0.shared.metrics.current_queue_size) e
  ]

  -- The cancellation finds the player Waiting.
  left-size :
      (cancel S id entered).0.shared.metrics.current_queue_size
      ≡ fetch_sub entered.shared.metrics.current_queue_size 1
  left-size = elim (cancel-cases S id entered) [
    | inl (gone, e) ↦ absurd (ground (arith, gone, entered-view id))
    | inr (r, m, inl (ready, e)) ↦ ap (λ o. o.0.shared.metrics.current_queue_size) e
    | inr (r, m, inr (busy, e)) ↦ absurd (ground (arith, m, busy, entered-view id))
  ]

  -- On a state whose pool and counters agree: a player with a valid rating and an identifier that is not
  -- in the queue joins, and a cancellation right after takes it out again. Both calls succeed, and the
  -- queue and the queue size are as before.
  pub cancel-enqueue :
      (forget (enqueue S now id skill_rating core).1 ≡ ok tt)
      × ((cancel S id (enqueue S now id skill_rating core).0).1 ≡ ok tt)
      × ((j : Uuid)
          → view S (cancel S id (enqueue S now id skill_rating core).0).0.shared j
            ≡ view S core.shared j)
      × ((cancel S id (enqueue S now id skill_rating core).0).0.shared.metrics.current_queue_size
          ≡ core.shared.metrics.current_queue_size)
  cancel-enqueue = (
    ground (arith, (enqueue-view S now id skill_rating core v).1, free, small),
    ground (arith, (cancel-view S id entered entered-IsShared).1, entered-view id),
    λ j. ground (
      arith,
      (cancel-view S id entered entered-IsShared).0 j,
      entered-view id,
      entered-view j,
      free,
    ),
    left-size
        ∙ ap (λ n. fetch_sub n 1) entered-size
        ∙ fetch_sub-fetch_add core.shared.metrics.current_queue_size 1 (omega (arith, v.counted))
            (omega arith),
  )
