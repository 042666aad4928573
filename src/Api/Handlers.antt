-- ===== src/Api/Handlers.antt =====
-- src/api/mod.rs: what the handlers answer.
use matchmaker.Base.{if◌then◌else◌, ℕ, ◌≡◌, inl, inr, none, some, arith, ltb, Result, ok, err}
use matchmaker.Models.Player.{Uuid, Instant, is_waiting}
use matchmaker.Engine.Bucket.Store.{ConcurrentMap}
use matchmaker.Engine.Bucket.{max_skill_rating}
use matchmaker.Engine.Core.{MatchmakerCore}
use matchmaker.Engine.Core.Queue.{view}
use matchmaker.Engine.Core.Queue.Enqueue.{enqueue-cases}
use matchmaker.Engine.Core.Queue.Cancel.{cancel-cases}
use matchmaker.Api.{AppError, EnqueueRequest, status_of, enqueue_handler, cancel_handler}

-- The status line of a response.
abbrev pub status : {A : Type 0} → Result AppError A → ℕ
status (ok a) = 200
status (err e) = status_of e

module _ (S : ConcurrentMap) (core : MatchmakerCore S) where
  -- `POST /enqueue` answers 422 if the rating is above the maximum, 409 if the identifier is in the
  -- queue, and otherwise 200.
  status-enqueue_handler :
      (now : Instant) (body : EnqueueRequest)
      → status (enqueue_handler S now body core).1 ≡ (
          if ltb max_skill_rating body.skill_rating
          then 422
          else elim (view S core.shared body.id) [ none ↦ 200 | some p ↦ 409 ])
  unfolding enqueue_handler
  status-enqueue_handler now body = elim (enqueue-cases S now body.id body.skill_rating core) [
    | inl (big, e) ↦ ground (arith, e)
    | inr (inl (small, (r, held), e)) ↦ ground (arith, e, held)
    | inr (inr (small, free, e)) ↦ ground (arith, e, free)
  ]

  -- `DELETE /enqueue/:player_id` answers 404 if the player is not in the queue, 200 if it is Waiting
  -- and 409 if it is being matched.
  status-cancel_handler :
      (id : Uuid)
      → status (cancel_handler S id core).1
        ≡ elim (view S core.shared id) [ none ↦ 404 | some p ↦ if is_waiting p then 200 else 409 ]
  unfolding cancel_handler
  status-cancel_handler id = elim (cancel-cases S id core) [
    | inl (free, e) ↦ ground (arith, e, free)
    | inr (r, held, inl (ready, e)) ↦ ground (arith, e, held, ready)
    | inr (r, held, inr (busy, e)) ↦ ground (arith, e, held, busy)
  ]
