-- ===== src/Api/Router.antt =====
-- src/api/mod.rs: what every request has in common.
use matchmaker.Base.{Bool, true, false, ◌≡◌, ◌⊎◌, refl, inl, inr, arith}
use matchmaker.Models.Player.{Instant}
use matchmaker.Engine.Bucket.Store.{ConcurrentMap}
use matchmaker.Engine.Core.{MatchmakerCore}
use matchmaker.Engine.Core.Queue.Enqueue.{enqueue-cases}
use matchmaker.Engine.Core.Queue.Cancel.{cancel-cases}
use matchmaker.Api.{
  Request, post_enqueue, delete_enqueue, get_health, get_metrics, get_matches, serve,
  enqueue_handler, cancel_handler,
}

abbrev pub is_get : Request → Bool
is_get (post_enqueue body) = false
is_get (delete_enqueue player_id) = false
is_get q = true

module _ (S : ConcurrentMap) (now : Instant) (core : MatchmakerCore S) where
  -- Whatever the request that the extractors of axum have decoded (one that they reject gets their own
  -- response and reaches no handler), the response has the status 200, or it has the status 404, 409 or 422 and
  -- the core is as it was before; decoded `GET` requests always have the status 200 and never change the
  -- core.
  pub serve_outcome :
      (q : Request)
      → let (core', response) = serve S now q core in
        ((response.status ≡ 200)
          ⊎ ((core' ≡ core)
              × ((response.status ≡ 404) ⊎ (response.status ≡ 409) ⊎ (response.status ≡ 422))))
        × (is_get q ≡ true → (response.status ≡ 200) × (core' ≡ core))
  unfolding serve enqueue_handler cancel_handler
  serve_outcome (post_enqueue body) = elim (enqueue-cases S now body.id body.skill_rating core) [
    | inl (big, e) ↦
        (inr (ground (arith, e), inr (inr (ground (arith, e)))), λ h. absurd (ground arith))
    | inr (inl (small, (r, held), e)) ↦
        (inr (ground (arith, e), inr (inl (ground (arith, e)))), λ h. absurd (ground arith))
    | inr (inr (small, free, e)) ↦ (inl (ground (arith, e)), λ h. absurd (ground arith))
  ]
  serve_outcome (delete_enqueue id) = elim (cancel-cases S id core) [
    | inl (free, e) ↦ (inr (ground (arith, e), inl (ground (arith, e))), λ h. absurd (ground arith))
    | inr (r, held, inl (ready, e)) ↦ (inl (ground (arith, e)), λ h. absurd (ground arith))
    | inr (r, held, inr (busy, e)) ↦
        (inr (ground (arith, e), inr (inl (ground (arith, e)))), λ h. absurd (ground arith))
  ]
  serve_outcome get_health = (inl refl, λ h. (refl, refl))
  serve_outcome get_metrics = (inl refl, λ h. (refl, refl))
  serve_outcome (get_matches limit) = (inl refl, λ h. (refl, refl))
