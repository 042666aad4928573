-- ===== src/Workers/Spawn.antt =====
-- src/workers/mod.rs: the workers that `spawn_all` starts.
use native.Mathlib.Decide.{ℕ_discrete}
use matchmaker.Base.{
  ℕ, zero, suc, ◌+◌, ◌≤◌, ◌<◌, ◌≡◌, refl, ap, ◌∙◌, List, [], ◌∷◌, arith, length, inl, inr, map, In,
  ◌↔◌, length-map,
}
use matchmaker.Engine.Bucket.Store.{ConcurrentMap}
use matchmaker.Engine.Core.{MatchmakerCore, make_worker_context}
use matchmaker.Workers.{spawn_all, worker_ids, numbers_from}

numbers_from-In : (n first i : ℕ) → In i (numbers_from n first) → (first ≤ i) × (i < first + n)
numbers_from-In zero first i m = absurd m
numbers_from-In (suc n) first i (inl e) = omega (arith, e)
numbers_from-In (suc n) first i (inr m) =
    let k = numbers_from-In n (suc first) i m in omega (arith, k.0, k.1)

In-numbers_from : (n first i : ℕ) → first ≤ i → i < first + n → In i (numbers_from n first)
In-numbers_from zero first i h k = absurd (omega (arith, h, k))
In-numbers_from (suc n) first i h k = elim (ℕ_discrete first i) [
  | yes e ↦ inl e
  | no ne ↦ inr (In-numbers_from n (suc first) i (omega (arith, h, ne)) (omega (arith, k)))
]

length-numbers_from : (n first : ℕ) → length (numbers_from n first) ≡ n
length-numbers_from zero first = refl
length-numbers_from (suc n) first = ap suc (length-numbers_from n (suc first))

map-make_worker_context :
    (S : ConcurrentMap) (core : MatchmakerCore S) (ids : List ℕ)
    → map (λ ctx. ctx.worker_id) (map (λ id. make_worker_context S id core) ids) ≡ ids
map-make_worker_context S core [] = refl
map-make_worker_context S core (i ∷ ids) = ap (λ xs. i ∷ xs) (map-make_worker_context S core ids)

-- `spawn_all` starts as many workers as configured, with the numbers from 1 to their count; 0 is left
-- to the Reaper.
pub spawn_all-numbers :
    (S : ConcurrentMap) (core : MatchmakerCore S)
    → (length (spawn_all S core) ≡ core.config.worker_count)
      × ((i : ℕ)
          → In i (map (λ ctx. ctx.worker_id) (spawn_all S core))
            ↔ ((1 ≤ i) × (i ≤ core.config.worker_count)))
unfolding spawn_all worker_ids
spawn_all-numbers S core =
    let n = core.config.worker_count in
    (
      length-map _ (numbers_from n 1) ∙ length-numbers_from n 1,
      λ i. (
        λ m.
            let (h, k) =
              numbers_from-In n 1 i (rw (map-make_worker_context S core (numbers_from n 1)) at m) in
            (h, omega (arith, k)),
        λ (h, k).
            rw (map-make_worker_context S core (numbers_from n 1))
              (In-numbers_from n 1 i h (omega (arith, k))),
      ),
    )
