-- ===== src/Workers/Starved.antt =====
-- src/workers/mod.rs: what becomes of a player that has no entry in the index.
use matchmaker.Base.{
  Option, ◌≡◌, refl, subst, some-eq, ◌∙◌, inl, inr, true, false, some, List, [], ◌∷◌, arith,
  Option-cases, Bool,
}
use matchmaker.Models.Memory.{Ref}
use matchmaker.Engine.Bucket.Store.{ConcurrentMap}
use matchmaker.Engine.Matcher.{WorkerContext, WorkerState, Readings, Shared, attempt_match}
use matchmaker.Engine.Matcher.Starved.{IsUnlisted, attempt_match-IsPassedOver}
use matchmaker.Workers.{Ready, run_worker}
use matchmaker.Workers.System.{select-cases}

module _ (S : ConcurrentMap) (q : Ref) (ctx : WorkerContext) where
  ended :
      (s s' : Shared S) (w w' : WorkerState) (now left : Bool)
      → IsUnlisted S q s.pool
      → ◌≡◌ {A = Option (Shared S × WorkerState × Bool)} (some (s, w, now)) (some (s', w', left))
      → (s'.heap q ≡ s.heap q) × IsUnlisted S q s'.pool
  ended s s' w w' now left u h =
      subst
        (λ (o : Shared S × WorkerState × Bool). (o.0.heap q ≡ s.heap q) × IsUnlisted S q o.0.pool)
        (some-eq h) (refl, u)

  -- However long a worker goes on, it leaves a player that has no entry in the index as it is: it never
  -- claims the player and never puts it in a match, though the pool may hold it and the player may wait
  -- longest of all.
  pub run_worker-starves :
      (s s' : Shared S) (w w' : WorkerState) (rounds : List (Ready × Readings)) (left : Bool)
      → IsUnlisted S q s.pool
      → run_worker S ctx s w rounds ≡ some (s', w', left)
      → (s'.heap q ≡ s.heap q) × IsUnlisted S q s'.pool
  unfolding run_worker
  run_worker-starves s s' w w' [] left u h = ended s s' w w' false left u h
  run_worker-starves s s' w w' ((ready, t) ∷ rest) left u h = elim (select-cases S ready) [
    | inl (_, e) ↦ ended s s' w w' true left u (rw (e, run_worker) at h)
    | inr (_, inl e) ↦ elim (Option-cases (attempt_match S ctx t s w)) [
      | inl n ↦ absurd (ground (arith, rw (e, n, run_worker) at h))
      | inr ((s₁, w₁, r), k) ↦
          let p = attempt_match-IsPassedOver S q ctx t s w u (s₁, w₁, r) k in
          let (same, unlisted) =
            run_worker-starves s₁ s' w₁ w' rest left p.unlisted (rw (e, k, run_worker) at h) in
          (same ∙ p.same, unlisted)
    ]
    | inr (_, inr e) ↦ run_worker-starves s s' w w' rest left u (rw (e, run_worker) at h)
  ]
