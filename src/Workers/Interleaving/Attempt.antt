-- ===== src/Workers/Interleaving/Attempt.antt =====
-- src/engine/matcher.rs, phases 3 to 5: an attempt that no other task interrupts.
use mathlib.Core.Path.{fun_ext}
use mathlib.Core.List.{append-nil}
use matchmaker.Base.{
  ℕ, ◌≡◌, refl, ap, ◌∙◌, some, List, [], ◌∷◌, ◌++◌, arith, length, ltb, Bool-cases, inl, inr, map,
  if◌then◌else◌,
}
use matchmaker.Models.Player.{Instant}
use matchmaker.Models.Memory.{Ref, Heap}
use matchmaker.Engine.Bucket.Store.{ConcurrentMap}
use matchmaker.Engine.Balancer.{match_size}
use matchmaker.Engine.Matcher.{
  claim_phase, WorkerContext, WorkerState, Readings, Shared, MatchAttemptResult,
}
use matchmaker.Engine.Matcher.Claiming.{claims}
use matchmaker.Engine.Matcher.Written.{claim_phase-heap}
use matchmaker.Workers.Interleaving.{
  idle, claiming, settle, World, begins, works, apply, run, update,
}
use matchmaker.Workers.Interleaving.Alone.{
  Goes, release_alone, mark_alone, claim_alone, Goes-run, at_pc,
}

module _ (S : ConcurrentMap) (ctx : WorkerContext) (t : Readings) (s : Shared S) (w : WorkerState)
    (seed : Ref) (cs : List Ref) (s' : Shared S) (w' : WorkerState) (r : MatchAttemptResult)
    (attempted : claim_phase S ctx t s w seed cs ≡ some (s', w', r)) where
  abbrev won : Heap × List Ref
  won = claims S ctx t s cs

  -- The players of the match, if one is formed.
  abbrev pub match_of : List Ref
  match_of = if ltb (length won.1) match_size then [] else won.1

  settled_alone :
      (formed : List Ref)
      → Goes ctx.worker_id s'.heap idle (formed ++ match_of) won.0 (settle t.claim_ms won.1) formed
  settled_alone formed = elim (Bool-cases (ltb (length won.1) match_size)) [
    | inl few ↦
        let same : s'.heap ≡ _ =
          rw few at (claim_phase-heap S ctx t s w seed cs s' w' r attempted) in
        rw (few, same, append-nil formed)
          (release_alone ctx.worker_id _ _ _ t.claim_ms won.0 won.1 formed Goes.here)
    | inr ten ↦
        let same : s'.heap ≡ _ =
          rw ten at (claim_phase-heap S ctx t s w seed cs s' w' r attempted) in
        rw (ten, same)
          (mark_alone ctx.worker_id _ _ _ t.matched t.claim_ms 0 won.0 won.1 [] formed Goes.here)
  ]

  attempt_alone :
      (formed : List Ref)
      → Goes ctx.worker_id s'.heap idle
          (formed ++ match_of)
          s.heap
          (claiming t.claim_ms cs [])
          formed
  unfolding claims
  attempt_alone formed =
      claim_alone ctx.worker_id _ _ _ t.claim_ms match_size s.heap cs [] formed refl
        (settled_alone formed)

  entered :
      (timeout : ℕ) (before : World)
      → before.heap ≡ s.heap
      → before.clock ≡ t.claim_ms
      → before.pc ctx.worker_id ≡ idle
      → apply timeout (begins ctx.worker_id cs) before
        ≡ at_pc timeout ctx.worker_id before s.heap (claiming t.claim_ms cs []) before.formed
  unfolding apply
  entered timeout before h c i = ground (arith, h, c, i)

  -- Taken one atomic operation at a time, with no other task in between, phases 3 to 5 of an attempt
  -- leave the memory that `claim_phase` leaves, and record the ten players that it claims if it does.
  pub claim_phase_alone :
      (timeout : ℕ) (before : World)
      → before.heap ≡ s.heap
      → before.clock ≡ t.claim_ms
      → before.pc ctx.worker_id ≡ idle
      → (ats : List Instant) × (run timeout
            (begins ctx.worker_id cs ∷ map (works ctx.worker_id) ats)
            before
          ≡ record before { heap = s'.heap; formed = before.formed ++ match_of })
  unfolding run
  claim_phase_alone timeout before h c i =
      let (ats, e) =
        Goes-run timeout ctx.worker_id before s'.heap idle (before.formed ++ match_of) s.heap
          (claiming t.claim_ms cs []) before.formed (attempt_alone before.formed) in
      let at_rest : update before.pc ctx.worker_id idle ≡ before.pc = fun_ext (λ j. ground arith) in
      (
        ats,
        ap (run timeout (map (works ctx.worker_id) ats)) (entered timeout before h c i)
            ∙ e
            ∙ ap
                (λ pc. record before {
                  heap = s'.heap;
                  pc = pc;
                  formed = before.formed ++ match_of;
                })
                at_rest,
      )
