-- ===== src/Engine/Matcher/Written.antt =====
-- src/engine/matcher.rs, phases 3 to 5: what an attempt leaves in the memory.
use matchmaker.Base.{
  ◌≡◌, sym, ap, some, List, length, ltb, Bool-cases, inl, inr, if◌then◌else◌, Option-cases, some-eq,
}
use matchmaker.Models.Memory.{Ref, Heap}
use matchmaker.Engine.Bucket.Store.{ConcurrentMap}
use matchmaker.Engine.Balancer.{match_size, exhaustive_balance}
use matchmaker.Engine.Matcher.{
  release_all, mark_all, claim_phase, WorkerContext, WorkerState, Readings, Shared,
  MatchAttemptResult, Outcome, roll_back, complete, balanced,
}
use matchmaker.Engine.Matcher.Claiming.{claims}

module _ (S : ConcurrentMap) (ctx : WorkerContext) (t : Readings) (s : Shared S) (w : WorkerState)
    (seed : Ref) (cs : List Ref) where
  abbrev won : Heap × List Ref
  won = claims S ctx t s cs

  -- With too few claims all are given back, otherwise all are marked.
  pub claim_phase-heap :
      (s' : Shared S) (w' : WorkerState) (r : MatchAttemptResult)
      → claim_phase S ctx t s w seed cs ≡ some (s', w', r)
      → s'.heap ≡ (
          if ltb (length won.1) match_size
          then release_all won.0 won.1
          else mark_all t.matched 0 won.0 won.1)
  unfolding claim_phase claims roll_back complete
  claim_phase-heap s' w' r e = elim (Bool-cases (ltb (length won.1) match_size)) [
    | inl few ↦ rw few (ap (λ (o : Outcome S). o.0.heap) (some-eq (sym (rw few at e))))
    | inr ten ↦
        rw ten (elim (Option-cases (exhaustive_balance (λ r. (won.0 r).skill_rating) won.1)) [
          | inl e' ↦ absurd (cc (rw (e', balanced) at (rw ten at e)))
          | inr (b, e') ↦
              ap (λ (o : Outcome S). o.0.heap) (some-eq (sym (rw (e', balanced) at (rw ten at e))))
        ])
  ]
