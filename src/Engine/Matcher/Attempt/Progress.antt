-- ===== src/Engine/Matcher/Attempt/Progress.antt =====
-- src/engine/matcher.rs: an attempt that nobody interferes with forms a match if it can.
use matchmaker.Base.{
  inl, inr, ◌∙◌, ◌≤◌, ◌≡◌, true, some, List, arith, length, sym, some-eq, subst, Bool-cases, ltb,
  ltb→lt,
}
use matchmaker.Models.Memory.{Ref, is_held, Distinct}
use matchmaker.Models.Match.{Match}
use matchmaker.Engine.Bucket.Store.{ConcurrentMap}
use matchmaker.Engine.Bucket.Invariant.{IsPool}
use matchmaker.Engine.Bucket.Sorted.{Distinct-length}
use matchmaker.Engine.Balancer.{match_size}
use matchmaker.Engine.Matcher.{
  WorkerContext, WorkerState, Readings, Shared, success, select_seed, attempt_match, reset,
}
use matchmaker.Engine.Matcher.Claiming.{claims, claims-Claims}
use matchmaker.Engine.Matcher.Forming.{In-is_held, is_held-In}
use matchmaker.Engine.Matcher.Forming.Success.{claim_phase-ten}
use matchmaker.Engine.Matcher.Attempt.{Found, cycle, attempt_match-cases, select_seed-Candidate}
use matchmaker.Engine.Matcher.Attempt.Outcomes.{Near, Near-Sought, found-valid}

module _ (S : ConcurrentMap) (ctx : WorkerContext) (t : Readings) (s : Shared S) (w : WorkerState)
    (v : IsPool S s.heap s.pool) where
  -- All the candidates are Waiting, so that ten of them are claimed.
  pub claims_ten :
      (seed : Ref) (rs : List Ref)
      → Found S ctx t s w v seed rs
      → match_size ≤ length rs
      → length (claims S ctx t (cycle S ctx t s w v) rs).1 ≡ match_size
  claims_ten seed rs found many =
      let k = claims-Claims S ctx t (cycle S ctx t s w v) rs in
      let got = (claims S ctx t (cycle S ctx t s w v) rs).1 in
      elim (Bool-cases (ltb (length got) match_size)) [
        | inl few ↦
            let less = ltb→lt _ _ few in
            absurd (
              omega (
                arith,
                less,
                many,
                Distinct-length rs got found.distinct
                    (λ r m. k.eager less r m (found.matching r (is_held-In r rs m)).ready),
              ))
        | inr enough ↦ ground (arith, enough, k.bounded)
      ]

  -- On a pool whose structures agree: if there are ten or more different Waiting players of the
  -- pool whose rating differs from that of the selected seed by its window at most (the seed
  -- itself counts), an attempt that no other task interferes with forms a match.
  pub attempt_match_progress :
      (seed : Ref) (ps : List Ref)
      → select_seed S ctx t s w ≡ some seed
      → Distinct ps
      → match_size ≤ length ps
      → ((r : Ref) → is_held r ps ≡ true → Near S ctx t s w v seed r)
      → (s' : Shared S) × (m : Match) × (attempt_match S ctx t s w ≡ some (s', reset w, success m))
  attempt_match_progress seed ps picked d many near = elim (attempt_match-cases S ctx t s w v) [
    | inl (none_waits, _) ↦ absurd (none_waits seed (select_seed-Candidate S ctx t s w v picked))
    | inr (seed', picked', rs, found', inl (few, _)) ↦
        let found = subst (λ p. Found S ctx t s w v p rs) (some-eq (sym picked' ∙ picked)) found' in
        absurd (
          omega (
            arith,
            few,
            many,
            Distinct-length ps rs d (λ r m. In-is_held r rs (
                found.all_of_few (omega (arith, few)) r (
                  Near-Sought S ctx t s w v seed r (select_seed-Candidate S ctx t s w v picked)
                    (near r m)))),
          ))
    | inr (seed', picked', rs, found, inr (enough, e)) ↦
        let (s', m, done, _) =
          claim_phase-ten S ctx t (cycle S ctx t s w v) w seed' rs
            (found-valid S ctx t s w v seed' rs found) (claims_ten seed' rs found enough) in
        (s', m, e ∙ done)
  ]
