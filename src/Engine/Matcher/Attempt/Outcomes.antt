-- ===== src/Engine/Matcher/Attempt/Outcomes.antt =====
-- src/engine/matcher.rs: `attempt_match` as a whole, with no other task between its steps.
use matchmaker.Base.{
  ◌∙◌, ℕ, ◌≤◌, ◌<◌, ◌≡◌, ◌⊎◌, ◌↔◌, inl, inr, true, some, List, arith, length, In, some-eq, sym,
  fetch_add, abs_diff, subst,
}
use matchmaker.Models.Memory.{Ref, is_held}
use matchmaker.Models.Match.{Match}
use matchmaker.Engine.Bucket.Store.{ConcurrentMap}
use matchmaker.Engine.Bucket.{max_skill_rating}
use matchmaker.Engine.Bucket.Invariant.{IsPool}
use matchmaker.Engine.Bucket.Scan.{Matches}
use matchmaker.Engine.Bucket.Seeds.{Candidate}
use matchmaker.Engine.Relaxation.{relaxation_window}
use matchmaker.Engine.Relaxation.Bounds.{scan_bounds_exact}
use matchmaker.Engine.Balancer.{match_size}
use matchmaker.Engine.Matcher.{
  WorkerContext, WorkerState, Readings, Shared, MatchAttemptResult, Outcome, pool_empty, success,
  claim_failed, insufficient_candidates, select_seed, attempt_match, claim_phase, record_failure,
  reset,
}
use matchmaker.Engine.Matcher.Claiming.{claims}
use matchmaker.Engine.Matcher.Forming.{is_held-In}
use matchmaker.Engine.Matcher.Forming.Success.{FormedFrom, claim_phase_total, claim_phase_success}
use matchmaker.Engine.Matcher.Attempt.{
  Found, bounds_of, cycle, attempt_match-cases, select_seed-Candidate,
}

module _ (S : ConcurrentMap) (ctx : WorkerContext) (t : Readings) (s : Shared S) (w : WorkerState)
    (v : IsPool S s.heap s.pool) where
  abbrev pub Sought : Ref → Ref → Type 0
  Sought seed r =
      Matches S s.heap s.pool (bounds_of S ctx t s w v seed).0 (bounds_of S ctx t s w v seed).1 r

  -- A Waiting player of the pool whose rating differs from the seed's by the seed's window at most.
  abbrev pub Near : Ref → Ref → Type 0
  Near seed r =
      Candidate S s.heap s.pool r
      × (abs_diff (s.heap r).skill_rating (s.heap seed).skill_rating
          ≤ relaxation_window t.bounds (s.heap seed).join_timestamp ctx.config)

  pub Sought-Near : (seed r : Ref) → Candidate S s.heap s.pool seed → Sought seed r → Near seed r
  Sought-Near seed r c m =
      let ((both, _), _, _, _) =
        scan_bounds_exact ctx.config t.bounds (s.heap seed).join_timestamp
          (s.heap seed).skill_rating (s.heap r).skill_rating
          (v.valid (s.heap seed).id seed c.0).0 in
      ((m.pooled, m.ready), (both (m.above, m.below)).1)

  pub Near-Sought : (seed r : Ref) → Candidate S s.heap s.pool seed → Near seed r → Sought seed r
  Near-Sought seed r c (d, near) =
      let ((_, back), _, _, _) =
        scan_bounds_exact ctx.config t.bounds (s.heap seed).join_timestamp
          (s.heap seed).skill_rating (s.heap r).skill_rating
          (v.valid (s.heap seed).id seed c.0).0 in
      let inside = back ((v.valid (s.heap r).id r d.0).0, near) in
      record { pooled = d.0; ready = d.1; above = inside.0; below = inside.1 }

  module _ (seed : Ref) (rs : List Ref) (found : Found S ctx t s w v seed rs) where
    pub found-valid : (r : Ref) → is_held r rs ≡ true → (s.heap r).skill_rating ≤ max_skill_rating
    found-valid r h = (v.valid (s.heap r).id r (found.matching r (is_held-In r rs h)).pooled).0

  -- On a pool whose structures agree, an attempt never panics.
  pub attempt_match_total : (o : Outcome S) × (attempt_match S ctx t s w ≡ some o)
  attempt_match_total = elim (attempt_match-cases S ctx t s w v) [
    | inl (_, e) ↦ (_, e)
    | inr (seed, _, rs, found, inl (_, e)) ↦ (_, e)
    | inr (seed, _, rs, found, inr (_, e)) ↦
        let (o, done, _) =
          claim_phase_total S ctx t (cycle S ctx t s w v) w seed rs (found-valid seed rs found) in
        (o, e ∙ done)
  ]

  -- Phase 3 and what follows it end in a match or in a failure to claim.
  pub claim_phase-other :
      {r : MatchAttemptResult} {s' : Shared S} {w' : WorkerState} (seed : Ref) (rs : List Ref)
      → Found S ctx t s w v seed rs
      → claim_phase S ctx t (cycle S ctx t s w v) w seed rs ≡ some (s', w', r)
      → ((m : Match) × (r ≡ success m)) ⊎ ((n : ℕ) × (r ≡ claim_failed n match_size))
  claim_phase-other {r} seed rs found e =
      let (o, done, kind) =
        claim_phase_total S ctx t (cycle S ctx t s w v) w seed rs (found-valid seed rs found) in
      subst
        (λ (x : Outcome S).
          ((m : Match) × (x.2 ≡ success m)) ⊎ ((n : ℕ) × (x.2 ≡ claim_failed n match_size)))
        (some-eq (sym done ∙ e)) kind

  -- On a pool whose structures agree, an attempt finds the pool empty exactly if no player of the
  -- pool is Waiting, and then changes nothing.
  attempt_match_empty :
      ((s' : Shared S) (w' : WorkerState)
        → attempt_match S ctx t s w ≡ some (s', w', pool_empty)
        → (s' ≡ s) × (w' ≡ w) × ((q : Ref) → Candidate S s.heap s.pool q → ⊥))
      × (((q : Ref) → Candidate S s.heap s.pool q → ⊥)
          → attempt_match S ctx t s w ≡ some (s, w, pool_empty))
  attempt_match_empty = elim (attempt_match-cases S ctx t s w v) [
    | inl (none_waits, e) ↦
        (λ s' w' h. (ground (arith, e, h), ground (arith, e, h), none_waits), λ _. e)
    | inr (seed, picked, rs, found, inl (_, e)) ↦ (
      λ s' w' h. absurd (ground (arith, e, h)),
      λ none_waits. absurd (none_waits seed (select_seed-Candidate S ctx t s w v picked)),
    )
    | inr (seed, picked, rs, found, inr (_, e)) ↦ (
      λ s' w' h. absurd (ground (arith, claim_phase-other seed rs found (sym e ∙ h))),
      λ none_waits. absurd (none_waits seed (select_seed-Candidate S ctx t s w v picked)),
    )
  ]

  -- On a pool whose structures agree, an attempt that reports `found` candidates: they are all
  -- the Waiting players of the pool whose rating differs from the seed's by its window at most,
  -- fewer than ten; the memory, the pool and the history are as before; and the failure is
  -- counted for the seed and in the metrics.
  pub attempt_match_insufficient :
      {s' : Shared S} {w' : WorkerState} {found window seed_mmr stage : ℕ}
      → attempt_match S ctx t s w
        ≡ some (s', w', insufficient_candidates found window seed_mmr stage)
      → (found < match_size)
        × ((seed : Ref) × (rs : List Ref) × (select_seed S ctx t s w ≡ some seed)
            × (length rs ≡ found)
            × ((r : Ref) → In r rs ↔ Near seed r)
            × (seed_mmr ≡ (s.heap seed).skill_rating)
            × (w' ≡ record_failure (s.heap seed).id w))
        × (s' ≡ record s {
          metrics = record s.metrics {
            worker_cycles_total = fetch_add s.metrics.worker_cycles_total 1;
            match_attempts_insufficient = fetch_add s.metrics.match_attempts_insufficient 1;
          };
        })
  attempt_match_insufficient {s'} {w'} h = elim (attempt_match-cases S ctx t s w v) [
    | inl (_, e) ↦ absurd (ground (arith, e, h))
    | inr (seed, picked, rs, found, inl (few, e)) ↦
        let c = select_seed-Candidate S ctx t s w v picked in
        let same = some-eq (sym e ∙ h) in
        (
          ground (arith, few, same),
          (
            seed,
            rs,
            picked,
            ground (arith, same),
            λ r. (
              λ m. Sought-Near seed r c (found.matching r m),
              λ near. found.all_of_few (omega (arith, few)) r (Near-Sought seed r c near),
            ),
            ground (arith, same),
            ground (arith, same),
          ),
          ground (arith, same),
        )
    | inr (seed, picked, rs, found, inr (_, e)) ↦
        absurd (ground (arith, claim_phase-other seed rs found (sym e ∙ h)))
  ]

  -- Of every match that an attempt forms on a well-formed pool: it is made of ten different Waiting
  -- players of the pool, and the rating of each differs from that of the selected seed by the seed's
  -- window at most; they are Matched now and no other player has changed; the two teams of five are
  -- these ten, and no other division into five and five has a smaller difference of ratings than
  -- `team_delta`; exactly they have left the pool; the match is the last record of the history, cut to
  -- its limit; the counters have been updated by it; and the worker's count of failures is reset.
  pub attempt_match_success :
      {s' : Shared S} {w' : WorkerState} {m : Match}
      → attempt_match S ctx t s w ≡ some (s', w', success m)
      → (w' ≡ reset w)
        × ((seed : Ref) × (cs got : List Ref) × (select_seed S ctx t s w ≡ some seed)
            × ((r : Ref) → is_held r cs ≡ true → Near seed r)
            × FormedFrom S ctx.match_history_limit cs (cycle S ctx t s w v) s' m got)
  attempt_match_success {s'} {w'} {m} h = elim (attempt_match-cases S ctx t s w v) [
    | inl (_, e) ↦ absurd (ground (arith, e, h))
    | inr (seed, picked, rs, found, inl (few, e)) ↦ absurd (ground (arith, e, h))
    | inr (seed, picked, rs, found, inr (_, e)) ↦
        let c = select_seed-Candidate S ctx t s w v picked in
        let (again, f) =
          claim_phase_success S ctx t (cycle S ctx t s w v) w seed rs (found-valid seed rs found)
            (sym e ∙ h) in
        (
          again,
          (
            seed,
            rs,
            (claims S ctx t (cycle S ctx t s w v) rs).1,
            picked,
            λ r m. Sought-Near seed r c (found.matching r (is_held-In r rs m)),
            f,
          ),
        )
  ]
