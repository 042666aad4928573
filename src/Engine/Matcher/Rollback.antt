-- ===== src/Engine/Matcher/Rollback.antt =====
-- src/engine/matcher.rs, phase 3: an attempt that cannot claim ten players leaves no trace on them.
use matchmaker.Base.{
  subst, ap, sym, some-eq, fetch_add, lt→ltb, ℕ, ◌<◌, ◌≡◌, some, List, arith, length, ◌∙◌,
}
use matchmaker.Models.Player.{Player, waiting, release_claim}
use matchmaker.Models.Memory.{Ref, Heap}
use matchmaker.Engine.Bucket.Store.{ConcurrentMap}
use matchmaker.Engine.Balancer.{match_size}
use matchmaker.Engine.Matcher.{
  MatchAttemptResult, record_failure, claim_failed, complete, WorkerContext, WorkerState, Readings,
  Shared, release_all, claim_phase, roll_back,
}
use matchmaker.Engine.Matcher.Claiming.{claims, claims-Claims, claimed_by_worker}
use matchmaker.Engine.Matcher.Marking.{release_all-writes}

-- No Waiting player carries the fields of a claim.
abbrev pub Unclaimed : Heap → Type 0
Unclaimed heap =
    (r : Ref)
    → (heap r).state ≡ waiting
    → ((heap r).claimed_by ≡ 0) × ((heap r).claim_timestamp ≡ 0)

release-claimed_by_worker :
    (worker_id now_ms : ℕ) (p : Player)
    → p.state ≡ waiting
    → p.claimed_by ≡ 0
    → p.claim_timestamp ≡ 0
    → release_claim (claimed_by_worker worker_id now_ms p) ≡ p
unfolding release_claim
release-claimed_by_worker worker_id now_ms p s b t = ground arith

module _ (S : ConcurrentMap) (ctx : WorkerContext) (t : Readings) (s : Shared S) (w : WorkerState)
    (seed : Ref) (cs : List Ref) where
  pub claim_phase_few :
      length (claims S ctx t s cs).1 < match_size
      → claim_phase S ctx t s w seed cs
        ≡ some (
            roll_back S
              (record s { heap = (claims S ctx t s cs).0 })
              w
              seed
              (claims S ctx t s cs).1)
  unfolding claim_phase claims
  claim_phase_few few = rw (lt→ltb _ _ few)

  restored :
      Unclaimed s.heap
      → (r : Ref) → release_all (claims S ctx t s cs).0 (claims S ctx t s cs).1 r ≡ s.heap r
  restored u r =
      release_all-writes (claims S ctx t s cs).0 (claims S ctx t s cs).1
        (claims-Claims S ctx t s cs).distinct r
      ∙ ground (
        arith,
        (claims-Claims S ctx t s cs).writes r,
        (claims-Claims S ctx t s cs).ready r,
        u r,
        release-claimed_by_worker ctx.worker_id t.claim_ms (s.heap r),
      )

  -- Such an outcome only comes from too few claims.
  claim_failed-few :
      {s' : Shared S} {w' : WorkerState} {n needed : ℕ}
      → claim_phase S ctx t s w seed cs ≡ some (s', w', claim_failed n needed)
      → length (claims S ctx t s cs).1 < match_size
  unfolding claim_phase complete claims
  claim_failed-few e = ground arith

  -- An attempt that fails to claim ten players, whatever other tasks did since it found its
  -- candidates: every player in memory is as before it, provided that no Waiting player carried the
  -- fields of a claim; so are the pool and the match history; fewer than ten had been claimed; and
  -- the failure is counted for the seed and in the metrics.
  pub claim_phase_rollback :
      {s' : Shared S} {w' : WorkerState} {n needed : ℕ}
      → Unclaimed s.heap
      → claim_phase S ctx t s w seed cs ≡ some (s', w', claim_failed n needed)
      → ((r : Ref) → s'.heap r ≡ s.heap r)
        × (s'.pool ≡ s.pool)
        × (s'.match_history ≡ s.match_history)
        × (n < needed)
        × (needed ≡ match_size)
        × (w' ≡ record_failure (s.heap seed).id w)
        × (s'.metrics ≡ record s.metrics {
          match_attempts_claim_failed = fetch_add s.metrics.match_attempts_claim_failed 1;
        })
  unfolding roll_back
  claim_phase_rollback {s'} {w'} {n} {needed} u e =
      let few = claim_failed-few e in
      let same = some-eq (sym (claim_phase_few few) ∙ e) in
      (
        λ r. ground (
          arith,
          same,
          restored u r,
          ap (λ (o : Shared S × WorkerState × MatchAttemptResult). o.0.heap r) same,
        ),
        ground (arith, same),
        ground (arith, same),
        ground (arith, same, few),
        ground (arith, same),
        ground (arith, same, (claims-Claims S ctx t s cs).writes seed),
        ground (arith, same),
      )

  kept :
      (r : Ref)
      → let after = release_all (claims S ctx t s cs).0 (claims S ctx t s cs).1 r in
        (after.state ≡ (s.heap r).state)
        × (after.id ≡ (s.heap r).id)
        × (after.skill_rating ≡ (s.heap r).skill_rating)
  unfolding release_claim
  kept r = ground (
    arith,
    release_all-writes (claims S ctx t s cs).0 (claims S ctx t s cs).1
        (claims-Claims S ctx t s cs).distinct r,
    (claims-Claims S ctx t s cs).writes r,
    (claims-Claims S ctx t s cs).ready r,
  )

  -- Without that condition, every player keeps its state, identifier and rating.
  pub claim_phase_kept :
      {s' : Shared S} {w' : WorkerState} {n needed : ℕ}
      → claim_phase S ctx t s w seed cs ≡ some (s', w', claim_failed n needed)
      → ((r : Ref)
          → ((s'.heap r).state ≡ (s.heap r).state)
            × ((s'.heap r).id ≡ (s.heap r).id)
            × ((s'.heap r).skill_rating ≡ (s.heap r).skill_rating))
        × (s'.pool ≡ s.pool)
        × (s'.next ≡ s.next)
        × (s'.match_history ≡ s.match_history)
        × (s'.metrics ≡ record s.metrics {
          match_attempts_claim_failed = fetch_add s.metrics.match_attempts_claim_failed 1;
        })
  unfolding roll_back
  claim_phase_kept {s'} e =
      let same = some-eq (sym (claim_phase_few (claim_failed-few e)) ∙ e) in
      (
        λ r.
            subst
              (λ (o : Shared S × WorkerState × MatchAttemptResult).
                ((o.0.heap r).state ≡ (s.heap r).state)
                × ((o.0.heap r).id ≡ (s.heap r).id)
                × ((o.0.heap r).skill_rating ≡ (s.heap r).skill_rating))
              same (kept r),
        ground (arith, same),
        ground (arith, same),
        ground (arith, same),
        ground (arith, same),
      )
