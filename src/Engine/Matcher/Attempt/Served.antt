-- ===== src/Engine/Matcher/Attempt/Served.antt =====
-- src/engine/matcher.rs: an attempt serves the player who waits longest, if it has waited long enough.
use matchmaker.Base.{
  Bool, ◌≡◌, ◌≤◌, ◌<◌, ◌↔◌, inl, inr, subst, sym, ◌∙◌, some-eq, true, false, some, List, ◌∷◌, arith,
  length, abs_diff, ◌&&◌, leb,
}
use matchmaker.Models.Player.{matched, elapsed_ms}
use matchmaker.Models.Memory.{Ref, is_held, Distinct}
use matchmaker.Models.Match.{Match}
use matchmaker.Config.Valid.{IsConsistent}
use matchmaker.Engine.Bucket.Store.{ConcurrentMap}
use matchmaker.Engine.Bucket.{max_candidates_per_scan, range_scan}
use matchmaker.Engine.Bucket.Invariant.{IsPool}
use matchmaker.Engine.Bucket.Order.{older_total}
use matchmaker.Engine.Bucket.Seeds.{Candidate}
use matchmaker.Engine.Bucket.Sorted.{Distinct-length}
use matchmaker.Engine.Balancer.{match_size}
use matchmaker.Engine.Relaxation.Bounds.{relaxation_window_last}
use matchmaker.Engine.Matcher.{
  WorkerContext, WorkerState, Readings, Shared, success, select_seed, attempt_match, reset, is_seed,
  seed_retry_limit,
}
use matchmaker.Engine.Matcher.Forming.{is_held-In}
use matchmaker.Engine.Matcher.Attempt.{
  relaxation_window, Primary, bounds_of, select_seed-cases, discover-Found,
}
use matchmaker.Engine.Matcher.Attempt.Outcomes.{Sought-Near}
use matchmaker.Engine.Matcher.Attempt.Progress.{attempt_match_progress}
use matchmaker.Engine.Matcher.Attempt.Anchor.{attempt_match_anchor}

module _ (S : ConcurrentMap) (ctx : WorkerContext) (t : Readings) (s : Shared S) (w : WorkerState)
    (v : IsPool S s.heap s.pool) where
  -- The player has waited to the end of stage 4.
  abbrev pub HasWaited : Ref → Type 0
  HasWaited p = ctx.config.relaxation_stage_4_ms ≤ elapsed_ms t.bounds (s.heap p).join_timestamp

  -- A Waiting player of the pool within the last half-width of the rating of `p`.
  abbrev pub Reached : Ref → Ref → Type 0
  Reached p r =
      Candidate S s.heap s.pool r
      × (abs_diff (s.heap r).skill_rating (s.heap p).skill_rating
          ≤ ctx.config.relaxation_stage_5_delta)

  -- The worker has failed on the player three times in a row or more.
  abbrev pub is_given_up : Ref → Bool
  is_given_up p =
      is_seed w.current_seed_id (s.heap p).id && leb seed_retry_limit w.consecutive_failures

  Primary-unique : {p q : Ref} → Primary S ctx t s w v p → Primary S ctx t s w v q → p ≡ q
  Primary-unique {p} {q} (c, first) (d, other) =
      let same = older_total (s.heap p) (s.heap q) (other p c) (first q d) in
      ground (arith, same, c.0, d.0)

  -- The oldest Waiting player is the seed, unless the worker has failed on it too often.
  select_seed-Primary :
      (p : Ref) → Primary S ctx t s w v p → is_given_up p ≡ false → select_seed S ctx t s w ≡ some p
  select_seed-Primary p first fresh = elim (select_seed-cases S ctx t s w v) [
    | inl (_, none_waits) ↦ absurd (none_waits p first.0)
    | inr (q, first', inl e) ↦
        subst (λ r. select_seed S ctx t s w ≡ some r) (Primary-unique first' first) e
    | inr (q, first', inr (_, _, (seed, often, _, _))) ↦
        absurd (ground (arith, seed, often, fresh, Primary-unique first' first))
  ]

  module _ (p : Ref) (ps : List Ref) (consistent : IsConsistent ctx.config) (waited : HasWaited p)
      (d : Distinct ps) (few : length ps < max_candidates_per_scan)
      (reached : (r : Ref) → (is_held r ps ≡ true) ↔ Reached p r)
      (first : Primary S ctx t s w v p) where
    window :
        ◌≡◌
          (relaxation_window t.bounds (s.heap p).join_timestamp ctx.config)
          (ctx.config.relaxation_stage_5_delta)
    window = relaxation_window_last ctx.config t.bounds (s.heap p).join_timestamp consistent waited

    -- The scan has not found as many as it stops at.
    not_full :
        (rs : List Ref)
        → range_scan S s.heap
            (p ∷ s.held)
            s.pool
            (bounds_of S ctx t s w v p).0
            (bounds_of S ctx t s w v p).1
          ≡ some rs
        → length rs < max_candidates_per_scan
    not_full rs e =
        let (rs', found, _) = discover-Found S ctx t s w v p first.0 in
        let most : length rs' ≤ length ps = Distinct-length rs' ps found.distinct (λ r m.
          let (c, near) =
            Sought-Near S ctx t s w v p r first.0 (found.matching r (is_held-In r rs' m)) in
          (reached r).1 (c, rw (← window) near)) in
        subst (λ xs. length xs < max_candidates_per_scan) (some-eq (sym found.scanned ∙ e))
          (omega (arith, most, few))

    -- On a pool whose structures agree, with a consistent configuration: let a player be the oldest
    -- Waiting one, have waited to the end of stage 4, and not be one that the worker has failed on
    -- three times in a row or more. If at least ten and fewer than 200 Waiting players of the pool
    -- are within the last half-width of its rating, the attempt forms a match, and the player is in it.
    pub attempt_match_served :
        match_size ≤ length ps
        → is_given_up p ≡ false
        → (s' : Shared S) × (m : Match) × (attempt_match S ctx t s w
            ≡ some (s', reset w, success m))
          × ((s'.heap p).state ≡ matched)
    attempt_match_served many fresh =
        let picked = select_seed-Primary p first fresh in
        let (s', m, done) =
          attempt_match_progress S ctx t s w v p ps picked d many
            (λ r h. let (c, near) = (reached r).0 h in (c, rw window near)) in
        (
          s',
          m,
          done,
          elim (attempt_match_anchor S ctx t s w v done picked first) [
            | inl e ↦ e
            | inr (rs, full, e) ↦ absurd (omega (arith, full, not_full rs e))
          ],
        )
