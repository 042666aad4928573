-- ===== src/Engine/Matcher/Attempt/Shrinks.antt =====
-- src/engine/matcher.rs: once every player has waited long enough, attempts shrink the queue.
use matchmaker.Base.{
  ℕ, ◌≡◌, ◌≤◌, ◌<◌, ◌-◌, ◌⊎◌, inl, inr, refl, ◌∙◌, true, false, some, List, [], ◌∷◌, ◌++◌, arith,
  length, length-append, abs_diff, Bool-cases,
}
use matchmaker.Models.Memory.{Ref, is_held, Distinct}
use matchmaker.Models.Memory.Held.{Distinct-append, is_held-append}
use matchmaker.Models.Match.{Match}
use matchmaker.Config.Valid.{IsConsistent}
use matchmaker.Engine.Bucket.Store.{ConcurrentMap}
use matchmaker.Engine.Bucket.{max_skill_rating}
use matchmaker.Engine.Bucket.Invariant.{IsPool}
use matchmaker.Engine.Bucket.Seeds.{Candidate}
use matchmaker.Engine.Bucket.Sorted.{Distinct-length}
use matchmaker.Engine.Balancer.{match_size}
use matchmaker.Engine.Relaxation.Bounds.{relaxation_window_last}
use matchmaker.Engine.Matcher.{
  pool_empty, success, reset, WorkerContext, WorkerState, Readings, Shared, MatchAttemptResult,
  attempt_match,
}
use matchmaker.Engine.Matcher.Removal.{held_id, Pooled}
use matchmaker.Engine.Matcher.Forming.{is_held-In, In-is_held}
use matchmaker.Engine.Matcher.Forming.Success.{FormedFrom, claim_phase-ten}
use matchmaker.Engine.Matcher.Claiming.{claims}
use matchmaker.Engine.Matcher.Attempt.{Found, cycle, attempt_match-cases, select_seed-Candidate}
use matchmaker.Engine.Matcher.Attempt.Outcomes.{Near, Near-Sought, found-valid}
use matchmaker.Engine.Matcher.Attempt.Progress.{claims_ten}
use matchmaker.Engine.Matcher.Attempt.Served.{HasWaited}

module _ (S : ConcurrentMap) where
  -- Different Waiting players of the pool.
  pub record IsQueue (s : Shared S) (qs : List Ref) : Type 0 where
    pub distinct : Distinct qs
    pub waiting : (r : Ref) → is_held r qs ≡ true → Candidate S s.heap s.pool r

  -- At most `n` players of the pool are Waiting.
  abbrev pub AtMost : ℕ → Shared S → Type 0
  AtMost n s = (qs : List Ref) → IsQueue s qs → length qs ≤ n

  -- Who is in the pool was in it before, and is as before.
  pub record IsRest (s s' : Shared S) : Type 0 where
    pub pooled : (r : Ref) → Pooled S s'.heap s'.pool r → Pooled S s.heap s.pool r
    pub same : (r : Ref) → Pooled S s'.heap s'.pool r → s'.heap r ≡ s.heap r

  pub IsRest-refl : (s : Shared S) → IsRest s s
  IsRest-refl s = record { pooled = λ r c. c; same = λ r c. refl }

  pub IsRest-trans : (s s' s'' : Shared S) → IsRest s s' → IsRest s' s'' → IsRest s s''
  IsRest-trans s s' s'' a b = record {
    pooled = λ r c. a.pooled r (b.pooled r c);
    same = λ r c. b.same r c ∙ a.same r (b.pooled r c);
  }

  pub IsRest-Candidate :
      (s s' : Shared S) (r : Ref)
      → IsRest s s'
      → Candidate S s'.heap s'.pool r
      → Candidate S s.heap s.pool r
  IsRest-Candidate s s' r a c = (a.pooled r c.0, ground (arith, a.same r c.0, c.1))

  module _ (ctx : WorkerContext) (t : Readings) (s : Shared S) (w : WorkerState)
      (v : IsPool S s.heap s.pool) (consistent : IsConsistent ctx.config)
      (wide : max_skill_rating ≤ ctx.config.relaxation_stage_5_delta)
      (waited : (r : Ref) → Candidate S s.heap s.pool r → HasWaited S ctx t s w v r) where
    -- Every Waiting player is within the window of every other.
    all-Near :
        (p r : Ref)
        → Candidate S s.heap s.pool p
        → Candidate S s.heap s.pool r
        → Near S ctx t s w v p r
    all-Near p r c d =
        let close : abs_diff (s.heap r).skill_rating (s.heap p).skill_rating ≤ max_skill_rating =
          ground (arith, (v.valid (s.heap p).id p c.0).0, (v.valid (s.heap r).id r d.0).0) in
        let last =
          relaxation_window_last ctx.config t.bounds (s.heap p).join_timestamp consistent
            (waited p c) in
        (d, omega (arith, close, wide, last))

    -- What an attempt does to the number of Waiting players.
    abbrev pub Shrinks : Shared S → Type 0
    Shrinks s' = IsRest s s' × (AtMost 9 s' ⊎ ((n : ℕ) → AtMost n s → AtMost (n - match_size) s'))

    few_Shrinks :
        (seed : Ref) (rs : List Ref)
        → Candidate S s.heap s.pool seed
        → Found S ctx t s w v seed rs
        → length rs < match_size
        → AtMost 9 s
    few_Shrinks seed rs c found few qs q = omega (
      arith,
      few,
      Distinct-length qs rs q.distinct (λ r h. In-is_held r rs (
          found.all_of_few (omega (arith, few)) r
            (Near-Sought S ctx t s w v seed r c (all-Near seed r c (q.waiting r h))))),
    )

    nobody : ((q : Ref) → Candidate S s.heap s.pool q → ⊥) → AtMost 9 s
    nobody none_waits [] q = omega arith
    nobody none_waits (r ∷ rs) q = absurd (none_waits r (q.waiting r (ground arith)))

    module _ {limit : ℕ} {cs got : List Ref} {s' : Shared S} {m : Match}
        (f : FormedFrom S limit cs (cycle S ctx t s w v) s' m got)
        (pooled : (r : Ref) → is_held r got ≡ true → Candidate S s.heap s.pool r) where
      untaken : (r : Ref) → Pooled S s'.heap s'.pool r → is_held r got ≡ false
      untaken r c = elim (Bool-cases (is_held r got)) [
        | inl mine ↦ absurd (
            ground (
              arith,
              f.removed (s.heap r).id,
              held_id S s.heap got r mine,
              (f.are_matched r mine).id,
              c,
            ))
        | inr other ↦ other
      ]

      formed-IsRest : IsRest s s'
      formed-IsRest = record {
        pooled = λ r c. ground (arith, f.removed (s.heap r).id, f.untouched r (untaken r c), c);
        same = λ r c. f.untouched r (untaken r c);
      }

      formed-AtMost : (n : ℕ) → AtMost n s → AtMost (n - match_size) s'
      formed-AtMost n most = λ qs q.
          let apart : (r : Ref) → is_held r qs ≡ true → is_held r got ≡ false =
            λ r h. untaken r (q.waiting r h).0 in
          let both : IsQueue s (qs ++ got) = record {
            distinct = Distinct-append qs got q.distinct f.distinct apart;
            waiting = λ r h. elim (Bool-cases (is_held r got)) [
              | inl mine ↦ pooled r mine
              | inr other ↦
                  IsRest-Candidate s s' r formed-IsRest
                    (q.waiting r (ground (arith, other, h, is_held-append r qs got)))
            ];
          } in
          omega (arith, most (qs ++ got) both, length-append qs got, f.ten)

    pub attempt_match-Shrinks :
        (s' : Shared S) × (w' : WorkerState) × (result : MatchAttemptResult) × (attempt_match S ctx
            t s w
          ≡ some (s', w', result))
        × Shrinks s'
    attempt_match-Shrinks = elim (attempt_match-cases S ctx t s w v) [
      | inl (none_waits, e) ↦
          (s, w, pool_empty, e, (IsRest-refl s, inl (λ qs q. nobody none_waits qs q)))
      | inr (seed, picked, rs, found, inl (few, e)) ↦
          let most = few_Shrinks seed rs (select_seed-Candidate S ctx t s w v picked) found few in
          (
            _,
            _,
            _,
            e,
            (
              record { pooled = λ r c. c; same = λ r c. refl },
              inl (λ qs q. most qs (record { distinct = q.distinct; waiting = q.waiting })),
            ),
          )
      | inr (seed, picked, rs, found, inr (enough, e)) ↦
          let (s', m, done, f) =
            claim_phase-ten S ctx t (cycle S ctx t s w v) w seed rs
              (found-valid S ctx t s w v seed rs found)
              (claims_ten S ctx t s w v seed rs found enough) in
          let pooled : (r : Ref)
              → is_held r (claims S ctx t (cycle S ctx t s w v) rs).1 ≡ true
              → Candidate S s.heap s.pool r =
            λ r h.
              let c = found.matching r (is_held-In r rs (f.candidates r h)) in
              (c.pooled, c.ready) in
          (s', reset w, success m, e ∙ done, (formed-IsRest f pooled, inr (formed-AtMost f pooled)))
    ]
