-- ===== src/Workers/Drained.antt =====
-- src/workers/mod.rs: the worker loop empties the queue, down to less than a match.
use matchmaker.Base.{
  ◌∙◌, refl, ℕ, ◌≡◌, ◌≤◌, ◌+◌, ◌-◌, ◌*◌, ◌⊎◌, inl, inr, false, some, List, [], ◌∷◌, arith, All,
}
use matchmaker.Models.Memory.{Ref}
use matchmaker.Models.Player.{elapsed_ms}
use matchmaker.Config.Valid.{IsConsistent}
use matchmaker.Engine.Bucket.Store.{ConcurrentMap}
use matchmaker.Engine.Bucket.{max_skill_rating}
use matchmaker.Engine.Bucket.Seeds.{Candidate}
use matchmaker.Engine.Balancer.{match_size}
use matchmaker.Engine.Matcher.{
  MatchAttemptResult, attempt_match, WorkerContext, WorkerState, Readings, Shared,
}
use matchmaker.Engine.Matcher.Attempt.Shrinks.{
  IsRest-refl, IsRest-trans, IsRest-Candidate, AtMost, IsRest, attempt_match-Shrinks,
}
use matchmaker.Engine.Core.Queue.{IsShared}
use matchmaker.Engine.Core.Accounts.{attempt_match-IsShared}
use matchmaker.Workers.{Ready, Wake, stop, attempt, sleep, select, run_worker}
use matchmaker.Workers.System.{has_shutdown, select-cases}

abbrev attempts_in : Wake → ℕ
attempts_in stop = 0
attempts_in attempt = 1
attempts_in sleep = 0

-- How many of the wakes make the worker attempt a match.
abbrev pub count_attempts : List (Ready × Readings) → ℕ
count_attempts [] = 0
count_attempts ((ready, t) ∷ rest) = attempts_in (select ready) + count_attempts rest

module _ (S : ConcurrentMap) (ctx : WorkerContext) where
  -- At the readings of each wake, every Waiting player has waited to the end of stage 4.
  abbrev pub HaveWaited : Shared S → List (Ready × Readings) → Type 0
  HaveWaited s rounds =
      All
        (λ (round : Ready × Readings).
          (r : Ref)
          → Candidate S s.heap s.pool r
          → ctx.config.relaxation_stage_4_ms ≤ elapsed_ms round.1.bounds (s.heap r).join_timestamp)
        rounds

  HaveWaited-IsRest :
      (s s' : Shared S) (rounds : List (Ready × Readings))
      → IsRest S s s'
      → HaveWaited s rounds
      → HaveWaited s' rounds
  HaveWaited-IsRest s s' [] rest h = tt
  HaveWaited-IsRest s s' (round ∷ rounds) rest h = (
    λ r c. ground (arith, rest.same r c.0, h.0 r (IsRest-Candidate S s s' r rest c)),
    HaveWaited-IsRest s s' rounds rest h.1,
  )

  module _ (ready : Ready) (t : Readings) (rest : List (Ready × Readings)) (s : Shared S)
      (w : WorkerState) where
    run_worker-sleep :
        select ready ≡ sleep → run_worker S ctx s w ((ready, t) ∷ rest) ≡ run_worker S ctx s w rest
    unfolding run_worker
    run_worker-sleep e = rw (e, run_worker) refl

    run_worker-attempt :
        {s' : Shared S} {w' : WorkerState} {result : MatchAttemptResult}
        → select ready ≡ attempt
        → attempt_match S ctx t s w ≡ some (s', w', result)
        → run_worker S ctx s w ((ready, t) ∷ rest) ≡ run_worker S ctx s' w' rest
    unfolding run_worker
    run_worker-attempt e done = rw (e, done, run_worker) refl

  next_bound :
      (s s' : Shared S) (n k : ℕ)
      → AtMost S n s
      → n ≤ 10 * (1 + k) + 9
      → AtMost S 9 s' ⊎ ((m : ℕ) → AtMost S m s → AtMost S (m - match_size) s')
      → (m : ℕ) × AtMost S m s' × (m ≤ 10 * k + 9)
  next_bound s s' n k most fits (inl few) = (9, few, omega arith)
  next_bound s s' n k most fits (inr shrinks) =
      (n - match_size, shrinks n most, omega (arith, fits))

  module _ (consistent : IsConsistent ctx.config)
      (wide : max_skill_rating ≤ ctx.config.relaxation_stage_5_delta) where
    -- On a state whose pool and counters agree, with a consistent configuration whose last half-width is
    -- as large as all valid ratings: a worker that is not shut down, and that attempts a match at least
    -- once for each ten Waiting players of the pool, all of which have waited to the end of stage 4 at
    -- each of its wakes, leaves fewer than ten of them Waiting in the pool, whichever player it selects.
    -- Who is still in the pool is as before.
    pub run_worker-drains :
        (s : Shared S) (w : WorkerState) (rounds : List (Ready × Readings)) (n : ℕ)
        → IsShared S s
        → has_shutdown S rounds ≡ false
        → HaveWaited s rounds
        → AtMost S n s
        → n ≤ 10 * count_attempts rounds + 9
        → (s' : Shared S) × (w' : WorkerState) × (run_worker S ctx s w rounds
            ≡ some (s', w', false))
          × AtMost S 9 s'
          × IsRest S s s'
    unfolding run_worker
    run_worker-drains s w [] n v on h most fits =
        (s, w, refl, (λ qs q. omega (arith, most qs q, fits)), IsRest-refl S s)
    run_worker-drains s w ((ready, t) ∷ rest) n v on h most fits = elim (select-cases S ready) [
      | inl (b, e) ↦ absurd (ground (arith, b, on))
      | inr (b, inr e) ↦
          let (s', w', ended, few, kept) =
            run_worker-drains s w rest n v (ground (arith, b, on)) h.1 most
              (omega (arith, rw e at fits)) in
          (s', w', run_worker-sleep ready t rest s w e ∙ ended, few, kept)
      | inr (b, inl e) ↦
          let (s₁, w₁, result, done, (less, shrunk)) =
            attempt_match-Shrinks S ctx t s w v.agrees consistent wide h.0 in
          let (m, most', fits') =
            next_bound s s₁ n (count_attempts rest) most (rw e at fits) shrunk in
          let (s', w', ended, few, kept) =
            run_worker-drains s₁ w₁ rest m (attempt_match-IsShared S ctx t s w v done)
              (ground (arith, b, on)) (HaveWaited-IsRest s s₁ rest less h.1) most' fits' in
          (
            s',
            w',
            run_worker-attempt ready t rest s w e done ∙ ended,
            few,
            IsRest-trans S s s₁ s' less kept,
          )
    ]
