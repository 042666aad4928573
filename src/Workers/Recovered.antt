-- ===== src/Workers/Recovered.antt =====
-- src/workers/mod.rs: a scan of the Reaper and the loop of a worker, after other workers have stopped.
use matchmaker.Base.{
  if◌then◌else◌, [], ◌∷◌, ◌∷◌, ℕ, ◌≡◌, ◌≢◌, ◌≤◌, ◌<◌, ◌+◌, ◌-◌, ◌*◌, false, true, some, List, arith,
  All, All-In, length, Bool-cases,
}
use matchmaker.Models.Player.{waiting, claimed, elapsed_ms}
use matchmaker.Models.Memory.{Ref, is_held, Distinct}
use matchmaker.Config.Valid.{IsConsistent}
use matchmaker.Engine.Bucket.Store.{ConcurrentMap}
use matchmaker.Engine.Bucket.{all_players, max_skill_rating, len}
use matchmaker.Engine.Matcher.{WorkerContext, WorkerState, Readings, Shared}
use matchmaker.Engine.Matcher.Removal.{Pooled, remove_all-len}
use matchmaker.Engine.Matcher.Forming.{In-is_held}
use matchmaker.Engine.Matcher.Attempt.Shrinks.{AtMost}
use matchmaker.Engine.Core.Queue.{IsShared}
use matchmaker.Workers.{Ready, run_worker, reaper_tick}
use matchmaker.Workers.Reaper.{
  reap_all-writes, is_stale, recovered, reaper_tick_exact, reaper_tick-IsShared,
}
use matchmaker.Workers.System.{has_shutdown}
use matchmaker.Workers.Drained.{count_attempts, HaveWaited, run_worker-drains}

module _ (S : ConcurrentMap) where
  -- The pool holds at least as many players as a list of different ones of them.
  AtMost-len : (s : Shared S) → AtMost S (len S s.pool) s
  AtMost-len s qs q =
      let pooled : All (Pooled S s.heap s.pool) qs =
        All-In _ qs (λ r m. (q.waiting r (In-is_held r qs m)).0) in
      omega (arith, remove_all-len S s.heap qs s.pool q.distinct pooled)

  -- At the readings of each wake, every player of the pool has waited to the end of stage 4.
  abbrev pub HaveAllWaited : Shared S → WorkerContext → List (Ready × Readings) → Type 0
  HaveAllWaited s ctx rounds =
      All
        (λ (round : Ready × Readings).
          (r : Ref)
          → Pooled S s.heap s.pool r
          → ctx.config.relaxation_stage_4_ms ≤ elapsed_ms round.1.bounds (s.heap r).join_timestamp)
        rounds

  -- All that is left in the pool are some Waiting players.
  pub record IsLeft (n : ℕ) (s : Shared S) : Type 0 where
    pub ready : (r : Ref) → Pooled S s.heap s.pool r → (s.heap r).state ≡ waiting
    pub few :
        (qs : List Ref)
        → Distinct qs
        → ((r : Ref) → is_held r qs ≡ true → Pooled S s.heap s.pool r)
        → length qs ≤ n

  module _ (timeout now_ms : ℕ) (s : Shared S) (v : IsShared S s)
      (stale : (r : Ref)
        → Pooled S s.heap s.pool r
        → (s.heap r).state ≡ claimed
        → ((s.heap r).claim_timestamp ≢ 0) × (timeout < now_ms - (s.heap r).claim_timestamp)) where
    abbrev ticked : Shared S
    ticked = reaper_tick S timeout now_ms s

    ticked-exact :
        (r : Ref)
        → Pooled S s.heap s.pool r
        → ticked.heap r
          ≡ (if is_stale timeout now_ms (s.heap r) then recovered (s.heap r) else s.heap r)
    ticked-exact r c = (reaper_tick_exact S timeout now_ms s v r).0 c

    -- The scan changes no identifier, and not the pool.
    ticked-Pooled : (r : Ref) → Pooled S ticked.heap ticked.pool r → Pooled S s.heap s.pool r
    unfolding reaper_tick
    ticked-Pooled r c =
        ground (arith, reap_all-writes timeout now_ms (all_players S s.pool) 0 s.heap r, c)

    ticked-ready : (r : Ref) → Pooled S s.heap s.pool r → (ticked.heap r).state ≡ waiting
    unfolding is_stale
    ticked-ready r c = ground (
      arith,
      ticked-exact r c,
      v.live (s.heap r).id r c,
      stale r c,
      Bool-cases (is_stale timeout now_ms (s.heap r)),
    )

    ticked-joined :
        (r : Ref)
        → Pooled S s.heap s.pool r
        → (ticked.heap r).join_timestamp ≡ (s.heap r).join_timestamp
    ticked-joined r c = ground (arith, ticked-exact r c)

    ticked-AtMost : AtMost S (len S s.pool) ticked
    unfolding reaper_tick
    ticked-AtMost = AtMost-len ticked

    module _ (ctx : WorkerContext) where
      ticked-HaveWaited :
          (rounds : List (Ready × Readings))
          → HaveAllWaited s ctx rounds
          → HaveWaited S ctx ticked rounds
      ticked-HaveWaited [] h = tt
      ticked-HaveWaited (round ∷ rounds) h = (
        λ r c. let c' = ticked-Pooled r c.0 in ground (arith, ticked-joined r c', h.0 r c'),
        ticked-HaveWaited rounds h.1,
      )

      -- On a state whose pool and counters agree, with a consistent configuration whose last half-width
      -- is as large as all valid ratings: let workers have stopped, so that each claim in the pool has a
      -- time and is older than the timeout. If the Reaper scans the pool, and then a worker that is not
      -- shut down attempts a match at least once for each ten players of the pool, all of which have
      -- waited to the end of stage 4 at each of its wakes, then fewer than ten players are left in the
      -- pool, all of them Waiting.
      pub reaper_tick-drains :
          (w : WorkerState) (rounds : List (Ready × Readings))
          → IsConsistent ctx.config
          → max_skill_rating ≤ ctx.config.relaxation_stage_5_delta
          → has_shutdown S rounds ≡ false
          → HaveAllWaited s ctx rounds
          → len S s.pool ≤ 10 * count_attempts rounds + 9
          → (s' : Shared S) × (w' : WorkerState) × (run_worker S ctx
                (reaper_tick S timeout now_ms s)
                w
                rounds
              ≡ some (s', w', false))
            × IsLeft 9 s'
      reaper_tick-drains w rounds consistent wide on waited fits =
          let (s', w', ended, few, kept) =
            run_worker-drains S ctx consistent wide ticked w rounds (len S s.pool)
              (reaper_tick-IsShared S timeout now_ms s v) on (ticked-HaveWaited rounds waited)
              (ticked-AtMost) fits in
          let ready : (r : Ref) → Pooled S s'.heap s'.pool r → (s'.heap r).state ≡ waiting = λ r c.
            ground (arith, kept.same r c, ticked-ready r (ticked-Pooled r (kept.pooled r c))) in
          (
            s',
            w',
            ended,
            record {
              ready = ready;
              few = λ qs d pooled.
                  few qs
                    (record { distinct = d; waiting = λ r h. (pooled r h, ready r (pooled r h)) });
            },
          )
