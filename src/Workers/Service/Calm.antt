-- ===== src/Workers/Service/Calm.antt =====
-- src/engine/mod.rs and src/workers/mod.rs: between whole operations no player of the pool is claimed.
use matchmaker.Base.{ap, sym, subst, some-eq, ◌∙◌, ℕ, ◌≡◌, inl, inr, some, List, arith, Bool-cases}
use matchmaker.Models.Player.{Instant, waiting}
use matchmaker.Models.Memory.{Ref, Heap, is_held}
use matchmaker.Engine.Bucket.Store.{ConcurrentMap}
use matchmaker.Engine.Bucket.{get, uuid_max}
use matchmaker.Engine.Matcher.{
  WorkerContext, WorkerState, Readings, Shared, MatchAttemptResult, Outcome, attempt_match,
  claim_phase,
}
use matchmaker.Engine.Matcher.Rollback.{Unclaimed, claim_phase_rollback}
use matchmaker.Engine.Matcher.Forming.Success.{FormedFrom, claim_phase_success}
use matchmaker.Engine.Matcher.Attempt.{Found, cycle, attempt_match-cases}
use matchmaker.Engine.Matcher.Attempt.Outcomes.{claim_phase-other, found-valid}
use matchmaker.Config.{Config}
use matchmaker.Engine.Bucket
use matchmaker.Engine.Core.{new, make_worker_context, MatchmakerCore, enqueue, cancel}
use matchmaker.Engine.Core.Queue.{IsShared}
use matchmaker.Engine.Core.Queue.Enqueue
use matchmaker.Engine.Core.Queue.Enqueue.{enqueue-cases}
use matchmaker.Engine.Core.Queue.Cancel
use matchmaker.Engine.Core.Queue.Cancel.{cancel-cases}
use matchmaker.Workers.{reaper_tick}
use matchmaker.Models.Match.{Match}
use matchmaker.Engine.Matcher.Removal.{held_id}
use matchmaker.Engine.Bucket.{all_players}
use matchmaker.Workers.Reaper.{is_stale, reap_all-writes, reaper_tick_exact}
use matchmaker.Workers.System.{
  enqueues, cancels, attempts, reaps, started, later, System, Step, Reachable, Reachable-IsShared,
}

module _ (S : ConcurrentMap) where
  -- Every player of the pool is Waiting, and no Waiting player carries the fields of a claim.
  pub record IsCalm (s : Shared S) : Type 0 where
    pub unclaimed : Unclaimed s.heap
    pub ready : (id : ℕ) (r : Ref) → get S id s.pool ≡ some r → (s.heap r).state ≡ waiting

  enqueue-IsCalm :
      (now : Instant) (id skill_rating : ℕ) (core : MatchmakerCore S)
      → IsShared S core.shared
      → IsCalm core.shared
      → IsCalm (enqueue S now id skill_rating core).0.shared
  enqueue-IsCalm now id skill_rating core v c = elim (enqueue-cases S now id skill_rating core) [
    | inl (_, e) ↦ rw e c
    | inr (inl (_, _, e)) ↦ rw e c
    | inr (inr (small, free, e)) ↦ rw e (record {
      unclaimed = λ r h. ground (arith, c.unclaimed r);
      ready = λ j r h.
          ground
            (arith, c.ready j r, v.fresh j r, Enqueue.pooled_after S now id skill_rating core v j);
    })
  ]

  cancel-IsCalm :
      (id : ℕ) (core : MatchmakerCore S)
      → IsShared S core.shared
      → IsCalm core.shared
      → IsCalm (cancel S id core).0.shared
  cancel-IsCalm id core v c = elim (cancel-cases S id core) [
    | inl (_, e) ↦ rw e c
    | inr (r, m, inl (_, e)) ↦ rw e (record {
      unclaimed = λ q h. ground (arith, c.unclaimed q);
      ready = λ j q h. ground (
        arith,
        c.ready j q,
        Cancel.pooled_after S id core v r m j,
        Cancel.elsewhere S id core v r m j q,
      );
    })
    | inr (r, m, inr (_, e)) ↦ rw e c
  ]

  pub reaper_tick-same :
      (timeout now_ms : ℕ) (s : Shared S)
      → IsShared S s
      → IsCalm s
      → (r : Ref) → get S (s.heap r).id s.pool ≡ some r
      → (reaper_tick S timeout now_ms s).heap r ≡ s.heap r
  unfolding is_stale
  reaper_tick-same timeout now_ms s v c r e =
      (reaper_tick_exact S timeout now_ms s v r).0 e ∙ ground (arith, c.ready (s.heap r).id r e)

  reaper_tick-IsCalm :
      (timeout now_ms : ℕ) (s : Shared S)
      → IsShared S s
      → IsCalm s
      → IsCalm (reaper_tick S timeout now_ms s)
  unfolding reaper_tick
  reaper_tick-IsCalm timeout now_ms s v c = record {
    unclaimed = λ r h.
        ground
          (arith, c.unclaimed r, reap_all-writes timeout now_ms (all_players S s.pool) 0 s.heap r);
    ready = λ j r h.
        ground (arith, c.ready j r, v.agrees.keyed j r, reaper_tick-same timeout now_ms s v c r);
  }

  module _ (ctx : WorkerContext) (t : Readings) (s : Shared S) (w : WorkerState) (v : IsShared S s)
      (c : IsCalm s) where
    formed-IsCalm :
        {limit : ℕ} {cs got : List Ref} {s' : Shared S} {m : Match}
        → FormedFrom S limit cs (cycle S ctx t s w v.agrees) s' m got
        → IsCalm s'
    formed-IsCalm {got = got} f = record {
      unclaimed = λ r h.
          ground (arith, c.unclaimed r, f.are_matched r, f.untouched r, Bool-cases (is_held r got));
      ready = λ j r h. ground (
        arith,
        f.removed j,
        c.ready j r,
        v.agrees.keyed j r,
        held_id S s.heap got r,
        f.untouched r,
        Bool-cases (is_held r got),
      );
    }

    -- After a failed claim the memory is as before.
    claimed-IsCalm :
        {s' : Shared S} {w' : WorkerState} {r : MatchAttemptResult} (seed : Ref) (rs : List Ref)
        → Found S ctx t s w v.agrees seed rs
        → claim_phase S ctx t (cycle S ctx t s w v.agrees) w seed rs ≡ some (s', w', r)
        → IsCalm s'
    claimed-IsCalm {s'} {w'} {r} seed rs found e =
        elim (claim_phase-other S ctx t s w v.agrees seed rs found e) [
          | inl (m, k) ↦
              formed-IsCalm
                (claim_phase_success S ctx t (cycle S ctx t s w v.agrees) w seed rs
                  (found-valid S ctx t s w v.agrees seed rs found)
                  (e ∙ ap (λ x. some (s', w', x)) k)).1
          | inr (n, k) ↦
              let (heap, pool, _, _, _, _, _) =
                claim_phase_rollback S ctx t (cycle S ctx t s w v.agrees) w seed rs c.unclaimed
                  (e ∙ ap (λ x. some (s', w', x)) k) in
              record {
                unclaimed = λ q h. ground (arith, heap q, c.unclaimed q);
                ready = λ j q h. ground (arith, heap q, pool, c.ready j q);
              }
        ]

    attempt_match-IsCalm :
        {s' : Shared S} {w' : WorkerState} {r : MatchAttemptResult}
        → attempt_match S ctx t s w ≡ some (s', w', r)
        → IsCalm s'
    attempt_match-IsCalm h = elim (attempt_match-cases S ctx t s w v.agrees) [
      | inl (_, e) ↦ subst (λ (o : Outcome S). IsCalm o.0) (some-eq (sym e ∙ h)) c
      | inr (seed, _, rs, _, inl (_, e)) ↦
          subst (λ (o : Outcome S). IsCalm o.0) (some-eq (sym e ∙ h))
            (record { unclaimed = c.unclaimed; ready = c.ready })
      | inr (seed, _, rs, found, inr (_, e)) ↦ claimed-IsCalm seed rs found (sym e ∙ h)
    ]

  Step-IsCalm :
      {sys next : System S}
      → IsShared S sys.core.shared
      → IsCalm sys.core.shared
      → Step S sys next
      → IsCalm next.core.shared
  Step-IsCalm {sys} v c (enqueues now id skill_rating wide) =
      enqueue-IsCalm now id skill_rating sys.core v c
  Step-IsCalm {sys} v c (cancels id) = cancel-IsCalm id sys.core v c
  Step-IsCalm {sys} v c (attempts i t e) =
      attempt_match-IsCalm (make_worker_context S i sys.core) t sys.core.shared (sys.workers i) v c
        e
  Step-IsCalm {sys} v c (reaps now_ms) =
      reaper_tick-IsCalm sys.core.config.stale_claim_timeout_ms now_ms sys.core.shared v c

  -- As long as operations do not overlap, no player of the pool is claimed between them.
  pub Reachable-IsCalm :
      {heap : Heap} {now : Instant} {config : Config} {sys : System S}
      → Unclaimed heap
      → Reachable S heap now config sys
      → IsCalm sys.core.shared
  unfolding new Bucket.new
  Reachable-IsCalm u started = record {
    unclaimed = u;
    ready = λ id r h. absurd (ground (arith, S.get-new id));
  }
  Reachable-IsCalm u (later run st) =
      Step-IsCalm (Reachable-IsShared S run) (Reachable-IsCalm u run) st
