-- ===== src/Engine/Core/Accounts.antt =====
-- src/engine/matcher.rs and src/engine/mod.rs: an attempt keeps the pool well-formed and the counters
-- of the core right.
use matchmaker.Engine.Matcher.Rollback.{claim_phase_kept}
use matchmaker.Engine.Matcher.Attempt.Outcomes.{claim_phase-other, found-valid}
use matchmaker.Base.{
  ap, ◌∙◌, refl, true, ℕ, ◌+◌, ◌≤◌, ◌≡◌, inl, inr, some, List, arith, some-eq, sym, Bool-cases, All,
  All-In, subst,
}
use matchmaker.Models.Player.{claimed}
use matchmaker.Models.Memory.{Ref, is_held}
use matchmaker.Models.Match.{Match}
use matchmaker.Engine.Bucket.Store.{ConcurrentMap}
use matchmaker.Engine.Bucket.{len}
use matchmaker.Engine.Bucket.Invariant.{SameKeys, IsPool-SameKeys}
use matchmaker.Engine.Balancer.{match_size}
use matchmaker.Engine.Matcher.{
  Outcome, WorkerContext, WorkerState, Readings, Shared, MatchAttemptResult, attempt_match,
  claim_failed, update_metrics_on_success,
}
use matchmaker.Engine.Matcher.Removal.{held_id, remove_all-IsPool, remove_all-len, Pooled}
use matchmaker.Engine.Matcher.Forming.{In-is_held, is_held-In}
use matchmaker.Engine.Matcher.Forming.Success.{claim_phase_success, FormedFrom}
use matchmaker.Engine.Matcher.Attempt.{Found, gave_up, cycle, attempt_match-cases}
use matchmaker.Engine.Matcher.{claim_phase}
use matchmaker.Engine.Core.Queue.{IsShared}

module _ (S : ConcurrentMap) (limit : ℕ) (cs : List Ref) (s s' : Shared S) (m : Match)
    (got : List Ref) (v : IsShared S s) (f : FormedFrom S limit cs s s' m got)
    (pooled : (r : Ref) → is_held r got ≡ true → Pooled S s.heap s.pool r) where
  same_keys : SameKeys s.heap s'.heap
  same_keys = record {
    ids = λ r. ground (arith, Bool-cases (is_held r got), f.are_matched r, f.untouched r);
    ratings = λ r. ground (arith, Bool-cases (is_held r got), f.are_matched r, f.untouched r);
  }

  after_Pooled : All (Pooled S s'.heap s.pool) got
  after_Pooled = All-In _ got (λ r i. rw (same_keys.ids r) (pooled r (In-is_held r got i)))

  fewer : len S s'.pool + match_size ≡ len S s.pool
  fewer = rw (f.emptied, ← f.ten) (remove_all-len S s'.heap got s.pool f.distinct after_Pooled)

  pub formed-IsShared : IsShared S s'
  unfolding update_metrics_on_success
  formed-IsShared = record {
    agrees =
        rw f.emptied
          (remove_all-IsPool S s'.heap got s.pool (IsPool-SameKeys S same_keys v.agrees));
    fresh = λ j r e. ground (arith, f.removed j, v.fresh j r, f.same_next);
    live = λ j r e. ground (
      arith,
      f.removed j,
      v.live j r,
      v.agrees.keyed j r,
      held_id S s.heap got r,
      f.untouched r,
      Bool-cases (is_held r got),
    );
    counted = ground (arith, f.metrics.1, v.counted, fewer);
    conserved = ground (arith, f.metrics.1, v.conserved);
  }

-- A state that differs in what no operation of the pool reads.
pub record SameAccounts (S : ConcurrentMap) (s s' : Shared S) : Type 0 where
  pub keys : SameKeys s.heap s'.heap
  pub live : (r : Ref) → (s.heap r).state ≤ claimed → (s'.heap r).state ≤ claimed
  pub pool : s'.pool ≡ s.pool
  pub next : s'.next ≡ s.next
  pub enqueued : s'.metrics.total_players_enqueued ≡ s.metrics.total_players_enqueued
  pub cancelled : s'.metrics.total_players_cancelled ≡ s.metrics.total_players_cancelled
  pub matched : s'.metrics.total_players_matched ≡ s.metrics.total_players_matched
  pub queued : s'.metrics.current_queue_size ≡ s.metrics.current_queue_size

module _ (S : ConcurrentMap) where
  pub IsShared-SameAccounts : {s s' : Shared S} → SameAccounts S s s' → IsShared S s → IsShared S s'
  IsShared-SameAccounts {s} {s'} k v = record {
    agrees = rw k.pool (IsPool-SameKeys S k.keys v.agrees);
    fresh = λ j r e. ground (arith, k.pool, k.next, v.fresh j r);
    live = λ j r e. k.live r (v.live j r (ground (arith, k.pool, e)));
    counted = ground (arith, k.pool, k.queued, v.counted);
    conserved = ground (arith, k.enqueued, k.cancelled, k.matched, k.queued, v.conserved);
  }

  module _ (ctx : WorkerContext) (t : Readings) (s : Shared S) (w : WorkerState)
      (v : IsShared S s) where
    gave_up-SameAccounts :
        (seed : Ref) (rs : List Ref) → SameAccounts S s (gave_up S ctx t s w v.agrees seed rs).0
    gave_up-SameAccounts seed rs = record {
      keys = record { ids = λ r. refl; ratings = λ r. refl };
      live = λ r h. h;
      pool = refl;
      next = refl;
      enqueued = refl;
      cancelled = refl;
      matched = refl;
      queued = refl;
    }

    rolled_back-SameAccounts :
        {s' : Shared S} {w' : WorkerState} {n needed : ℕ} (seed : Ref) (rs : List Ref)
        → claim_phase S ctx t (cycle S ctx t s w v.agrees) w seed rs
          ≡ some (s', w', claim_failed n needed)
        → SameAccounts S s s'
    rolled_back-SameAccounts {s'} seed rs e =
        let (heap, pool, next, _, metrics) =
          claim_phase_kept S ctx t (cycle S ctx t s w v.agrees) w seed rs e in
        record {
          keys = record { ids = λ r. (heap r).1; ratings = λ r. (heap r).2 };
          live = λ r h. ground (arith, heap r);
          pool = pool;
          next = next;
          enqueued = ground (arith, metrics);
          cancelled = ground (arith, metrics);
          matched = ground (arith, metrics);
          queued = ground (arith, metrics);
        }

    cycle-IsShared : IsShared S (cycle S ctx t s w v.agrees)
    cycle-IsShared = record {
      agrees = v.agrees;
      fresh = v.fresh;
      live = v.live;
      counted = v.counted;
      conserved = v.conserved;
    }

    claimed-IsShared :
        {s' : Shared S} {w' : WorkerState} {r : MatchAttemptResult} (seed : Ref) (rs : List Ref)
        → Found S ctx t s w v.agrees seed rs
        → claim_phase S ctx t (cycle S ctx t s w v.agrees) w seed rs ≡ some (s', w', r)
        → IsShared S s'
    claimed-IsShared {s'} {w'} {r} seed rs found e =
        elim (claim_phase-other S ctx t s w v.agrees seed rs found e) [
          | inl (m, k) ↦
              let (_, f) =
                claim_phase_success S ctx t (cycle S ctx t s w v.agrees) w seed rs
                  (found-valid S ctx t s w v.agrees seed rs found)
                  (e ∙ ap (λ x. some (s', w', x)) k) in
              formed-IsShared S _ rs _ s' m _ cycle-IsShared f
                (λ q h. (found.matching q (is_held-In q rs (f.candidates q h))).pooled)
          | inr (n, k) ↦
              IsShared-SameAccounts
                (rolled_back-SameAccounts seed rs (e ∙ ap (λ x. some (s', w', x)) k)) v
        ]

    -- Whatever an attempt comes to, a pool whose structures and counters agree stays so.
    pub attempt_match-IsShared :
        {s' : Shared S} {w' : WorkerState} {r : MatchAttemptResult}
        → attempt_match S ctx t s w ≡ some (s', w', r)
        → IsShared S s'
    attempt_match-IsShared {s'} {w'} {r} h = elim (attempt_match-cases S ctx t s w v.agrees) [
      | inl (_, e) ↦ subst (λ (o : Outcome S). IsShared S o.0) (some-eq (sym e ∙ h)) v
      | inr (seed, _, rs, _, inl (_, e)) ↦
          subst (λ (o : Outcome S). IsShared S o.0) (some-eq (sym e ∙ h))
            (IsShared-SameAccounts (gave_up-SameAccounts seed rs) v)
      | inr (seed, _, rs, found, inr (_, e)) ↦ claimed-IsShared seed rs found (sym e ∙ h)
    ]
