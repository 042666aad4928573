-- ===== src/Engine/Matcher/Attempt.antt =====
-- src/engine/matcher.rs: `select_seed` and phases 1 and 2 of `attempt_match`, on a pool whose
-- structures agree.
pub mod Outcomes
pub mod Anchor
pub mod Progress
pub mod Served
pub mod Shrinks
use matchmaker.Base.{
  ltb→lt, Option, subst, ◌↔◌, refl, ◌∙◌, ap, ℕ, ◌≤◌, ◌<◌, ◌≡◌, ◌⊎◌, inl, inr, Bool, true, false,
  ◌&&◌, none, some, List, [], ◌∷◌, arith, ltb, leb, length, In, Option-cases, Bool-cases, some-eq,
  sym, fetch_add, abs_diff, u32, ◌+◌, ◌-◌, ◌^◌, if◌then◌else◌,
}
use matchmaker.Models.Player.{waiting}
use matchmaker.Models.Memory.{Distinct, Ref, Heap}
use matchmaker.Engine.Bucket.Store.{ConcurrentMap}
use matchmaker.Engine.Bucket.{
  PlayerPool, max_skill_rating, max_candidates_per_scan, older, oldest_waiting,
  oldest_waiting_excluding_range, range_scan, get,
}
use matchmaker.Engine.Bucket.Invariant.{IsPool}
use matchmaker.Engine.Bucket.Order.{IsByAge}
use matchmaker.Engine.Bucket.Scan.{Matches, range_scan_exact}
use matchmaker.Engine.Bucket.Seeds.{
  Candidate, Outside, oldest_waiting-some, oldest_waiting-none, oldest_waiting_excluding_range-some,
}
use matchmaker.Engine.Relaxation.{scan_bounds, relaxation_window, relaxation_stage}
use matchmaker.Engine.Relaxation.Bounds.{scan_bounds_exact}
use matchmaker.Engine.Balancer.{match_size}
use matchmaker.Engine.Matcher.{
  WorkerContext, WorkerState, Readings, Shared, MatchAttemptResult, Outcome, pool_empty,
  insufficient_candidates, seed_retry_limit, is_seed, select_seed, discover, attempt_match,
  claim_phase, record_failure, chosen_seed, or_else,
}

module _ (S : ConcurrentMap) (ctx : WorkerContext) (t : Readings) (s : Shared S) (w : WorkerState)
    (v : IsPool S s.heap s.pool) where
  -- A Waiting player of the pool, and none of the pool is older.
  abbrev pub Primary : Ref → Type 0
  Primary p =
      Candidate S s.heap s.pool p
      × ((q : Ref) → Candidate S s.heap s.pool q → older (s.heap q) (s.heap p) ≡ false)

  -- The choice of the guard against seeds that keep failing: `p` has failed too often, and `r` is the
  -- oldest Waiting player whose rating is not in the bounds of `p`'s scan.
  abbrev pub Alternate : Ref → Ref → Type 0
  Alternate p r =
      let (least, most) =
        scan_bounds t.guard (s.heap p).skill_rating (s.heap p).join_timestamp ctx.config in
      (is_seed w.current_seed_id (s.heap p).id ≡ true)
      × (seed_retry_limit ≤ w.consecutive_failures)
      × Outside S s.heap s.pool least most r
      × ((q : Ref) → Outside S s.heap s.pool least most q → older (s.heap q) (s.heap r) ≡ false)

  abbrev excluded : Ref → ℕ × ℕ
  excluded p = scan_bounds t.guard (s.heap p).skill_rating (s.heap p).join_timestamp ctx.config

  abbrev alternate : Ref → Option Ref
  alternate p = oldest_waiting_excluding_range S s.heap s.pool (excluded p).0 (excluded p).1

  abbrev guarded : Ref → Bool
  guarded p = is_seed w.current_seed_id (s.heap p).id && leb seed_retry_limit w.consecutive_failures

  chosen_seed-cases :
      (p : Ref)
      → (chosen_seed S ctx t s w p ≡ some p)
        ⊎ ((r : Ref) × (chosen_seed S ctx t s w p ≡ some r) × Alternate p r)
  chosen_seed-cases p = elim (Option-cases (alternate p)) [
    | inl e ↦ inl (ground (arith, e))
    | inr (r, e) ↦ elim (Bool-cases (guarded p)) [
      | inl g ↦ inr (
        r,
        ground (arith, e, g),
        (
          ground (arith, g),
          ground (arith, g),
          (oldest_waiting_excluding_range-some S s.heap s.pool v (excluded p).0 (excluded p).1 r
              e).0,
          (oldest_waiting_excluding_range-some S s.heap s.pool v (excluded p).0 (excluded p).1 r
              e).1,
        ),
      )
      | inr g ↦ inl (ground (arith, g))
    ]
  ]

  pub select_seed-cases :
      ((select_seed S ctx t s w ≡ none) × ((q : Ref) → Candidate S s.heap s.pool q → ⊥))
      ⊎ ((p : Ref) × Primary p
          × ((select_seed S ctx t s w ≡ some p)
              ⊎ ((r : Ref) × (select_seed S ctx t s w ≡ some r) × Alternate p r)))
  unfolding select_seed
  select_seed-cases = elim (Option-cases (oldest_waiting S s.heap s.pool)) [
    | inl e ↦ inl (rw (e, select_seed) refl, oldest_waiting-none S s.heap s.pool v e)
    | inr (p, e) ↦
        inr
          (p, oldest_waiting-some S s.heap s.pool v p e, rw (e, select_seed) (chosen_seed-cases p))
  ]

  -- On a pool whose structures agree, the seed of an attempt is the oldest Waiting player of the
  -- pool, unless the worker has failed three times in a row or more on that player: then it may
  -- be the oldest Waiting player whose rating is not in the bounds of that player's scan.
  pub select_seed_fair :
      {r : Ref}
      → select_seed S ctx t s w ≡ some r
      → Primary r ⊎ ((p : Ref) × Primary p × Alternate p r)
  select_seed_fair {r} e = elim select_seed-cases [
    | inl (n, _) ↦ absurd (ground (arith, e, n))
    | inr (p, first, inl q) ↦ inl (subst Primary (some-eq (sym q ∙ e)) first)
    | inr (p, first, inr (r', q, alt)) ↦
        inr (p, first, subst (Alternate p) (some-eq (sym q ∙ e)) alt)
  ]

  pub select_seed-Candidate :
      {r : Ref} → select_seed S ctx t s w ≡ some r → Candidate S s.heap s.pool r
  select_seed-Candidate e = elim (select_seed_fair e) [
    | inl (c, _) ↦ c
    | inr (_, _, (_, _, (c, _), _)) ↦ c
  ]

  abbrev pub bounds_of : Ref → ℕ × ℕ
  bounds_of r = scan_bounds t.bounds (s.heap r).skill_rating (s.heap r).join_timestamp ctx.config

  -- The state with the cycle counted.
  abbrev pub cycle : Shared S
  cycle = record s {
    metrics = record s.metrics { worker_cycles_total = fetch_add s.metrics.worker_cycles_total 1 };
  }

  -- What the scan finds: the candidates, the oldest first.
  pub record Found (seed : Ref) (rs : List Ref) : Type 0 where
    pub scanned :
        range_scan S s.heap (seed ∷ s.held) s.pool (bounds_of seed).0 (bounds_of seed).1 ≡ some rs
    pub by_age : IsByAge s.heap rs
    pub distinct : Distinct rs
    pub at_most : length rs ≤ max_candidates_per_scan
    pub matching :
        (r : Ref) → In r rs → Matches S s.heap s.pool (bounds_of seed).0 (bounds_of seed).1 r
    pub all_of_few :
        length rs < max_candidates_per_scan
        → (r : Ref) → Matches S s.heap s.pool (bounds_of seed).0 (bounds_of seed).1 r
        → In r rs

  abbrev pub gave_up : Ref → List Ref → Outcome S
  gave_up seed rs = (
    record cycle {
      metrics = record cycle.metrics {
        match_attempts_insufficient = fetch_add s.metrics.match_attempts_insufficient 1;
      };
    },
    record_failure (s.heap seed).id w,
    insufficient_candidates (length rs) (u32 ((bounds_of seed).1 + 2 ^ 32 - (bounds_of seed).0))
        (s.heap seed).skill_rating
        (relaxation_stage t.stage (s.heap seed).join_timestamp ctx.config),
  )

  discover-cases :
      (seed : Ref) (rs : List Ref)
      → range_scan S s.heap (seed ∷ s.held) s.pool (bounds_of seed).0 (bounds_of seed).1 ≡ some rs
      → ((length rs < match_size) × (discover S ctx t s w seed ≡ some (gave_up seed rs)))
        ⊎ ((match_size ≤ length rs)
            × (discover S ctx t s w seed ≡ claim_phase S ctx t cycle w seed rs))
  unfolding discover
  discover-cases seed rs e = elim (Bool-cases (ltb (length rs) match_size)) [
    | inl b ↦ inl (ltb→lt _ _ b, rw (e, b, discover) refl)
    | inr b ↦ inr (ground (arith, b), rw (e, b, discover) refl)
  ]

  pub discover-Found :
      (seed : Ref)
      → Candidate S s.heap s.pool seed
      → (rs : List Ref) × Found seed rs
        × (((length rs < match_size) × (discover S ctx t s w seed ≡ some (gave_up seed rs)))
            ⊎ ((match_size ≤ length rs)
                × (discover S ctx t s w seed ≡ claim_phase S ctx t cycle w seed rs)))
  discover-Found seed (pooled, ready) =
      let rated = (v.valid (s.heap seed).id seed pooled).0 in
      let (_, low, high, _) =
        scan_bounds_exact ctx.config t.bounds (s.heap seed).join_timestamp
          (s.heap seed).skill_rating 0 rated in
      let (rs, e, age, distinct, most, sound, whole, _) =
        range_scan_exact S s.heap (seed ∷ s.held) s.pool v (bounds_of seed).0 (bounds_of seed).1
          (omega (arith, rated, low)) (omega (arith, low, high)) in
      (
        rs,
        record {
          scanned = e;
          by_age = age;
          distinct = distinct;
          at_most = most;
          matching = sound;
          all_of_few = whole;
        },
        discover-cases seed rs e,
      )

  -- What an attempt comes to.
  pub attempt_match-cases :
      (((q : Ref) → Candidate S s.heap s.pool q → ⊥)
        × (attempt_match S ctx t s w ≡ some (s, w, pool_empty)))
      ⊎ ((seed : Ref) × (select_seed S ctx t s w ≡ some seed)
          × (rs : List Ref) × Found seed rs
          × (((length rs < match_size) × (attempt_match S ctx t s w ≡ some (gave_up seed rs)))
              ⊎ ((match_size ≤ length rs)
                  × (attempt_match S ctx t s w ≡ claim_phase S ctx t cycle w seed rs))))
  unfolding attempt_match
  attempt_match-cases = elim (Option-cases (select_seed S ctx t s w)) [
    | inl e ↦ elim select_seed-cases [
      | inl (_, none_waits) ↦ inl (none_waits, rw (e, attempt_match) refl)
      | inr (p, first, inl q) ↦ absurd (ground (arith, e, q))
      | inr (p, first, inr (r, q, alt)) ↦ absurd (ground (arith, e, q))
    ]
    | inr (seed, e) ↦
        let (rs, found, o) = discover-Found seed (select_seed-Candidate e) in
        inr (seed, e, rs, found, rw (e, attempt_match) o)
  ]
