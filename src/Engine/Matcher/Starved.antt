-- ===== src/Engine/Matcher/Starved.antt =====
-- src/engine/matcher.rs and src/engine/bucket.rs: attempts pass over a player that has no entry in the
-- index.
use matchmaker.Base.{
  ℕ, ◌≡◌, refl, subst, some-eq, ◌∙◌, inl, inr, false, some, List, [], ◌∷◌, arith, Any, Option-cases,
  Bool-cases, length, ltb, fetch_add,
}
use matchmaker.Models.Memory.{Ref, Heap, is_held}
use matchmaker.Engine.Bucket.Store.{ConcurrentMap}
use matchmaker.Engine.Bucket.{PlayerPool, remove, range_scan, get}
use matchmaker.Engine.Bucket.Index.{index_remove}
use matchmaker.Engine.Bucket.Listed.{Any-keep, range_scan-Any}
use matchmaker.Engine.Relaxation.{scan_bounds}
use matchmaker.Engine.Balancer.{BalanceResult, match_size, exhaustive_balance}
use matchmaker.Engine.Matcher.{
  WorkerContext, WorkerState, Readings, Shared, Outcome, select_seed, discover, attempt_match,
  claim_phase, complete, roll_back, remove_all,
}
use matchmaker.Engine.Matcher.Claiming.{claims, claims-Claims}
use matchmaker.Engine.Matcher.Marking.{release_all-writes, mark_all_others}
use matchmaker.Engine.Matcher.Forming.{is_held-In}

module _ (S : ConcurrentMap) (q : Ref) where
  abbrev pub IsUnlisted : PlayerPool S → Type 0
  IsUnlisted pool = ¬ Any (λ e. e.1 ≡ q) pool.index

  remove-Any :
      (heap : Heap) (id : ℕ) (pool : PlayerPool S)
      → Any (λ e. e.1 ≡ q) (remove S heap id pool).1.index
      → Any (λ e. e.1 ≡ q) pool.index
  unfolding remove index_remove
  remove-Any heap id pool m = elim (Option-cases (get S id pool)) [
    | inl e ↦ rw (e, remove) at m
    | inr (r, e) ↦ Any-keep _ q pool.index (rw (e, remove) at m)
  ]

  remove_all-Any :
      (heap : Heap) (rs : List Ref) (pool : PlayerPool S)
      → Any (λ e. e.1 ≡ q) (remove_all S heap rs pool).index
      → Any (λ e. e.1 ≡ q) pool.index
  unfolding remove_all
  remove_all-Any heap [] pool m = m
  remove_all-Any heap (r ∷ rs) pool m =
      remove-Any heap (heap r).id pool (remove_all-Any heap rs (remove S heap (heap r).id pool).1 m)

  -- The player is as before, and still has no entry.
  pub record IsPassedOver (s s' : Shared S) : Type 0 where
    pub same : s'.heap q ≡ s.heap q
    pub unlisted : IsUnlisted s'.pool

  module _ (ctx : WorkerContext) (t : Readings) (s : Shared S) (w : WorkerState)
      (u : IsUnlisted s.pool) where
    module _ (seed : Ref) (cs : List Ref) (out : is_held q cs ≡ false) where
      not_claimed : is_held q (claims S ctx t s cs).1 ≡ false
      not_claimed = ground (
        arith,
        (claims-Claims S ctx t s cs).from q,
        out,
        Bool-cases (is_held q (claims S ctx t s cs).1),
      )

      untouched : (claims S ctx t s cs).0 q ≡ s.heap q
      untouched = (claims-Claims S ctx t s cs).writes q ∙ ground (arith, not_claimed)

      abbrev claimed_state : Shared S
      claimed_state = record s { heap = (claims S ctx t s cs).0 }

      rolled-IsPassedOver :
          IsPassedOver s (roll_back S claimed_state w seed (claims S ctx t s cs).1).0
      unfolding roll_back
      rolled-IsPassedOver = record {
        same =
            release_all-writes (claims S ctx t s cs).0 (claims S ctx t s cs).1
              (claims-Claims S ctx t s cs).distinct q
            ∙ ground (arith, not_claimed, untouched);
        unlisted = u;
      }

      complete-IsPassedOver :
          (b : BalanceResult Ref)
          → IsPassedOver s (complete S ctx t claimed_state w (claims S ctx t s cs).1 b).0
      unfolding complete
      complete-IsPassedOver b = record {
        same =
            mark_all_others t.matched 0 (claims S ctx t s cs).0 (claims S ctx t s cs).1 q
              not_claimed
            ∙ untouched;
        unlisted = λ m. u (remove_all-Any _ (claims S ctx t s cs).1 s.pool m);
      }

      claim_phase-IsPassedOver :
          (o : Outcome S) → claim_phase S ctx t s w seed cs ≡ some o → IsPassedOver s o.0
      unfolding claim_phase claims
      claim_phase-IsPassedOver o h =
          elim (Bool-cases (ltb (length (claims S ctx t s cs).1) match_size)) [
            | inl few ↦
                subst (λ (x : Outcome S). IsPassedOver s x.0) (some-eq (rw few at h))
                  rolled-IsPassedOver
            | inr ten ↦
                elim (Option-cases (
                  exhaustive_balance (λ r. ((claims S ctx t s cs).0 r).skill_rating)
                    (claims S ctx t s cs).1)) [
                      | inl e ↦ absurd (ground (arith, rw (ten, e) at h))
                      | inr (b, e) ↦
                          subst (λ (x : Outcome S). IsPassedOver s x.0) (some-eq (rw (ten, e) at h))
                            (complete-IsPassedOver b)
                    ]
          ]

  module _ (ctx : WorkerContext) (t : Readings) (s : Shared S) (w : WorkerState)
      (u : IsUnlisted s.pool) where
    abbrev bounds : Ref → ℕ × ℕ
    bounds seed =
        scan_bounds t.bounds (s.heap seed).skill_rating (s.heap seed).join_timestamp ctx.config

    abbrev counted : Shared S
    counted = record s {
      metrics = record s.metrics {
        worker_cycles_total = fetch_add s.metrics.worker_cycles_total 1;
      };
    }

    discover-IsPassedOver :
        (seed : Ref) (o : Outcome S) → discover S ctx t s w seed ≡ some o → IsPassedOver s o.0
    unfolding discover
    discover-IsPassedOver seed o h =
        elim (Option-cases
          (range_scan S s.heap (seed ∷ s.held) s.pool (bounds seed).0 (bounds seed).1)) [
            | inl e ↦ absurd (ground (arith, rw e at h))
            | inr (rs, e) ↦
                let out : is_held q rs ≡ false = ground (
                  arith,
                  Bool-cases (is_held q rs),
                  is_held-In q rs,
                  u,
                  range_scan-Any S s.heap (seed ∷ s.held) s.pool (bounds seed).0 (bounds seed).1 rs
                      q e,
                ) in
                elim (Bool-cases (ltb (length rs) match_size)) [
                  | inl few ↦
                      subst (λ (x : Outcome S). IsPassedOver s x.0) (some-eq (rw (e, few) at h))
                        (record { same = refl; unlisted = u })
                  | inr ten ↦
                      let p =
                        claim_phase-IsPassedOver ctx t counted w u seed rs out o
                          (rw (e, ten) at h) in
                      record { same = p.same; unlisted = p.unlisted }
                ]
          ]

    -- An attempt neither claims nor matches a player that has no entry in the index.
    pub attempt_match-IsPassedOver :
        (o : Outcome S) → attempt_match S ctx t s w ≡ some o → IsPassedOver s o.0
    unfolding attempt_match
    attempt_match-IsPassedOver o h = elim (Option-cases (select_seed S ctx t s w)) [
      | inl e ↦
          subst (λ (x : Outcome S). IsPassedOver s x.0) (some-eq (rw (e, attempt_match) at h))
            (record { same = refl; unlisted = u })
      | inr (seed, e) ↦ discover-IsPassedOver seed o (rw (e, attempt_match) at h)
    ]
