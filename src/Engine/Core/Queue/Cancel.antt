-- ===== src/Engine/Core/Queue/Cancel.antt =====
-- src/engine/mod.rs: `cancel` on all its branches.
use matchmaker.Engine.Core.Queue.{IsShared, cancel_spec, seen, view}
use matchmaker.Engine.Bucket.Invariant.{SameKeys, IsPool-SameKeys, remove-IsPool}
use matchmaker.Engine.Matcher.{Shared}
use matchmaker.Base.{
  ap, ◌+◌, if◌then◌else◌, false, ◌≢◌, inl, inr, ◌⊎◌, ◌≡◌, refl, none, some, arith, ◌==◌, ok, err,
  Option-cases, Bool-cases,
}
use matchmaker.Models.Player.{evicted, Uuid, waiting, try_evict}
use matchmaker.Models.Memory.{Heap, Ref, write}
use matchmaker.Engine.Bucket.Store.{ConcurrentMap}
use matchmaker.Engine.Bucket.{remove, len, get}
use matchmaker.Engine.Core.{cancelled, MatchmakerCore, not_found, currently_being_matched, cancel}

module _ (S : ConcurrentMap) (id : Uuid) (core : MatchmakerCore S) where
  pub cancel-cases :
      ((get S id core.shared.pool ≡ none) × (cancel S id core ≡ (core, err (not_found id))))
      ⊎ ((r : Ref) × (get S id core.shared.pool ≡ some r)
          × ((((core.shared.heap r).state ≡ waiting)
                × (cancel S id core ≡ (
                  record core {
                    shared =
                        cancelled S id
                          (write core.shared.heap r
                            (record (core.shared.heap r) { state = evicted }))
                          core.shared;
                  },
                  ok tt,
                )))
              ⊎ (((core.shared.heap r).state ≢ waiting)
                  × (cancel S id core ≡ (core, err (currently_being_matched id))))))
  unfolding cancel try_evict
  cancel-cases = elim (Option-cases (get S id core.shared.pool)) [
    | inl e ↦ inl (e, rw (e, cancel) refl)
    | inr (r, e) ↦ inr (
      r,
      e,
      elim (Bool-cases ((core.shared.heap r).state == waiting)) [
        | inl b ↦ inl (ground arith, rw (e, b, cancel) refl)
        | inr b ↦ inr (ground arith, rw (e, b, cancel) refl)
      ],
    )
  ]

  module _ (v : IsShared S core.shared) where
    abbrev s : Shared S
    s = core.shared

    module _ (r : Ref) (e : get S id s.pool ≡ some r) where
      abbrev heap' : Heap
      heap' = write s.heap r (record (s.heap r) { state = evicted })

      same_keys : SameKeys s.heap heap'
      same_keys = record { ids = λ q. ground arith; ratings = λ q. ground arith }

      -- Another identifier names another object.
      pub elsewhere :
          (j : Uuid) (q : Ref) → get S j s.pool ≡ some q → (j == id) ≡ false → heap' q ≡ s.heap q
      elsewhere j q m ne = ground (arith, v.agrees.keyed id r e, v.agrees.keyed j q m)

      pub pooled_after :
          (j : Uuid)
          → get S j (remove S heap' id s.pool).1 ≡ (if j == id then none else get S j s.pool)
      unfolding remove
      pooled_after j = ground (arith, S.get-remove id j s.pool.primary)

      len_after : len S (remove S heap' id s.pool).1 + 1 ≡ len S s.pool
      unfolding remove
      len_after = ground (arith, S.len-remove id r s.pool.primary e)

      cancelled-IsShared : IsShared S (cancelled S id heap' s)
      cancelled-IsShared = record {
        agrees = remove-IsPool S heap' s.pool (IsPool-SameKeys S same_keys v.agrees) id;
        fresh = λ j q m. ground (arith, pooled_after j, v.fresh j q);
        live = λ j q m. ground (arith, pooled_after j, v.live j q, elsewhere j q);
        counted = ground (arith, v.counted, len_after);
        conserved = ground (arith, v.conserved);
      }

      pub view_after : (j : Uuid) → (j == id) ≡ false → seen S heap' (get S j s.pool) ≡ view S s j
      view_after j ne = elim (Option-cases (get S j s.pool)) [
        | inl m ↦ rw m refl
        | inr (q, m) ↦ rw m (ap some (elsewhere j q m ne))
      ]

    -- Whatever `cancel` answers, the pool stays well-formed and the counters right.
    pub cancel-IsShared : IsShared S (cancel S id core).0.shared
    cancel-IsShared = elim cancel-cases [
      | inl (_, e) ↦ rw e v
      | inr (r, m, inl (_, e)) ↦ rw e (cancelled-IsShared r m)
      | inr (r, m, inr (_, e)) ↦ rw e v
    ]

    -- On a pool whose structures and counters agree, `cancel` does to the queue what it promises,
    -- and answers so: an unknown player and a player that is not Waiting are refused, and the
    -- queue is as before; a Waiting player is removed, and no other is touched.
    pub cancel-view :
        ((j : Uuid)
          → view S (cancel S id core).0.shared j ≡ (cancel_spec id (view S core.shared)).0 j)
        × ((cancel S id core).1 ≡ (cancel_spec id (view S core.shared)).1)
    cancel-view = elim cancel-cases [
      | inl (free, e) ↦ (λ j. ground (arith, e, free), ground (arith, e, free))
      | inr (r, m, inl (ready, e)) ↦ (
        λ j. ground (arith, e, m, ready, pooled_after r m j, view_after r m j),
        ground (arith, e, m, ready),
      )
      | inr (r, m, inr (busy, e)) ↦ (λ j. ground (arith, e, m, busy), ground (arith, e, m, busy))
    ]
