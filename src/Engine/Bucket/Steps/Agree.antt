-- ===== src/Engine/Bucket/Steps/Agree.antt =====
-- src/engine/bucket.rs: the map and the index while calls of `insert` and `remove` overlap.
use matchmaker.Base.{
  ℕ, ◌≡◌, refl, subst, false, some, List, [], ◌∷◌, ◌==◌, ◌⊎◌, inl, inr, arith, Bool-cases, In-keep,
}
use matchmaker.Models.Player.{Uuid}
use matchmaker.Models.Memory.{Ref, Heap, is_held, Distinct}
use matchmaker.Engine.Bucket.Store.{ConcurrentMap}
use matchmaker.Engine.Bucket.Index.{
  Entry, Key, index_insert, index_remove, Entry-insert_self, Entry-insert,
}
use matchmaker.Engine.Bucket.{PlayerPool, key_of, get}
use matchmaker.Engine.Bucket.Invariant.{IsPool}
use matchmaker.Engine.Bucket.Steps.Open.{
  inserted, IsListed, IsOpen, IsOpen-weaken, insert-IsOpen, remove-IsOpen,
}
use matchmaker.Engine.Bucket.Steps.{
  Pending, nothing, adds, drops, Step, inserts, removes, returns, Tasks, now_pending, quiet, step,
  run,
}

module _ (S : ConcurrentMap) (heap : Heap) where
  module _ (w : Tasks S) where
    module _ (later : List Uuid) (i : ℕ) (v : IsOpen S heap later w) where
      -- The player that task `i` adds is the only one with its identifier.
      sole :
          (r q : Ref) (id : Uuid)
          → w.pending i ≡ adds r
          → get S id w.pool ≡ some q
          → (r ≡ q) ⊎ (((heap r).id == (heap q).id) ≡ false)
      sole r q id busy e = elim (Bool-cases ((heap r).id == (heap q).id)) [
        | inl same ↦ inl (ground (arith, v.adding i r busy, v.keyed id q e))
        | inr other ↦ inr other
      ]

      added-listed :
          (r q : Ref) (id : Uuid)
          → w.pending i ≡ adds r
          → get S id w.pool ≡ some q
          → IsListed S heap w q
          → Entry (key_of S heap q) q (index_insert (key_of S heap r) r w.pool.index)
            ⊎ ((j : ℕ) × (now_pending S i nothing w.pending j ≡ adds q))
      added-listed r q id busy e (inl m) = inl (elim (sole r q id busy e) [
        | inl same ↦ rw (← same) (Entry-insert_self (key_of S heap r) r w.pool.index)
        | inr other ↦
            Entry-insert (key_of S heap r) (key_of S heap q) r q w.pool.index m (ground arith)
      ])
      added-listed r q id busy e (inr (j, h)) = elim (Bool-cases (i == j)) [
        | inl same ↦ inl (
            subst (λ p. Entry (key_of S heap p) p (index_insert (key_of S heap r) r w.pool.index))
              (ground arith) (Entry-insert_self (key_of S heap r) r w.pool.index))
        | inr other ↦ inr (j, ground arith)
      ]

      dropped-listed :
          (k : Key) (q : Ref) (id : Uuid)
          → w.pending i ≡ drops k
          → get S id w.pool ≡ some q
          → IsListed S heap w q
          → Entry (key_of S heap q) q (index_remove k w.pool.index)
            ⊎ ((j : ℕ) × (now_pending S i nothing w.pending j ≡ adds q))
      unfolding index_remove
      dropped-listed k q id busy e (inl m) =
          inl (In-keep _ _ w.pool.index m (ground (arith, v.dropping i k busy, v.keyed id q e)))
      dropped-listed k q id busy e (inr (j, h)) = inr (j, ground (arith, busy, h))

      added-IsOpen :
          (r : Ref) → w.pending i ≡ adds r → IsOpen S heap later (step S heap (returns i) w)
      unfolding step
      added-IsOpen r busy = rw busy (record {
        keyed = v.keyed;
        listed = λ id q e. added-listed r q id busy e (v.listed id q e);
        adding = λ j q e. ground (arith, v.adding j q);
        dropping = λ j k e. ground (arith, v.dropping j k);
        pooled_once = v.pooled_once;
        added_once = λ j q e. ground (arith, v.added_once j q);
        dropped_once = λ j k e. ground (arith, v.dropped_once j k);
      })

      dropped-IsOpen :
          (k : Key) → w.pending i ≡ drops k → IsOpen S heap later (step S heap (returns i) w)
      unfolding step
      dropped-IsOpen k busy = rw busy (record {
        keyed = v.keyed;
        listed = λ id q e. dropped-listed k q id busy e (v.listed id q e);
        adding = λ j q e. ground (arith, v.adding j q);
        dropping = λ j k e. ground (arith, v.dropping j k);
        pooled_once = v.pooled_once;
        added_once = λ j q e. ground (arith, v.added_once j q);
        dropped_once = λ j k e. ground (arith, v.dropped_once j k);
      })

  Pending-cases :
      (p : Pending) → (p ≡ nothing) ⊎ (((r : Ref) × (p ≡ adds r)) ⊎ ((k : Key) × (p ≡ drops k)))
  Pending-cases nothing = inl refl
  Pending-cases (adds r) = inr (inl (r, refl))
  Pending-cases (drops k) = inr (inr (k, refl))

  Distinct-later :
      (s : Step) (ss : List Step)
      → Distinct (inserted S heap (s ∷ ss))
      → Distinct (inserted S heap ss)
  Distinct-later (inserts i r) ss d = d.1
  Distinct-later (removes i id) ss d = d
  Distinct-later (returns i) ss d = d

  step-IsOpen :
      (s : Step) (ss : List Step) (w : Tasks S)
      → Distinct (inserted S heap (s ∷ ss))
      → IsOpen S heap (inserted S heap (s ∷ ss)) w
      → IsOpen S heap (inserted S heap ss) (step S heap s w)
  unfolding step
  step-IsOpen (inserts i r) ss w d v = elim (Pending-cases (w.pending i)) [
    | inl free ↦ insert-IsOpen S heap w (inserted S heap ss) i free r d.0 v
    | inr (inl (q, busy)) ↦ rw busy (IsOpen-weaken S heap w (heap r).id (inserted S heap ss) v)
    | inr (inr (k, busy)) ↦ rw busy (IsOpen-weaken S heap w (heap r).id (inserted S heap ss) v)
  ]
  step-IsOpen (removes i id) ss w d v = elim (Pending-cases (w.pending i)) [
    | inl free ↦ remove-IsOpen S heap w (inserted S heap ss) i free id v
    | inr (inl (q, busy)) ↦ rw busy v
    | inr (inr (k, busy)) ↦ rw busy v
  ]
  step-IsOpen (returns i) ss w d v = elim (Pending-cases (w.pending i)) [
    | inl free ↦ rw free v
    | inr (inl (q, busy)) ↦ added-IsOpen w (inserted S heap ss) i v q busy
    | inr (inr (k, busy)) ↦ dropped-IsOpen w (inserted S heap ss) i v k busy
  ]

  run-IsOpen :
      (ss : List Step) (w : Tasks S)
      → Distinct (inserted S heap ss)
      → IsOpen S heap (inserted S heap ss) w
      → IsOpen S heap [] (run S heap ss w)
  unfolding run
  run-IsOpen [] w d v = v
  run-IsOpen (s ∷ ss) w d v =
      run-IsOpen ss (step S heap s w) (Distinct-later s ss d) (step-IsOpen s ss w d v)

  module _ (pool : PlayerPool S) (agrees : IsPool S heap pool) (ss : List Step) where
    -- However the calls of `insert` and `remove` overlap, if the players that they insert have
    -- identifiers that differ from each other and from those of the pool before, then each
    -- player that is in the map at the end stands there under its identifier and has its entry in
    -- the index, unless a call that inserts it has still to write that entry.
    pub run-listed :
        Distinct (inserted S heap ss)
        → ((id : Uuid) (r : Ref) → get S id pool ≡ some r → is_held id (inserted S heap ss) ≡ false)
        → (id : Uuid) (r : Ref) → get S id (run S heap ss (quiet S pool)).pool ≡ some r
        → ((heap r).id ≡ id)
          × (Entry (key_of S heap r) r (run S heap ss (quiet S pool)).pool.index
              ⊎ ((i : ℕ) × ((run S heap ss (quiet S pool)).pending i ≡ adds r)))
    run-listed d fresh id r e =
        let v = run-IsOpen ss (quiet S pool) d (record {
          keyed = agrees.keyed;
          listed = λ j q h. inl (agrees.indexed j q h);
          adding = λ i q h. absurd (ground arith);
          dropping = λ i k h. absurd (ground arith);
          pooled_once = fresh;
          added_once = λ i q h. absurd (ground arith);
          dropped_once = λ i k h. absurd (ground arith);
        }) in
        (v.keyed id r e, v.listed id r e)
