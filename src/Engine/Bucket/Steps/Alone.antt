-- ===== src/Engine/Bucket/Steps/Alone.antt =====
-- src/engine/bucket.rs: a call of `insert` or `remove` with no other task in between.
use matchmaker.Base.{ℕ, ◌≡◌, refl, true, none, some, [], ◌∷◌, ◌==◌, inl, inr, arith, Option-cases}
use matchmaker.Models.Player.{Uuid}
use matchmaker.Models.Memory.{Ref, Heap}
use matchmaker.Engine.Bucket.Store.{ConcurrentMap}
use matchmaker.Engine.Bucket.Index.{Key, index_remove}
use matchmaker.Engine.Bucket.{PlayerPool, key_of, get, insert, remove}
use matchmaker.Engine.Bucket.Steps.{
  Tasks, nothing, drops, inserts, removes, returns, now_pending, quiet, step, run, remove_begin,
}

module _ (S : ConcurrentMap) (heap : Heap) (pool : PlayerPool S) (i : ℕ) where
  own : (i == i) ≡ true
  own = ground arith

  insert-alone :
      (r : Ref)
      → ((run S heap (inserts i r ∷ returns i ∷ []) (quiet S pool)).pool ≡ insert S heap r pool)
        × ((j : ℕ) → (run S heap (inserts i r ∷ returns i ∷ []) (quiet S pool)).pending j ≡ nothing)
  unfolding run step insert
  insert-alone r = rw own (refl, λ j. ground arith)

  -- A task has taken a player from the map.
  abbrev pub removed : Uuid → Ref → Tasks S
  removed id r = record {
    pool = record pool { primary = S.remove id pool.primary };
    pending = now_pending S i (drops (key_of S heap r)) (λ j. nothing);
  }

  removes-none :
      (id : Uuid) → get S id pool ≡ none → step S heap (removes i id) (quiet S pool) ≡ quiet S pool
  unfolding step
  removes-none id e = rw (e, remove_begin) refl

  pub removes-some :
      (id : Uuid) (r : Ref)
      → get S id pool ≡ some r
      → step S heap (removes i id) (quiet S pool) ≡ removed id r
  unfolding step
  removes-some id r e = rw (e, remove_begin) refl

  returns-nothing : step S heap (returns i) (quiet S pool) ≡ quiet S pool
  unfolding step
  returns-nothing = refl

  returns-drops :
      (w : Tasks S) (k : Key)
      → w.pending i ≡ drops k
      → step S heap (returns i) w ≡ record {
        pool = record w.pool { index = index_remove k w.pool.index };
        pending = now_pending S i nothing w.pending;
      }
  unfolding step
  returns-drops w k e = rw e refl

  remove-alone :
      (id : Uuid)
      → ((run S heap (removes i id ∷ returns i ∷ []) (quiet S pool)).pool
          ≡ (remove S heap id pool).1)
        × ((j : ℕ)
            → (run S heap (removes i id ∷ returns i ∷ []) (quiet S pool)).pending j ≡ nothing)
  unfolding run remove
  remove-alone id = elim (Option-cases (get S id pool)) [
    | inl e ↦ rw (removes-none id e, returns-nothing) (rw (e, remove) refl, λ j. refl)
    | inr (r, e) ↦
        rw (removes-some id r e, returns-drops (removed id r) (key_of S heap r) (rw own refl))
          (rw (e, remove) refl, λ j. ground arith)
  ]

  -- A call of `insert` or `remove` whose two steps follow each other leaves the pool that the
  -- operation is to leave, and the task has nothing more to do.
  calls-alone :
      ((r : Ref)
        → ((run S heap (inserts i r ∷ returns i ∷ []) (quiet S pool)).pool ≡ insert S heap r pool)
          × ((j : ℕ)
              → (run S heap (inserts i r ∷ returns i ∷ []) (quiet S pool)).pending j ≡ nothing))
      × ((id : Uuid)
          → ((run S heap (removes i id ∷ returns i ∷ []) (quiet S pool)).pool
              ≡ (remove S heap id pool).1)
            × ((j : ℕ)
                → (run S heap (removes i id ∷ returns i ∷ []) (quiet S pool)).pending j ≡ nothing))
  calls-alone = (insert-alone, remove-alone)
