-- ===== src/Engine/Bucket/Steps/Open.antt =====
-- src/engine/bucket.rs: the invariant of overlapping calls of `insert` and `remove`, kept by the first
-- step of a call.
use matchmaker.Base.{
  ℕ, ◌≡◌, false, none, some, List, [], ◌∷◌, ◌==◌, ◌⊎◌, inl, inr, arith, Option-cases, Bool-cases,
}
use matchmaker.Models.Player.{Uuid}
use matchmaker.Models.Memory.{Ref, Heap, is_held}
use matchmaker.Engine.Bucket.Store.{ConcurrentMap}
use matchmaker.Engine.Bucket.Index.{Entry, Key}
use matchmaker.Engine.Bucket.{key_of, get}
use matchmaker.Engine.Bucket.Steps.{
  Pending, nothing, adds, drops, Step, inserts, removes, returns, Tasks, now_pending, step,
  remove_begin,
}

module _ (S : ConcurrentMap) (heap : Heap) where
  -- The identifiers of the players that the steps insert.
  abbrev pub inserted : List Step → List Uuid
  inserted [] = []
  inserted (inserts i r ∷ ss) = (heap r).id ∷ inserted ss
  inserted (removes i id ∷ ss) = inserted ss
  inserted (returns i ∷ ss) = inserted ss

  -- A player of the map has its entry in the index, or a task has still to write it.
  abbrev pub IsListed : Tasks S → Ref → Type 0
  IsListed w r = Entry (key_of S heap r) r w.pool.index ⊎ ((i : ℕ) × (w.pending i ≡ adds r))

  -- The invariant, before steps that insert players with the identifiers `later`.
  pub record IsOpen (later : List Uuid) (w : Tasks S) : Type 0 where
    pub keyed : (id : Uuid) (r : Ref) → get S id w.pool ≡ some r → (heap r).id ≡ id
    pub listed : (id : Uuid) (r : Ref) → get S id w.pool ≡ some r → IsListed w r
    pub adding :
        (i : ℕ) (r : Ref)
        → w.pending i ≡ adds r
        → (get S (heap r).id w.pool ≡ none) ⊎ (get S (heap r).id w.pool ≡ some r)
    pub dropping : (i : ℕ) (k : Key) → w.pending i ≡ drops k → get S k.1 w.pool ≡ none
    pub pooled_once : (id : Uuid) (r : Ref) → get S id w.pool ≡ some r → is_held id later ≡ false
    pub added_once : (i : ℕ) (r : Ref) → w.pending i ≡ adds r → is_held (heap r).id later ≡ false
    pub dropped_once : (i : ℕ) (k : Key) → w.pending i ≡ drops k → is_held k.1 later ≡ false

  module _ (w : Tasks S) where
    pub IsOpen-weaken : (id : Uuid) (later : List Uuid) → IsOpen (id ∷ later) w → IsOpen later w
    IsOpen-weaken id later v = record {
      keyed = v.keyed;
      listed = v.listed;
      adding = v.adding;
      dropping = v.dropping;
      pooled_once = λ j r e. ground (arith, v.pooled_once j r e);
      added_once = λ i r e. ground (arith, v.added_once i r e);
      dropped_once = λ i k e. ground (arith, v.dropped_once i k e);
    }

    module _ (later : List Uuid) (i : ℕ) (free : w.pending i ≡ nothing) where
      -- What task `i` has to do next adds to what the others have to do.
      still-listed :
          (p : Pending) (q : Ref)
          → IsListed w q
          → Entry (key_of S heap q) q w.pool.index
            ⊎ ((j : ℕ) × (now_pending S i p w.pending j ≡ adds q))
      still-listed p q (inl m) = inl m
      still-listed p q (inr (j, h)) = inr (j, ground (arith, free, h))

      insert-listed :
          (r : Ref) (id : Uuid) (q : Ref)
          → ((id : Uuid) (q : Ref) → get S id w.pool ≡ some q → IsListed w q)
          → S.get id (S.insert (heap r).id r w.pool.primary) ≡ some q
          → Entry (key_of S heap q) q w.pool.index
            ⊎ ((j : ℕ) × (now_pending S i (adds r) w.pending j ≡ adds q))
      insert-listed r id q v e = elim (Bool-cases (id == (heap r).id)) [
        | inl same ↦ inr (i, ground (arith, S.get-insert (heap r).id id r w.pool.primary))
        | inr other ↦
            still-listed (adds r) q
              (v id q (ground (arith, S.get-insert (heap r).id id r w.pool.primary)))
      ]

      pub insert-IsOpen :
          (r : Ref)
          → is_held (heap r).id later ≡ false
          → IsOpen ((heap r).id ∷ later) w
          → IsOpen later (step S heap (inserts i r) w)
      unfolding step
      insert-IsOpen r once v = rw free (record {
        keyed =
            λ id q e. ground (arith, S.get-insert (heap r).id id r w.pool.primary, v.keyed id q);
        listed = λ id q e. insert-listed r id q v.listed e;
        adding = λ j q e. ground (
          arith,
          free,
          v.adding j q,
          v.added_once j q,
          S.get-insert (heap r).id (heap q).id r w.pool.primary,
        );
        dropping = λ j k e. ground (
          arith,
          free,
          v.dropping j k,
          v.dropped_once j k,
          S.get-insert (heap r).id k.1 r w.pool.primary,
        );
        pooled_once = λ id q e.
            ground (arith, once, v.pooled_once id q, S.get-insert (heap r).id id r w.pool.primary);
        added_once = λ j q e. ground (arith, once, v.added_once j q);
        dropped_once = λ j k e. ground (arith, v.dropped_once j k);
      })

      removed-IsOpen :
          (id : Uuid) (r : Ref)
          → get S id w.pool ≡ some r
          → IsOpen later w
          → IsOpen later (record {
            pool = record w.pool { primary = S.remove id w.pool.primary };
            pending = now_pending S i (drops (key_of S heap r)) w.pending;
          })
      removed-IsOpen id r here v = record {
        keyed = λ j q e. ground (arith, S.get-remove id j w.pool.primary, v.keyed j q);
        listed = λ j q e.
            still-listed _ q (v.listed j q (ground (arith, S.get-remove id j w.pool.primary)));
        adding = λ j q e. ground (arith, v.adding j q, S.get-remove id (heap q).id w.pool.primary);
        dropping = λ j k e.
            ground (arith, v.dropping j k, v.keyed id r here, S.get-remove id k.1 w.pool.primary);
        pooled_once = λ j q e. ground (arith, v.pooled_once j q, S.get-remove id j w.pool.primary);
        added_once = λ j q e. ground (arith, v.added_once j q);
        dropped_once =
            λ j k e. ground (arith, v.dropped_once j k, v.keyed id r here, v.pooled_once id r here);
      }

      pub remove-IsOpen : (id : Uuid) → IsOpen later w → IsOpen later (step S heap (removes i id) w)
      unfolding step
      remove-IsOpen id v = rw free (elim (Option-cases (get S id w.pool)) [
        | inl e ↦ rw (e, remove_begin) v
        | inr (r, e) ↦ rw (e, remove_begin) (removed-IsOpen id r e v)
      ])
