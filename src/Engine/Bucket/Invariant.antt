-- ===== src/Engine/Bucket/Invariant.antt =====
-- src/engine/bucket.rs: the two structures of a pool agree, and every operation keeps that.
use matchmaker.Base.{
  sym, ◌⊎◌, subst, ℕ, ◌≤◌, ◌≡◌, inl, inr, none, some, arith, ◌==◌, keep-In, In-keep, Option-cases,
  false,
}
use matchmaker.Models.Memory.{Ref, Heap}
use matchmaker.Engine.Bucket.Store.{ConcurrentMap}
use matchmaker.Engine.Bucket.Index.{
  Entry, index_remove, Entry-insert_self, Entry-insert, insert-Entry,
}
use matchmaker.Engine.Bucket.Sorted.{IsSorted, index_insert-IsSorted, keep-IsSorted}
use matchmaker.Engine.Bucket.{
  PlayerPool, max_skill_rating, uuid_max, new, key_of, insert, remove, get,
}

-- The pool does not read what the methods of a player write.
pub record SameKeys (heap heap' : Heap) : Type 0 where
  pub ids : (r : Ref) → (heap' r).id ≡ (heap r).id
  pub ratings : (r : Ref) → (heap' r).skill_rating ≡ (heap r).skill_rating

module _ (S : ConcurrentMap) where
  -- The map keeps each player under its identifier, the index has exactly the players of the map,
  -- under rating and identifier, in the order of these keys, and both are in range.
  pub record IsPool (heap : Heap) (pool : PlayerPool S) : Type 0 where
    pub keyed : (id : ℕ) (r : Ref) → get S id pool ≡ some r → (heap r).id ≡ id
    pub valid :
        (id : ℕ) (r : Ref)
        → get S id pool ≡ some r
        → ((heap r).skill_rating ≤ max_skill_rating) × (id ≤ uuid_max)
    pub indexed : (id : ℕ) (r : Ref) → get S id pool ≡ some r → Entry (key_of S heap r) r pool.index
    pub listed :
        (rating id : ℕ) (r : Ref)
        → Entry (rating, id) r pool.index
        → (get S id pool ≡ some r) × ((heap r).skill_rating ≡ rating)
    pub sorted : IsSorted pool.index

  pub new-IsPool : (heap : Heap) → IsPool heap (new S)
  unfolding new
  new-IsPool heap = record {
    keyed = λ id r e. absurd (ground (arith, S.get-new id));
    valid = λ id r e. absurd (ground (arith, S.get-new id));
    indexed = λ id r e. absurd (ground (arith, S.get-new id));
    listed = λ rating id r e. absurd e;
    sorted = tt;
  }

  pub IsPool-SameKeys :
      {heap heap' : Heap} {pool : PlayerPool S}
      → SameKeys heap heap'
      → IsPool heap pool
      → IsPool heap' pool
  IsPool-SameKeys {heap} {heap'} {pool} k v = record {
    keyed = λ id r e. ground (arith, k.ids r, v.keyed id r e);
    valid = λ id r e. ground (arith, k.ratings r, v.valid id r e);
    indexed = λ id r e. rw (k.ids r, k.ratings r) (v.indexed id r e);
    listed = λ rating id r e. ground (arith, k.ratings r, v.listed rating id r e);
    sorted = v.sorted;
  }

  module _ (heap : Heap) (r : Ref) (pool : PlayerPool S) where
    get-insert :
        (id : ℕ) (q : Ref)
        → get S id (insert S heap r pool) ≡ some q
        → ((id ≡ (heap r).id) × (q ≡ r))
          ⊎ ((((heap r).id == id) ≡ false) × (get S id pool ≡ some q))
    unfolding insert
    get-insert id q e = ground (arith, S.get-insert (heap r).id id r pool.primary)

    -- Inserting a player with a valid rating whose identifier is not in the pool keeps the map and the
    -- index in agreement.
    pub insert-IsPool :
        get S (heap r).id pool ≡ none
        → (heap r).skill_rating ≤ max_skill_rating
        → (heap r).id ≤ uuid_max
        → IsPool heap pool
        → IsPool heap (insert S heap r pool)
    unfolding insert
    insert-IsPool fresh small wide v = record {
      keyed = λ id q e. ground (arith, get-insert id q e, v.keyed id q);
      valid = λ id q e. ground (arith, get-insert id q e, v.valid id q);
      indexed = λ id q e. elim (get-insert id q e) [
        | inl (_, h) ↦
            subst (λ p. Entry (key_of S heap p) p (insert S heap r pool).index) (sym h)
              (Entry-insert_self (key_of S heap r) r pool.index)
        | inr (ne, old) ↦
            Entry-insert (key_of S heap r) (key_of S heap q) r q pool.index (v.indexed id q old)
              (ground (arith, v.keyed id q old))
      ];
      listed = λ rating id q e. ground (
        arith,
        insert-Entry (key_of S heap r) (rating, id) r q pool.index e,
        v.listed rating id q,
        S.get-insert (heap r).id id r pool.primary,
      );
      sorted = index_insert-IsSorted (key_of S heap r) r pool.index v.sorted;
    }

  module _ (heap : Heap) (pool : PlayerPool S) (v : IsPool heap pool) where
    -- Both structures lose the player.
    remove-cases :
        (id : ℕ) (r : Ref)
        → get S id pool ≡ some r
        → remove S heap id pool ≡ (
          some r,
          record {
            primary = S.remove id pool.primary;
            index = index_remove (key_of S heap r) pool.index;
          },
        )
    unfolding remove
    remove-cases id r e = rw (e, remove)

    removed-IsPool :
        (id : ℕ) (r : Ref)
        → get S id pool ≡ some r
        → IsPool heap (record pool {
          primary = S.remove id pool.primary;
          index = index_remove (key_of S heap r) pool.index;
        })
    unfolding index_remove
    removed-IsPool id r e = record {
      keyed = λ j q h. ground (arith, S.get-remove id j pool.primary, v.keyed j q);
      valid = λ j q h. ground (arith, S.get-remove id j pool.primary, v.valid j q);
      indexed = λ j q h.
          In-keep _ _ pool.index (v.indexed j q (ground (arith, S.get-remove id j pool.primary)))
            (ground (arith, S.get-remove id j pool.primary, v.keyed id r e, v.keyed j q));
      listed = λ rating j q h.
          let (m, other) = keep-In _ _ pool.index h in
          ground (
            arith,
            v.listed rating j q m,
            other,
            v.keyed id r e,
            v.listed rating j r,
            S.get-remove id j pool.primary,
          );
      sorted = keep-IsSorted _ pool.index v.sorted;
    }

    -- Removing whatever identifier keeps the map and the index in agreement.
    pub remove-IsPool : (id : ℕ) → IsPool heap (remove S heap id pool).1
    unfolding remove
    remove-IsPool id = elim (Option-cases (get S id pool)) [
      | inl e ↦ rw (e, remove) v
      | inr (r, e) ↦ rw (e, remove) (removed-IsPool id r e)
    ]
