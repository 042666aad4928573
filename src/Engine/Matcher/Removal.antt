-- ===== src/Engine/Matcher/Removal.antt =====
-- src/engine/matcher.rs, phase 5: the pool after the players of a match have been removed.
use matchmaker.Base.{
  ℕ, ◌+◌, ◌≡◌, refl, true, false, none, some, List, [], ◌∷◌, map, arith, ◌==◌, if◌then◌else◌,
  length, All,
}
use matchmaker.Models.Memory.{Distinct, Ref, Heap, is_held}
use matchmaker.Engine.Bucket.Store.{ConcurrentMap}
use matchmaker.Engine.Bucket.{PlayerPool, remove, get, len}
use matchmaker.Engine.Bucket.Invariant.{IsPool, remove-IsPool}
use matchmaker.Engine.Matcher.{remove_all}

module _ (S : ConcurrentMap) (heap : Heap) where
  remove-get :
      (id j : ℕ) (pool : PlayerPool S)
      → get S j (remove S heap id pool).1 ≡ (if j == id then none else get S j pool)
  unfolding remove
  remove-get id j pool = ground (arith, S.get-remove id j pool.primary)

  abbrev pub ids_of : List Ref → List ℕ
  ids_of = map λ r. (heap r).id

  pub held_id :
      (rs : List Ref) (r : Ref) → is_held r rs ≡ true → is_held (heap r).id (ids_of rs) ≡ true
  held_id [] r h = absurd (ground (arith, h))
  held_id (q ∷ qs) r h = ground (arith, h, held_id qs r)

  -- The identifiers of the removed players are free, and nobody else is touched.
  pub remove_all-get :
      (rs : List Ref) (pool : PlayerPool S) (j : ℕ)
      → get S j (remove_all S heap rs pool) ≡ (if is_held j (ids_of rs) then none else get S j pool)
  unfolding remove_all
  remove_all-get [] pool j = refl
  remove_all-get (r ∷ rs) pool j =
      ground (
        arith,
        remove_all-get rs (remove S heap (heap r).id pool).1 j,
        remove-get (heap r).id j pool,
      )

  pub remove_all-IsPool :
      (rs : List Ref) (pool : PlayerPool S)
      → IsPool S heap pool
      → IsPool S heap (remove_all S heap rs pool)
  unfolding remove_all
  remove_all-IsPool [] pool v = v
  remove_all-IsPool (r ∷ rs) pool v =
      remove_all-IsPool rs (remove S heap (heap r).id pool).1
        (remove-IsPool S heap pool v (heap r).id)

  abbrev pub Pooled : PlayerPool S → Ref → Type 0
  Pooled pool r = get S (heap r).id pool ≡ some r

  remove-len :
      (r : Ref) (pool : PlayerPool S)
      → Pooled pool r
      → len S (remove S heap (heap r).id pool).1 + 1 ≡ len S pool
  unfolding remove
  remove-len r pool e = ground (arith, S.len-remove (heap r).id r pool.primary e)

  still-Pooled :
      (r : Ref) (rs : List Ref) (pool : PlayerPool S)
      → Pooled pool r
      → is_held r rs ≡ false
      → All (Pooled pool) rs
      → All (Pooled (remove S heap (heap r).id pool).1) rs
  still-Pooled r [] pool e d h = tt
  still-Pooled r (q ∷ qs) pool e d h = (
    ground (arith, remove-get (heap r).id (heap q).id pool, h.0),
    still-Pooled r qs pool e (ground arith) h.1,
  )

  -- Players of the pool that are removed make it smaller by their number.
  pub remove_all-len :
      (rs : List Ref) (pool : PlayerPool S)
      → Distinct rs
      → All (Pooled pool) rs
      → len S (remove_all S heap rs pool) + length rs ≡ len S pool
  unfolding remove_all
  remove_all-len [] pool d h = omega arith
  remove_all-len (r ∷ rs) pool d h = omega (
    arith,
    remove-len r pool h.0,
    remove_all-len rs (remove S heap (heap r).id pool).1 d.1 (still-Pooled r rs pool h.0 d.0 h.1),
  )
