-- ===== src/Engine/Bucket/Steps/Lost.antt =====
-- src/engine/bucket.rs: a player that comes back while `remove` is between the map and the index.
use matchmaker.Base.{ℕ, not, ◌≡◌, refl, false, true, some, List, [], ◌∷◌, ◌==◌, arith, Any, In}
use matchmaker.Models.Memory.{Ref, Heap}
use matchmaker.Engine.Bucket.Store.{ConcurrentMap}
use matchmaker.Engine.Bucket.Index.{Key, RatingIndex, index_insert, index_remove, key_eq}
use matchmaker.Engine.Bucket.{PlayerPool, key_of, get, contains, range_scan}
use matchmaker.Engine.Bucket.Listed.{Any-keep, range_scan-Any}
use matchmaker.Engine.Bucket.Steps.Alone.{removed, removes-some}
use matchmaker.Engine.Bucket.Steps.{
  nothing, adds, inserts, removes, returns, Tasks, now_pending, quiet, step, run,
}

-- A new entry whose key is removed leaves only old entries.
Any-replaced :
    (k : Key) (q : Ref) (es : RatingIndex)
    → Any (λ e. e.1 ≡ q) (index_remove k (index_insert k q es))
    → Any (λ e. e.1 ≡ q) es
unfolding index_insert index_remove
Any-replaced k q [] m = ground arith
Any-replaced k q (e ∷ es) m =
    ground (arith, Any-replaced k q es, Any-keep (λ x. not (key_eq k x.0)) q es)

module _ (S : ConcurrentMap) where
  module _ (heap : Heap) (pool : PlayerPool S) (r q : Ref) (i j : ℕ)
      (here : get S (heap r).id pool ≡ some r) (apart : (i == j) ≡ false)
      (same_id : (heap q).id ≡ (heap r).id)
      (same_rating : (heap q).skill_rating ≡ (heap r).skill_rating)
      (unlisted : ¬ Any (λ e. e.1 ≡ q) pool.index) where
    abbrev midway : Tasks S
    midway = run S heap (removes i (heap r).id ∷ []) (quiet S pool)

    abbrev after : Tasks S
    after = run S heap (inserts j q ∷ returns j ∷ returns i ∷ []) midway

    -- The state after each of the steps.
    abbrev gone : Tasks S
    gone = removed S heap pool i (heap r).id r

    abbrev entered : Tasks S
    entered = record {
      pool = record gone.pool { primary = S.insert (heap q).id q gone.pool.primary };
      pending = now_pending S j (adds q) gone.pending;
    }

    abbrev listed : Tasks S
    listed = record {
      pool = record entered.pool { index = index_insert (key_of S heap q) q pool.index };
      pending = now_pending S j nothing entered.pending;
    }

    abbrev settled : Tasks S
    settled = record {
      pool = record listed.pool { index = index_remove (key_of S heap r) listed.pool.index };
      pending = now_pending S i nothing listed.pending;
    }

    midway-gone : midway ≡ gone
    unfolding run
    midway-gone = removes-some S heap pool i (heap r).id r here

    step-entered : step S heap (inserts j q) gone ≡ entered
    unfolding step
    step-entered = rw apart refl

    step-listed : step S heap (returns j) entered ≡ listed
    unfolding step
    step-listed = let own : (j == j) ≡ true = ground arith in rw own refl

    step-settled : step S heap (returns i) listed ≡ settled
    unfolding step
    step-settled =
        let own : (i == i) ≡ true = ground arith in
        let other : (j == i) ≡ false = ground (arith, apart) in rw (other, own) refl

    after-settled : after ≡ settled
    unfolding run
    after-settled = rw (midway-gone, step-entered, step-listed, step-settled) refl

    settled-unlisted : ¬ Any (λ e. e.1 ≡ q) settled.pool.index
    settled-unlisted m =
        unlisted (Any-replaced (key_of S heap r) q pool.index (rw (same_id, same_rating) at m))

    -- A task removes a player and has taken it from the map, but not yet from the index. A call of
    -- `enqueue` is not refused then for the same identifier, since the map lacks it. If the new player has the
    -- rating of the old one and is inserted before the first task goes on, then, with both calls
    -- returned, the map has the new player, and no scan by rating ever finds it.
    pub lost_entry :
        (contains S (heap r).id midway.pool ≡ false)
        × ((t : ℕ) → after.pending t ≡ nothing)
        × (get S (heap r).id after.pool ≡ some q)
        × ((heap' : Heap) (held : List Ref) (least most : ℕ) (rs : List Ref)
            → range_scan S heap' held after.pool least most ≡ some rs
            → ¬ In q rs)
    lost_entry = (
      rw midway-gone (ground (arith, S.get-remove (heap r).id (heap r).id pool.primary)),
      λ t. rw after-settled (ground arith),
      rw after-settled (
          ground (
            arith,
            same_id,
            S.get-insert (heap q).id (heap r).id q (S.remove (heap r).id pool.primary),
          )),
      λ heap' held least most rs e m.
          settled-unlisted
            (rw after-settled at (range_scan-Any S heap' held after.pool least most rs q e m)),
    )
