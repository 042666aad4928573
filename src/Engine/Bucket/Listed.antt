-- ===== src/Engine/Bucket/Listed.antt =====
-- src/engine/bucket.rs: a player that has no entry in the index is found by no scan.
use matchmaker.Base.{
  ℕ, ◌-◌, Bool, Bool-cases, some-eq, not, ◌&&◌, min, ◌≡◌, false, some, List, [], ◌∷◌, inl, inr,
  arith, Any, In, keep,
}
use matchmaker.Models.Memory.{Ref, Heap}
use matchmaker.Engine.Bucket.Store.{ConcurrentMap}
use matchmaker.Engine.Bucket.Index.{Key, RatingIndex, range, key_lt}
use matchmaker.Engine.Bucket.Order.{sort_by_age-In}
use matchmaker.Engine.Bucket.{
  PlayerPool, max_skill_rating, uuid_nil, uuid_max, sort_by_age, range_scan, collect, is_alive,
}

-- What the loop of `range_scan` finds has an entry.
collect-Any :
    (alive : Ref → Bool) (heap : Heap) (q : Ref) (room : ℕ) (es : RatingIndex)
    → In q (collect alive heap room es)
    → Any (λ e. e.1 ≡ q) es
unfolding collect
collect-Any alive heap q room [] m = m
collect-Any alive heap q room ((k, r) ∷ es) m =
    ground (arith, collect-Any alive heap q (room - 1) es, collect-Any alive heap q room es)

pub Any-keep :
    (p : Key × ℕ → Bool) (q : Ref) (es : RatingIndex)
    → Any (λ e. e.1 ≡ q) (keep p es)
    → Any (λ e. e.1 ≡ q) es
Any-keep p q [] m = m
Any-keep p q (e ∷ es) m = ground (arith, Any-keep p q es)

module _ (S : ConcurrentMap) where
  pub range_scan-Any :
      (heap : Heap) (held : List Ref) (pool : PlayerPool S) (least most : ℕ) (rs : List Ref)
      (q : Ref)
      → range_scan S heap held pool least most ≡ some rs
      → In q rs
      → Any (λ e. e.1 ≡ q) pool.index
  unfolding range_scan range
  range_scan-Any heap held pool least most rs q e m =
      let bounded = λ (x : Key × ℕ).
        not (key_lt x.0 (min least max_skill_rating, uuid_nil))
        && not (key_lt (min most max_skill_rating, uuid_max) x.0) in
      let found : key_lt (min most max_skill_rating, uuid_max)
              (min least max_skill_rating, uuid_nil)
            ≡ false
          → sort_by_age heap
              (collect (is_alive S heap held pool) heap 200 (keep bounded pool.index))
            ≡ rs =
        λ fine. some-eq (rw fine at e) in
      elim (Bool-cases
        (key_lt (min most max_skill_rating, uuid_max) (min least max_skill_rating, uuid_nil))) [
          | inl panics ↦ absurd (ground (arith, e))
          | inr fine ↦ Any-keep bounded q pool.index (
              collect-Any (is_alive S heap held pool) heap q 200 (keep bounded pool.index) (
                sort_by_age-In heap q
                  (collect (is_alive S heap held pool) heap 200 (keep bounded pool.index))
                  (rw (found fine) m)))
        ]
