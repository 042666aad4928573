-- ===== src/Engine/Bucket/Scan.antt =====
-- src/engine/bucket.rs: what `range_scan` finds.
use matchmaker.Base.{
  subst, not, ℕ, zero, suc, ◌-◌, ◌≤◌, ◌<◌, ◌≡◌, refl, Bool, true, false, ◌&&◌, some, List, [], ◌∷◌,
  map, arith, ◌==◌, length, take, take_all, length-take, keep, In, In-keep, keep-In, In-take,
  In-map, map-In, min,
}
use matchmaker.Models.Player.{waiting}
use matchmaker.Models.Memory.{Distinct, Ref, Heap}
use matchmaker.Engine.Bucket.Store.{ConcurrentMap}
use matchmaker.Engine.Bucket.Index.{RatingIndex, Key, range, key_lt}
use matchmaker.Engine.Bucket.{
  PlayerPool, max_skill_rating, max_candidates_per_scan, uuid_max, uuid_nil, collect, sort_by_age,
  is_alive, range_scan, get, key_of,
}
use matchmaker.Engine.Bucket.Invariant.{IsPool}
use matchmaker.Engine.Bucket.Sorted.{
  IsSorted-Distinct, keep-IsSorted, keep-Distinct, take-Distinct, sort_by_age-Distinct,
}
use matchmaker.Engine.Bucket.Lowest.{Below, IsKeyed, map-IsKeyed, keep-IsKeyed, take-Below}
use matchmaker.Engine.Bucket.Order.{
  IsByAge, sort_by_age-IsByAge, length-sort_by_age, sort_by_age-In, In-sort_by_age,
}

abbrev usable : (Ref → Bool) → Heap → Ref → Bool
usable alive heap r = alive r && (heap r).state == waiting

-- The loop with its early exit takes the first entries that can be used.
collect-take :
    (alive : Ref → Bool) (heap : Heap) (n : ℕ) (es : RatingIndex)
    → collect alive heap (suc n) es ≡ take (suc n) (keep (usable alive heap) (map (λ e. e.1) es))
unfolding collect
collect-take alive heap n [] = refl
collect-take alive heap zero ((k, r) ∷ es) = ground (arith, collect-take alive heap zero es)
collect-take alive heap (suc n) ((k, r) ∷ es) =
    let e : suc (suc n) - 1 ≡ suc n = omega arith in
    rw e (ground (arith, collect-take alive heap n es, collect-take alive heap (suc n) es))

module _ (S : ConcurrentMap) (heap : Heap) (pool : PlayerPool S) where
  -- A Waiting player of the pool whose rating lies in the bounds.
  pub record Matches (least most : ℕ) (r : Ref) : Type 0 where
    pub pooled : get S (heap r).id pool ≡ some r
    pub ready : (heap r).state ≡ waiting
    pub above : least ≤ (heap r).skill_rating
    pub below : (heap r).skill_rating ≤ most

module _ (S : ConcurrentMap) (heap : Heap) (held : List Ref) (pool : PlayerPool S) where
  module _ (v : IsPool S heap pool) (least most : ℕ) (low : least ≤ max_skill_rating)
      (ordered : least ≤ most) where
    abbrev lower : Key
    lower = (min least max_skill_rating, uuid_nil)

    abbrev upper : Key
    upper = (min most max_skill_rating, uuid_max)

    abbrev bounded : Key × ℕ → Bool
    bounded e = not (key_lt e.0 lower) && not (key_lt upper e.0)

    abbrev entries : RatingIndex
    entries = keep bounded pool.index

    abbrev able : Ref → Bool
    able = usable (is_alive S heap held pool) heap

    abbrev found : List Ref
    found = keep able (map (λ e. e.1) entries)

    range-entries : range lower upper pool.index ≡ some entries
    unfolding range
    range-entries = let e : key_lt upper lower ≡ false = ground arith in rw e

    range_scan-found :
        range_scan S heap held pool least most ≡ some (sort_by_age heap (take 200 found))
    unfolding range_scan
    range_scan-found =
        rw (range-entries, range_scan, collect-take (is_alive S heap held pool) heap 199 entries)

    entry-Matches :
        (rating id : ℕ) (r : Ref)
        → In ((rating, id), r) entries
        → able r ≡ true
        → Matches S heap pool least most r
    entry-Matches rating id r m ok =
        let (entry, bounds) = keep-In bounded ((rating, id), r) pool.index m in
        let (pooled, rated) = v.listed rating id r entry in
        record {
          pooled = rw (v.keyed id r pooled) pooled;
          ready = ground arith;
          above = ground (arith, v.valid id r pooled);
          below = ground (arith, v.valid id r pooled);
        }

    found-Matches : (r : Ref) → In r found → Matches S heap pool least most r
    found-Matches r m =
        let (listed, ok) = keep-In able r (map (λ e. e.1) entries) m in
        let (((rating, id), q), entry, same) = map-In (λ e. e.1) r entries listed in
        subst (λ p. able p ≡ true → Matches S heap pool least most p) same
          (entry-Matches rating id q entry) ok

    Matches-found : (r : Ref) → Matches S heap pool least most r → In r found
    unfolding is_alive
    Matches-found r t =
        In-keep able r (map (λ e. e.1) entries)
          (In-map (λ e. e.1) (key_of S heap r, r) entries
            (In-keep bounded (key_of S heap r, r) pool.index (v.indexed (heap r).id r t.pooled)
              (ground (arith, t.above, t.below, v.valid (heap r).id r t.pooled))))
          (ground (arith, t.pooled, t.ready))

    entry-key : (e : Key × ℕ) → In e entries → e.0 ≡ key_of S heap e.1
    entry-key ((rating, id), r) m =
        let (pooled, rated) =
          v.listed rating id r (keep-In bounded ((rating, id), r) pool.index m).0 in
        ground (arith, rated, v.keyed id r pooled)

    found-Distinct : Distinct found
    found-Distinct = keep-Distinct able (map (λ e. e.1) entries) (
        IsSorted-Distinct (key_of S heap) entries entry-key
          (keep-IsSorted bounded pool.index v.sorted))

    found-IsKeyed : IsKeyed (key_of S heap) found
    found-IsKeyed =
        keep-IsKeyed (key_of S heap) able (map (λ e. e.1) entries) (
          map-IsKeyed (key_of S heap) entries entry-key (keep-IsSorted bounded pool.index v.sorted))

    -- On a pool whose structures agree, with bounds in order of which the lower is at most 3000, the greatest
    -- rating (`range_scan` lowers both to it), `range_scan` does not panic. It returns
    -- at most 200 different players, the oldest first; each is a Waiting player of the pool whose rating lies in
    -- the bounds, and if it returns fewer than 200 it returns every such player. A player of this kind
    -- that it does not return has a higher rating than all that it does, or the same and a
    -- greater identifier.
    pub range_scan_exact :
        (rs : List Ref) × (range_scan S heap held pool least most ≡ some rs)
        × IsByAge heap rs
        × Distinct rs
        × (length rs ≤ max_candidates_per_scan)
        × ((r : Ref) → In r rs → Matches S heap pool least most r)
        × (length rs < max_candidates_per_scan
            → (r : Ref) → Matches S heap pool least most r
            → In r rs)
        × ((r q : Ref)
            → In r rs
            → Matches S heap pool least most q
            → ¬ In q rs
            → Below (key_of S heap) r q)
    range_scan_exact = (
      sort_by_age heap (take 200 found),
      range_scan-found,
      sort_by_age-IsByAge heap (take 200 found),
      sort_by_age-Distinct heap (take 200 found) (take-Distinct 200 found found-Distinct),
      omega (arith, length-sort_by_age heap (take 200 found), length-take 200 found),
      λ r m. found-Matches r (In-take 200 r found (sort_by_age-In heap r (take 200 found) m)),
      λ few r t. In-sort_by_age heap r (take 200 found) (
          rw
            (take_all 200 found
              (omega (arith, few, length-sort_by_age heap (take 200 found), length-take 200 found)))
            (Matches-found r t)),
      λ r q m t out.
          take-Below (key_of S heap) 200 found r q found-IsKeyed
            (sort_by_age-In heap r (take 200 found) m) (Matches-found q t)
            (λ i. out (In-sort_by_age heap q (take 200 found) i)),
    )
