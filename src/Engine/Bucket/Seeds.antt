-- ===== src/Engine/Bucket/Seeds.antt =====
-- src/engine/bucket.rs: what `oldest_waiting` and `oldest_waiting_excluding_range` choose.
use matchmaker.Base.{
  inr, inl, Bool-cases, ℕ, ◌<◌, ◌≡◌, ◌⊎◌, Bool, true, false, none, some, arith, In, In-keep,
  keep-In, In-map, map-In, In-All, keep, subst,
}
use matchmaker.Models.Player.{waiting}
use matchmaker.Models.Memory.{Ref, Heap}
use matchmaker.Engine.Bucket.Store.{ConcurrentMap}
use matchmaker.Engine.Bucket.{
  PlayerPool, older, oldest_of, oldest_waiting, oldest_waiting_excluding_range, get, refs_of,
}
use matchmaker.Engine.Bucket.Invariant.{IsPool}
use matchmaker.Engine.Bucket.Order.{oldest_of-some, oldest_of-none}

module _ (S : ConcurrentMap) (heap : Heap) (pool : PlayerPool S) where
  -- A Waiting player of the pool.
  abbrev pub Candidate : Ref → Type 0
  Candidate r = (get S (heap r).id pool ≡ some r) × ((heap r).state ≡ waiting)

  -- A Waiting player of the pool whose rating is not in the range.
  abbrev pub Outside : ℕ → ℕ → Ref → Type 0
  Outside least most r =
      Candidate r × (((heap r).skill_rating < least) ⊎ (most < (heap r).skill_rating))

module _ (S : ConcurrentMap) (heap : Heap) (pool : PlayerPool S) (v : IsPool S heap pool) where
  pub refs-pooled : (r : Ref) → In r (refs_of S pool) → get S (heap r).id pool ≡ some r
  refs-pooled r m =
      let ((id, q), entry, same) = map-In (λ e. e.1) r (S.iter pool.primary) m in
      let held : get S id pool ≡ some r =
        (S.iter-get id r pool.primary).1
          (subst (λ p. In (id, p) (S.iter pool.primary)) same entry) in
      rw (v.keyed id r held) held

  pub pooled-refs : (r : Ref) → get S (heap r).id pool ≡ some r → In r (refs_of S pool)
  pooled-refs r e =
      In-map (λ e. e.1) ((heap r).id, r) (S.iter pool.primary)
        ((S.iter-get (heap r).id r pool.primary).0 e)

  module _ (p : Ref → Bool) where
    chosen_some :
        (r : Ref)
        → oldest_of heap (keep p (refs_of S pool)) ≡ some r
        → (get S (heap r).id pool ≡ some r)
          × (p r ≡ true)
          × ((q : Ref)
              → get S (heap q).id pool ≡ some q
              → p q ≡ true
              → older (heap q) (heap r) ≡ false)
    chosen_some r e =
        let (m, least) = oldest_of-some heap (keep p (refs_of S pool)) r e in
        let (listed, ok) = keep-In p r (refs_of S pool) m in
        (
          refs-pooled r listed,
          ok,
          λ q pooled good.
              In-All _ (keep p (refs_of S pool)) q least
                (In-keep p q (refs_of S pool) (pooled-refs q pooled) good),
        )

    chosen_none :
        oldest_of heap (keep p (refs_of S pool)) ≡ none
        → (q : Ref) → get S (heap q).id pool ≡ some q
        → p q ≡ false
    chosen_none e q pooled = elim (Bool-cases (p q)) [
      | inl good ↦ absurd (
          subst (In q) (oldest_of-none heap (keep p (refs_of S pool)) e)
            (In-keep p q (refs_of S pool) (pooled-refs q pooled) good))
      | inr bad ↦ bad
    ]

  -- The seed is a Waiting player of the pool and no Waiting player of the pool is older.
  pub oldest_waiting-some :
      (r : Ref)
      → oldest_waiting S heap pool ≡ some r
      → Candidate S heap pool r
        × ((q : Ref) → Candidate S heap pool q → older (heap q) (heap r) ≡ false)
  unfolding oldest_waiting
  oldest_waiting-some r e =
      let (pooled, ok, least) = chosen_some _ r e in
      ((pooled, ground arith), λ q c. least q c.0 (ground (arith, c.1)))

  -- There is no seed only if no player of the pool is Waiting.
  pub oldest_waiting-none :
      oldest_waiting S heap pool ≡ none → (q : Ref) → Candidate S heap pool q → ⊥
  unfolding oldest_waiting
  oldest_waiting-none e q c = ground (arith, chosen_none _ e q c.0, c.1)

  -- On a pool whose structures agree and with a range excluded, the seed is a Waiting player of
  -- the pool whose rating is not in the range, and no such player is older.
  pub oldest_waiting_excluding_range-some :
      (least most : ℕ) (r : Ref)
      → oldest_waiting_excluding_range S heap pool least most ≡ some r
      → Outside S heap pool least most r
        × ((q : Ref) → Outside S heap pool least most q → older (heap q) (heap r) ≡ false)
  unfolding oldest_waiting_excluding_range
  oldest_waiting_excluding_range-some least most r e =
      let (pooled, ok, eldest) = chosen_some _ r e in
      (((pooled, ground arith), ground arith), λ q c. eldest q c.0.0 (ground (arith, c)))

  -- With a range excluded there is no seed only if each Waiting player of the pool is in the range.
  pub oldest_waiting_excluding_range-none :
      (least most : ℕ)
      → oldest_waiting_excluding_range S heap pool least most ≡ none
      → (q : Ref) → Outside S heap pool least most q
      → ⊥
  unfolding oldest_waiting_excluding_range
  oldest_waiting_excluding_range-none least most e q c = ground (arith, chosen_none _ e q c.0.0, c)
