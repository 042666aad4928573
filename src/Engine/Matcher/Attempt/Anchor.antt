-- ===== src/Engine/Matcher/Attempt/Anchor.antt =====
-- src/engine/matcher.rs: the seed takes part in the match that it anchors.
use matchmaker.Base.{
  ◌∷◌, [], ap, refl, false, Bool-cases, ltb, ltb→lt, In-All, ◌∙◌, ◌<◌, ◌≡◌, ◌⊎◌, inl, inr, true,
  some, List, arith, length, In, some-eq, sym, subst,
}
use matchmaker.Models.Player.{matched}
use matchmaker.Models.Memory.{Ref, is_held}
use matchmaker.Models.Match.{Match}
use matchmaker.Engine.Bucket.Store.{ConcurrentMap}
use matchmaker.Engine.Bucket.{max_candidates_per_scan, range_scan, older}
use matchmaker.Engine.Bucket.Invariant.{IsPool}
use matchmaker.Engine.Bucket.Order.{IsByAge, older_total}
use matchmaker.Engine.Matcher.{
  WorkerContext, WorkerState, Readings, Shared, success, select_seed, attempt_match, claim_phase,
}
use matchmaker.Engine.Matcher.Claiming.{claims, claims_first}
use matchmaker.Engine.Matcher.Forming.Success.{claim_phase_success}
use matchmaker.Engine.Matcher.Attempt.{Primary, Found, bounds_of, cycle, attempt_match-cases}
use matchmaker.Engine.Matcher.Attempt.Outcomes.{Near-Sought, found-valid}

module _ (S : ConcurrentMap) (ctx : WorkerContext) (t : Readings) (s : Shared S) (w : WorkerState)
    (v : IsPool S s.heap s.pool) where
  elder_of :
      (r h : Ref) (hs : List Ref)
      → In r (h ∷ hs)
      → IsByAge s.heap (h ∷ hs)
      → older (s.heap r) (s.heap h) ≡ false
  elder_of r h hs (inl e) k = ground (arith, e)
  elder_of r h hs (inr m) k = In-All _ hs r k.0 m

  -- The eldest of the candidates that the scan returns, in the order by age, comes first.
  seed_first :
      (seed : Ref) (rs : List Ref)
      → Primary S ctx t s w v seed
      → Found S ctx t s w v seed rs
      → In seed rs
      → (cs : List Ref) × (rs ≡ seed ∷ cs)
  seed_first seed [] first found m = absurd m
  seed_first seed (h ∷ hs) (c, eldest) found m =
      let k = found.matching h (inl refl) in
      let elder = elder_of seed h hs m found.by_age in
      let same = older_total (s.heap seed) (s.heap h) elder (eldest h (k.pooled, k.ready)) in
      (hs, ap (λ r. r ∷ hs) (ground (arith, same, k.pooled, c.0)))

  seed_claimed :
      (seed : Ref) (rs : List Ref)
      → Primary S ctx t s w v seed
      → Found S ctx t s w v seed rs
      → length rs < max_candidates_per_scan
      → is_held seed (claims S ctx t (cycle S ctx t s w v) rs).1 ≡ true
  seed_claimed seed rs first found few =
      let m =
        found.all_of_few few seed
          (Near-Sought S ctx t s w v seed seed first.0 (first.0, ground arith)) in
      let (cs, e) = seed_first seed rs first found m in
      subst (λ xs. is_held seed (claims S ctx t (cycle S ctx t s w v) xs).1 ≡ true) (sym e)
        (claims_first S ctx t (cycle S ctx t s w v) seed cs first.0.1)

  -- On a pool whose structures agree, a worker that selects the oldest Waiting player as its seed
  -- and forms a match puts this player into it, unless the scan has found the 200 candidates at
  -- which it stops.
  pub attempt_match_anchor :
      {s' : Shared S} {w' : WorkerState} {m : Match} {seed : Ref}
      → attempt_match S ctx t s w ≡ some (s', w', success m)
      → select_seed S ctx t s w ≡ some seed
      → Primary S ctx t s w v seed
      → ((s'.heap seed).state ≡ matched)
        ⊎ ((rs : List Ref) × (length rs ≡ max_candidates_per_scan)
            × (range_scan S s.heap
                  (seed ∷ s.held)
                  s.pool
                  (bounds_of S ctx t s w v seed).0
                  (bounds_of S ctx t s w v seed).1
                ≡ some rs))
  attempt_match_anchor {s'} {w'} {m} {seed} h picked first =
      elim (attempt_match-cases S ctx t s w v) [
        | inl (_, e) ↦ absurd (ground (arith, e, h))
        | inr (seed', picked', rs, found, inl (few, e)) ↦ absurd (ground (arith, e, h))
        | inr (seed', picked', rs, found, inr (_, e)) ↦
            anchored rs
              (subst (λ p. Found S ctx t s w v p rs) (some-eq (sym picked' ∙ picked)) found)
              (subst
                (λ p. claim_phase S ctx t (cycle S ctx t s w v) w p rs ≡ some (s', w', success m))
                (some-eq (sym picked' ∙ picked)) (sym e ∙ h))
      ]
    where
      anchored :
          (rs : List Ref)
          → Found S ctx t s w v seed rs
          → claim_phase S ctx t (cycle S ctx t s w v) w seed rs ≡ some (s', w', success m)
          → ((s'.heap seed).state ≡ matched)
            ⊎ ((rs : List Ref) × (length rs ≡ max_candidates_per_scan)
                × (range_scan S s.heap
                      (seed ∷ s.held)
                      s.pool
                      (bounds_of S ctx t s w v seed).0
                      (bounds_of S ctx t s w v seed).1
                    ≡ some rs))
      anchored rs found e = elim (Bool-cases (ltb (length rs) max_candidates_per_scan)) [
        | inl few ↦
            let (_, f) =
              claim_phase_success S ctx t (cycle S ctx t s w v) w seed rs
                (found-valid S ctx t s w v seed rs found) e in
            inl (f.are_matched seed (seed_claimed seed rs first found (ltb→lt _ _ few))).state
        | inr full ↦ inr (rs, ground (arith, full, found.at_most), found.scanned)
      ]
