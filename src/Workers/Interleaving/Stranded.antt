-- ===== src/Workers/Interleaving/Stranded.antt =====
-- src/workers/mod.rs, `reaper_tick`: the Reaper clears the fields of a claim after its compare-exchange,
-- and may clear those of the next claim.
use matchmaker.Base.{
  sym, subst, u32, ℕ, ◌+◌, ◌<◌, ◌≡◌, refl, ap, ◌∙◌, true, false, List, [], ◌∷◌, ◌++◌, arith, ◌==◌,
  Bool-cases, inl, inr, length,
}
use matchmaker.Models.Player.{waiting, claimed}
use matchmaker.Models.Memory.{Ref, Heap, is_held, Distinct}
use matchmaker.Models.Memory.Held.{is_held-append, Distinct-init}
use matchmaker.Workers.Interleaving.{
  marking, scanning, forgets_worker, Event, scans, ticks, World, apply, run, at_rest, update,
}
use matchmaker.Workers.Interleaving.Invariant.{holds}
use matchmaker.Engine.Balancer.{match_size}
use matchmaker.Engine.Matcher.{claim_all}
use matchmaker.Engine.Matcher.Claiming.{claim_all-Claims}
use matchmaker.Workers.Interleaving.Late.{claim_all-waiting, Leads-claimed}
use matchmaker.Workers.Interleaving.Leads.{Leads, and_then, run-append, are_guarded}
use matchmaker.Workers.Interleaving.Resets.{
  IsOld, IsReset, half_reset, Leads-half_reset, forgotten, Leads-forgotten, Leads-IsReset,
}
use matchmaker.Workers.Interleaving.Undated.{IsLost, Stopped, run-IsLost}
use matchmaker.Workers.Interleaving.Others.{is_silent}

module _ (timeout : ℕ) (qs : List Ref) (r : Ref) (ten : length (qs ++ r ∷ []) ≡ match_size)
    (d : Distinct (qs ++ r ∷ [])) where
  abbrev rs : List Ref
  rs = qs ++ r ∷ []

  abbrev claimed_after : ℕ → World → World
  claimed_after i w = record w {
    heap = (claim_all i w.clock match_size w.heap rs).0;
    pc = update w.pc i (marking w.clock rs []);
  }

  -- What the worker leaves of a player that it claims.
  claimed-fields :
      (i : ℕ) (w : World)
      → ((q : Ref) → is_held q rs ≡ true → (w.heap q).state ≡ waiting)
      → (q : Ref) → is_held q rs ≡ true
      → (((claimed_after i w).heap q).state ≡ claimed)
        × (((claimed_after i w).heap q).claim_timestamp ≡ w.clock)
  claimed-fields i w ready q h =
      let wrote = (claim_all-Claims i w.clock match_size w.heap rs).writes q in
      let won =
        ap (is_held q)
          (claim_all-waiting i w.clock match_size w.heap rs (omega (arith, ten)) d ready) in
      (ground (arith, wrote, won, h), ground (arith, wrote, won, h))

  qs-Distinct : Distinct qs
  qs-Distinct = (Distinct-init r qs d).0

  r-apart : is_held r qs ≡ false
  r-apart = (Distinct-init r qs d).1

  in_rs : (q : Ref) → is_held q qs ≡ true → is_held q rs ≡ true
  in_rs q h = ground (arith, h, is_held-append q qs (r ∷ []))

  r-in : is_held r rs ≡ true
  r-in = ground (arith, is_held-append r qs (r ∷ []))

  module _ (heap : Heap) (clock : ℕ)
      (ready : (q : Ref) → is_held q rs ≡ true → (heap q).state ≡ waiting) (dated : 0 < clock) where
    abbrev late : ℕ
    late = clock + (timeout + 1)

    abbrev first_claim : World
    first_claim = claimed_after 1 (at_rest heap clock)

    first-IsOld : (q : Ref) → is_held q rs ≡ true → IsOld timeout late (first_claim.heap q)
    first-IsOld q h =
        let (taken, time) = claimed-fields 1 (at_rest heap clock) ready q h in
        record { taken = taken; dated = ground (arith, time, dated); late = ground (arith, time) }

    -- The claims are stale, and the Reaper scans the ten players.
    abbrev scanned : World
    scanned = record first_claim { clock = late; scan = scanning late rs 0 }

    Leads-scanned : Leads timeout first_claim scanned
    unfolding run apply
    Leads-scanned = (ticks (timeout + 1) ∷ scans rs ∷ [], refl, refl)

    module _ (heap₁ : Heap) (n : ℕ) (v : IsReset timeout late qs first_claim.heap heap₁) where
      last-IsOld : IsOld timeout late (heap₁ r)
      last-IsOld = subst (IsOld timeout late) (sym (v.same r r-apart)) (first-IsOld r r-in)

      abbrev half : World
      half = record scanned {
        heap = half_reset timeout late scanned r [] n heap₁ last-IsOld;
        scan = forgets_worker late r [] n;
      }

      -- All ten players are Waiting now.
      half-ready : (q : Ref) → is_held q rs ≡ true → (half.heap q).state ≡ waiting
      half-ready q h = elim (Bool-cases (q == r)) [
        | inl e ↦ rw e refl
        | inr e ↦ ground (arith, e, v.ready q, h, is_held-append q qs (r ∷ []))
      ]

      abbrev second_claim : World
      second_claim = claimed_after 2 half

      abbrev erased : World
      erased = record second_claim {
        heap = forgotten timeout late second_claim second_claim.heap r;
        scan = scanning late [] (u32 (n + 1));
      }

      erased-IsLost : IsLost timeout r erased
      erased-IsLost =
          let (taken, _) = claimed-fields 2 half half-ready r r-in in
          record { taken = ground (arith, taken); undated = ground arith }

      erased-Stopped :
          (es : List Event)
          → is_silent 1 es ≡ true
          → is_silent 2 es ≡ true
          → Stopped timeout r es erased
      erased-Stopped es q₁ q₂ j h = elim (Bool-cases (j == 1)) [
        | inl a ↦ ground (arith, a, q₁)
        | inr a ↦ elim (Bool-cases (j == 2)) [
          | inl b ↦ ground (arith, b, q₂)
          | inr b ↦ absurd (ground (arith, a, b, h))
        ]
      ]

      Leads-erased :
          Leads timeout (record scanned { heap = heap₁; scan = scanning late (r ∷ []) n }) erased
      Leads-erased =
          and_then timeout (record scanned { heap = heap₁; scan = scanning late (r ∷ []) n }) half
            erased (Leads-half_reset timeout late scanned r [] n heap₁ last-IsOld)
            (and_then timeout half second_claim erased
              (Leads-claimed timeout rs ten half 2 refl d half-ready)
              (Leads-forgotten timeout late second_claim r [] n second_claim.heap))

    abbrev Strands : Type 0
    Strands =
        (es : List Event) × (are_guarded es ≡ true)
        × (holds ((run timeout es (at_rest heap clock)).pc 2) ≡ rs)
        × ((fs : List Event)
            → is_silent 1 fs ≡ true
            → is_silent 2 fs ≡ true
            → IsLost timeout r (run timeout (es ++ fs) (at_rest heap clock)))

    from_reset :
        (heap₁ : Heap) (n : ℕ)
        → IsReset timeout late qs first_claim.heap heap₁
        → Leads timeout scanned (record scanned { heap = heap₁; scan = scanning late (r ∷ []) n })
        → Strands
    from_reset heap₁ n v on =
        let last : World = erased heap₁ n v in
        let (es, guarded, e) =
          and_then timeout (at_rest heap clock) first_claim last
            (Leads-claimed timeout rs ten (at_rest heap clock) 1 refl d ready)
            (and_then timeout first_claim scanned last Leads-scanned (
              and_then timeout scanned
                (record scanned { heap = heap₁; scan = scanning late (r ∷ []) n }) last on
                (Leads-erased heap₁ n v))) in
        (
          es,
          guarded,
          ap (λ w. holds (w.pc 2)) e,
          λ fs q₁ q₂.
              subst (IsLost timeout r)
                (sym (run-append timeout es fs (at_rest heap clock) ∙ ap (run timeout fs) e))
                (run-IsLost timeout r fs last (erased-Stopped heap₁ n v fs q₁ q₂) tt
                  (erased-IsLost heap₁ n v)),
        )

  -- Whatever the timeout and whichever ten different Waiting players, from a clock after the epoch there is
  -- an interleaving, in which every worker that claims has ten candidates, at whose end worker 2 has claimed all
  -- ten, since the claims of worker 1 were stale, and the Reaper has cleared the time of the new claim
  -- of the one that it scans last. If both workers stop then, this player stays Claimed and without a time
  -- whatever other workers, requests and scans of the Reaper come after.
  pub strands :
      (heap : Heap) (clock : ℕ)
      → ((q : Ref) → is_held q (qs ++ r ∷ []) ≡ true → (heap q).state ≡ waiting)
      → 0 < clock
      → (es : List Event) × (are_guarded es ≡ true)
        × (holds ((run timeout es (at_rest heap clock)).pc 2) ≡ qs ++ r ∷ [])
        × ((fs : List Event)
            → is_silent 1 fs ≡ true
            → is_silent 2 fs ≡ true
            → IsLost timeout r (run timeout (es ++ fs) (at_rest heap clock)))
  strands heap clock ready dated =
      let w = scanned heap clock ready dated in
      let (heap₁, n, v, on) =
        Leads-IsReset timeout (late heap clock ready dated) w qs (r ∷ []) 0 w.heap qs-Distinct
          (λ q h. first-IsOld heap clock ready dated q (in_rs q h)) in
      from_reset heap clock ready dated heap₁ n v on
