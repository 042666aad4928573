-- ===== src/Workers/Interleaving/Resets.antt =====
-- src/workers/mod.rs, `reaper_tick`: the part of a scan that resets some players with stale claims.
use matchmaker.Base.{
  subst, sym, ℕ, ◌+◌, ◌≡◌, refl, true, false, List, [], ◌∷◌, ◌++◌, arith, ◌==◌, ltb, saturating_sub,
  u32, ◌∙◌, Bool-cases, inl, inr,
}
use matchmaker.Models.Player.{Player, waiting, claimed}
use matchmaker.Models.Memory.{Ref, Heap, write, is_held, Distinct}
use matchmaker.Workers.Interleaving.{
  Scan, scanning, resets, forgets_worker, reaps, World, apply, run, reap_next,
}
use matchmaker.Workers.Interleaving.Leads.{Leads, and_then}

module _ (timeout now : ℕ) where
  -- A claim that a scan from `now` finds stale.
  pub record IsOld (p : Player) : Type 0 where
    pub taken : p.state ≡ claimed
    pub dated : (p.claim_timestamp == 0) ≡ false
    pub late : ltb timeout (saturating_sub now p.claim_timestamp) ≡ true

  -- The players in the list are Waiting, the others as before.
  pub record IsReset (qs : List Ref) (heap heap' : Heap) : Type 0 where
    pub ready : (q : Ref) → is_held q qs ≡ true → (heap' q).state ≡ waiting
    pub same : (q : Ref) → is_held q qs ≡ false → heap' q ≡ heap q

  module _ (w : World) where
    abbrev pub scanned_at : Heap → Scan → World
    scanned_at heap scan = record w { heap = heap; scan = scan }

    module _ (q : Ref) (rs : List Ref) (n : ℕ) (heap : Heap) (v : IsOld (heap q)) where
      abbrev pub half_reset : Heap
      half_reset = write heap q (record (heap q) { state = waiting })

      Leads-found :
          Leads timeout
            (scanned_at heap (scanning now (q ∷ rs) n))
            (scanned_at heap (resets now q rs n))
      unfolding run apply reap_next
      Leads-found = (reaps ∷ reaps ∷ [], refl, rw (v.taken, v.dated, v.late) refl)

      Leads-freed :
          Leads timeout
            (scanned_at heap (resets now q rs n))
            (scanned_at half_reset (forgets_worker now q rs n))
      unfolding run apply reap_next
      Leads-freed = (reaps ∷ [], refl, rw v.taken refl)

      -- The player is Waiting again, and the fields of its claim are still there.
      pub Leads-half_reset :
          Leads timeout
            (scanned_at heap (scanning now (q ∷ rs) n))
            (scanned_at half_reset (forgets_worker now q rs n))
      Leads-half_reset =
          and_then timeout (scanned_at heap (scanning now (q ∷ rs) n))
            (scanned_at heap (resets now q rs n))
            (scanned_at half_reset (forgets_worker now q rs n)) Leads-found Leads-freed

    abbrev pub forgotten : Heap → Ref → Heap
    forgotten heap q =
        let heap₁ = write heap q (record (heap q) { claimed_by = 0 }) in
        write heap₁ q (record (heap₁ q) { claim_timestamp = 0 })

    pub Leads-forgotten :
        (q : Ref) (rs : List Ref) (n : ℕ) (heap : Heap)
        → Leads timeout
            (scanned_at heap (forgets_worker now q rs n))
            (scanned_at (forgotten heap q) (scanning now rs (u32 (n + 1))))
    unfolding run apply reap_next
    Leads-forgotten q rs n heap = (reaps ∷ reaps ∷ [], refl, refl)

    pub Leads-IsReset :
        (qs rs : List Ref) (n : ℕ) (heap : Heap)
        → Distinct qs
        → ((q : Ref) → is_held q qs ≡ true → IsOld (heap q))
        → (heap' : Heap) × (m : ℕ) × IsReset qs heap heap'
          × Leads timeout
              (scanned_at heap (scanning now (qs ++ rs) n))
              (scanned_at heap' (scanning now rs m))
    unfolding run
    Leads-IsReset [] rs n heap d old = (
      heap,
      n,
      record { ready = λ q h. absurd (ground (arith, h)); same = λ q h. refl },
      ([], refl, refl),
    )
    Leads-IsReset (q ∷ qs) rs n heap d old =
        let half : Heap = half_reset q (qs ++ rs) n heap (old q (ground arith)) in
        let here : Heap = forgotten half q in
        let elsewhere : (r : Ref) → (r == q) ≡ false → here r ≡ heap r = λ r ne. rw ne refl in
        let (heap', m, v, on) = Leads-IsReset qs rs (u32 (n + 1)) here d.1 (λ r h.
          subst IsOld (sym (elsewhere r (ground (arith, h, d.0)))) (old r (ground (arith, h)))) in
        (
          heap',
          m,
          record {
            ready = λ r h. elim (Bool-cases (is_held r qs)) [
              | inl m ↦ v.ready r m
              | inr m ↦ ground (arith, v.same r m, h, m)
            ];
            same = λ r h. v.same r (ground (arith, h)) ∙ elsewhere r (ground (arith, h));
          },
          and_then timeout (scanned_at heap (scanning now (q ∷ (qs ++ rs)) n))
              (scanned_at half (forgets_worker now q (qs ++ rs) n))
              (scanned_at heap' (scanning now rs m))
              (Leads-half_reset q (qs ++ rs) n heap (old q (ground arith)))
              (and_then timeout (scanned_at half (forgets_worker now q (qs ++ rs) n))
                (scanned_at here (scanning now (qs ++ rs) (u32 (n + 1))))
                (scanned_at heap' (scanning now rs m)) (Leads-forgotten q (qs ++ rs) n half) on),
        )
