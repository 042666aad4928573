-- ===== src/Workers/Interleaving/Undated.antt =====
-- src/workers/mod.rs, `reaper_tick`: every scan passes over a claim without a time.
use matchmaker.Base.{
  ltb, saturating_sub, ℕ, ◌≡◌, true, false, List, [], ◌∷◌, arith, ◌==◌, Bool-cases, inl, inr,
}
use matchmaker.Models.Player.{claimed}
use matchmaker.Models.Memory.{Ref, Heap, is_held}
use matchmaker.Workers.Interleaving.{
  Scan, resting, scanning, loads_time, resets, forgets_worker, forgets_time, Event, begins, works,
  scans, reaps, evicts, ticks, World, apply, run, reap_next, begin_scan,
}
use matchmaker.Workers.Interleaving.Invariant.{holds}
use matchmaker.Workers.Interleaving.Others.{is_silent, act-other, holds-begin}

module _ (timeout : ℕ) (r : Ref) where
  -- The Reaper is not about to reset the player.
  abbrev pub IsSafe : Scan → Type 0
  IsSafe (resets now q rs n) = (q == r) ≡ false
  IsSafe _ = Unit {0}

  -- Claimed, without the time of the claim.
  pub record IsLost (w : World) : Type 0 where
    pub taken : (w.heap r).state ≡ claimed
    pub undated : (w.heap r).claim_timestamp ≡ 0

  -- No worker that has the player goes on.
  abbrev pub Stopped : List Event → World → Type 0
  Stopped es w = (j : ℕ) → is_held r (holds (w.pc j)) ≡ true → is_silent j es ≡ true

  reap_next-lost :
      (heap : Heap) (scan : Scan)
      → (heap r).state ≡ claimed
      → (heap r).claim_timestamp ≡ 0
      → IsSafe scan
      → ((((reap_next timeout heap scan).0 r).state ≡ claimed)
          × (((reap_next timeout heap scan).0 r).claim_timestamp ≡ 0))
        × IsSafe (reap_next timeout heap scan).1
  unfolding reap_next
  reap_next-lost heap resting e d s = ((e, d), s)
  reap_next-lost heap (scanning now [] n) e d s = ((e, d), tt)
  reap_next-lost heap (scanning now (q ∷ rs) n) e d s =
      elim (Bool-cases ((heap q).state == claimed)) [
        | inl b ↦ rw b ((e, d), tt)
        | inr b ↦ rw b ((e, d), tt)
      ]
  reap_next-lost heap (loads_time now q rs n) e d s =
      elim (Bool-cases ((heap q).claim_timestamp == 0)) [
        | inl b ↦ rw b ((e, d), tt)
        | inr b ↦ elim (Bool-cases (ltb timeout (saturating_sub now (heap q).claim_timestamp))) [
          | inl k ↦ let ne : (q == r) ≡ false = ground (arith, b, d) in rw (b, k) ((e, d), ne)
          | inr k ↦ rw (b, k) ((e, d), tt)
        ]
      ]
  reap_next-lost heap (resets now q rs n) e d s = elim (Bool-cases ((heap q).state == claimed)) [
    | inl c ↦ rw c (ground (arith, e, d, s), tt)
    | inr c ↦ rw c (ground (arith, e, d, s), tt)
  ]
  reap_next-lost heap (forgets_worker now q rs n) e d s = (ground (arith, e, d), tt)
  reap_next-lost heap (forgets_time now q rs n) e d s = (ground (arith, e, d), tt)

  begin_scan-IsSafe :
      (clock : ℕ) (rs : List Ref) (scan : Scan) → IsSafe scan → IsSafe (begin_scan clock rs scan)
  begin_scan-IsSafe clock rs resting s = tt
  begin_scan-IsSafe clock rs scan s = s

  step-IsLost :
      (e : Event) (es : List Event) (w : World)
      → Stopped (e ∷ es) w
      → IsSafe w.scan
      → IsLost w
      → IsLost (apply timeout e w)
        × IsSafe (apply timeout e w).scan
        × Stopped es (apply timeout e w)
  unfolding apply
  step-IsLost (begins k rs) es w q s v = (
    record { taken = v.taken; undated = v.undated },
    s,
    λ j h. ground (arith, holds-begin r w.clock rs (w.pc k), q j, h),
  )
  step-IsLost (works k at) es w q s v =
      let free : is_held r (holds (w.pc k)) ≡ false =
        ground (arith, q k, Bool-cases (is_held r (holds (w.pc k)))) in
      let (same, still) = act-other r k at w.heap (w.pc k) v.taken free in
      (
        record { taken = ground (arith, same, v.taken); undated = ground (arith, same, v.undated) },
        s,
        λ j h. ground (arith, still, q j, h),
      )
  step-IsLost (scans rs) es w q s v = (
    record { taken = v.taken; undated = v.undated },
    begin_scan-IsSafe w.clock rs w.scan s,
    λ j h. ground (arith, q j h),
  )
  step-IsLost reaps es w q s v =
      let ((e, d), safe) = reap_next-lost w.heap w.scan v.taken v.undated s in
      (record { taken = e; undated = d }, safe, λ j h. ground (arith, q j h))
  step-IsLost (evicts k) es w q s v = (
    record { taken = ground (arith, v.taken); undated = ground (arith, v.taken, v.undated) },
    s,
    λ j h. ground (arith, q j h),
  )
  step-IsLost (ticks ms) es w q s v =
      (record { taken = v.taken; undated = v.undated }, s, λ j h. ground (arith, q j h))

  pub run-IsLost :
      (es : List Event) (w : World)
      → Stopped es w
      → IsSafe w.scan
      → IsLost w
      → IsLost (run timeout es w)
  unfolding run
  run-IsLost [] w q s v = v
  run-IsLost (e ∷ es) w q s v =
      let (v', safe, q') = step-IsLost e es w q s v in run-IsLost es (apply timeout e w) q' safe v'
