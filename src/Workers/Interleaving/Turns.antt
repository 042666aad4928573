-- ===== src/Workers/Interleaving/Turns.antt =====
-- src/workers/mod.rs, `reaper_tick`: what a scan has still to do for a player whose claim is stale, and how
-- many turns of the Reaper it takes.
use matchmaker.Base.{
  ℕ, ◌-◌, ◌+◌, ◌*◌, ◌≤◌, length, ◌≡◌, ◌≢◌, ◌⊎◌, ◌<◌, inl, inr, refl, true, false, ◌||◌, List, [],
  ◌∷◌, arith, ◌==◌, Bool-cases, ltb, saturating_sub,
}
use matchmaker.Models.Player.{waiting, claimed}
use matchmaker.Models.Memory.{Ref, Heap, is_held}
use matchmaker.Workers.Interleaving.{
  Scan, resting, scanning, loads_time, resets, forgets_worker, forgets_time, Event, begins, works,
  scans, reaps, evicts, ticks, World, apply, reap_next, begin_scan,
}

abbrev pub turns : Event → ℕ
turns reaps = 1
turns _ = 0

-- How often the Reaper goes on.
abbrev pub reaper_turns : List Event → ℕ
reaper_turns [] = 0
reaper_turns (e ∷ es) = turns e + reaper_turns es

-- How often it has to go on to the end of its scan, at most.
abbrev pub cost : Scan → ℕ
cost resting = 0
cost (scanning now rs n) = 5 * length rs + 1
cost (loads_time now r rs n) = 5 * length rs + 5
cost (resets now r rs n) = 5 * length rs + 4
cost (forgets_worker now r rs n) = 5 * length rs + 3
cost (forgets_time now r rs n) = 5 * length rs + 2

module _ (timeout : ℕ) (r : Ref) where
  -- The scan that began at `now` has still to come to the player, or is at it.
  abbrev pub Awaits : ℕ → Scan → Type 0
  Awaits now resting = ⊥
  Awaits now (scanning since rs n) = (since ≡ now) × (is_held r rs ≡ true)
  Awaits now (loads_time since q rs n) = (since ≡ now) × ((q == r || is_held r rs) ≡ true)
  Awaits now (resets since q rs n) = (since ≡ now) × ((q == r || is_held r rs) ≡ true)
  Awaits now (forgets_worker since q rs n) =
      (since ≡ now) × ((q == r) ≡ false) × (is_held r rs ≡ true)
  Awaits now (forgets_time since q rs n) =
      (since ≡ now) × ((q == r) ≡ false) × (is_held r rs ≡ true)

  pub reap_next-Awaits :
      (now : ℕ) (heap : Heap) (scan : Scan)
      → (heap r).state ≡ claimed
      → (heap r).claim_timestamp ≢ 0
      → timeout < now - (heap r).claim_timestamp
      → Awaits now scan
      → (((reap_next timeout heap scan).0 r).state ≡ waiting)
        ⊎ (((reap_next timeout heap scan).0 r ≡ heap r)
            × Awaits now (reap_next timeout heap scan).1)
  unfolding reap_next
  reap_next-Awaits now heap resting e d o a = elim a [ ]
  reap_next-Awaits now heap (scanning since [] n) e d o a = absurd (ground (arith, a))
  reap_next-Awaits now heap (scanning since (q ∷ rs) n) e d o a =
      elim (Bool-cases ((heap q).state == claimed)) [
        | inl b ↦ inr (rw b (refl, a))
        | inr b ↦ inr (rw b (refl, (a.0, ground (arith, a.1))))
      ]
  reap_next-Awaits now heap (loads_time since q rs n) e d o a = elim (Bool-cases (q == r)) [
    | inl b ↦
        let undated : ((heap q).claim_timestamp == 0) ≡ false = ground (arith, d) in
        let stale : ltb timeout (saturating_sub since (heap q).claim_timestamp) ≡ true =
          ground (arith, a.0, o) in
        inr (rw (undated, stale) (refl, a))
    | inr b ↦
        let later : is_held r rs ≡ true = ground (arith, a.1, b) in
        elim (Bool-cases ((heap q).claim_timestamp == 0)) [
          | inl c ↦ inr (rw c (refl, (a.0, later)))
          | inr c ↦
              elim (Bool-cases (ltb timeout (saturating_sub since (heap q).claim_timestamp))) [
                | inl k ↦ inr (rw (c, k) (refl, a))
                | inr k ↦ inr (rw (c, k) (refl, (a.0, later)))
              ]
        ]
  ]
  reap_next-Awaits now heap (resets since q rs n) e d o a = elim (Bool-cases (q == r)) [
    | inl b ↦ inl (ground arith)
    | inr b ↦ elim (Bool-cases ((heap q).state == claimed)) [
      | inl c ↦ inr (rw c (ground arith, (a.0, b, ground (arith, a.1, b))))
      | inr c ↦ inr (rw c (ground arith, (a.0, ground (arith, a.1, b))))
    ]
  ]
  reap_next-Awaits now heap (forgets_worker since q rs n) e d o a = inr (ground (arith, a), a)
  reap_next-Awaits now heap (forgets_time since q rs n) e d o a =
      inr (ground (arith, a), (a.0, a.2))

  pub begin_scan-Awaits :
      (now clock : ℕ) (rs : List Ref) (scan : Scan)
      → Awaits now scan
      → Awaits now (begin_scan clock rs scan)
  begin_scan-Awaits now clock rs resting a = elim a [ ]
  begin_scan-Awaits now clock rs scan a = a

  reap_next-cost :
      (now : ℕ) (heap : Heap) (scan : Scan)
      → Awaits now scan
      → cost (reap_next timeout heap scan).1 + 1 ≤ cost scan
  unfolding reap_next
  reap_next-cost now heap resting a = elim a [ ]
  reap_next-cost now heap (scanning since [] n) a = omega arith
  reap_next-cost now heap (scanning since (q ∷ rs) n) a = ground arith
  reap_next-cost now heap (loads_time since q rs n) a = ground arith
  reap_next-cost now heap (resets since q rs n) a = ground arith
  reap_next-cost now heap (forgets_worker since q rs n) a = omega arith
  reap_next-cost now heap (forgets_time since q rs n) a = omega arith

  begin_scan-cost :
      (now clock : ℕ) (rs : List Ref) (scan : Scan)
      → Awaits now scan
      → cost (begin_scan clock rs scan) ≤ cost scan
  begin_scan-cost now clock rs resting a = elim a [ ]
  begin_scan-cost now clock rs scan a = omega arith

  pub step-cost :
      (now : ℕ) (e : Event) (w : World)
      → Awaits now w.scan
      → cost (apply timeout e w).scan + turns e ≤ cost w.scan
  unfolding apply
  step-cost now (begins k rs) w a = omega arith
  step-cost now (works k at) w a = omega arith
  step-cost now (scans rs) w a = omega (arith, begin_scan-cost now w.clock rs w.scan a)
  step-cost now reaps w a = reap_next-cost now w.heap w.scan a
  step-cost now (evicts q) w a = omega arith
  step-cost now (ticks ms) w a = omega arith

  pub cost-Awaits : (now : ℕ) (scan : Scan) → Awaits now scan → 0 < cost scan
  cost-Awaits now resting a = elim a [ ]
  cost-Awaits now (scanning since rs n) a = omega arith
  cost-Awaits now (loads_time since q rs n) a = omega arith
  cost-Awaits now (resets since q rs n) a = omega arith
  cost-Awaits now (forgets_worker since q rs n) a = omega arith
  cost-Awaits now (forgets_time since q rs n) a = omega arith
