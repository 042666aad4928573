-- ===== src/Workers/Interleaving/Recovery.antt =====
-- src/workers/mod.rs, `reaper_tick`: the Reaper takes back the claim of a worker that has stopped, while
-- the others go on.
use matchmaker.Base.{
  ℕ, ◌-◌, ◌+◌, ◌*◌, ◌≤◌, length, ◌≡◌, ◌≢◌, ◌⊎◌, ◌<◌, inl, inr, refl, ap, true, false, List, [], ◌∷◌,
  ◌++◌, arith, ◌==◌,
}
use matchmaker.Models.Player.{waiting, claimed}
use matchmaker.Models.Memory.{Ref, is_held}
use matchmaker.Workers.Interleaving.{
  resting, scanning, Event, begins, works, scans, reaps, evicts, ticks, World, apply, run,
  begin_scan,
}
use matchmaker.Workers.Interleaving.Invariant.{holds}
use matchmaker.Workers.Interleaving.Others.{is_by, is_silent, act-other, holds-begin}
use matchmaker.Workers.Interleaving.Turns.{
  reaper_turns, cost, Awaits, reap_next-Awaits, begin_scan-Awaits, step-cost, cost-Awaits,
}

module _ (timeout i : ℕ) (r : Ref) where
  -- The player is claimed, the scan under way finds the claim stale, and only worker `i` may have it.
  record IsStuck (now : ℕ) (w : World) : Type 0 where
    taken : (w.heap r).state ≡ claimed
    dated : (w.heap r).claim_timestamp ≢ 0
    old : timeout < now - (w.heap r).claim_timestamp
    alone : (j : ℕ) → (j == i) ≡ false → is_held r (holds (w.pc j)) ≡ false
    awaited : Awaits timeout r now w.scan

  -- What does not touch the player.
  still-IsStuck :
      (now : ℕ) (w w' : World)
      → IsStuck now w
      → w'.heap r ≡ w.heap r
      → ((j : ℕ) → (j == i) ≡ false → is_held r (holds (w'.pc j)) ≡ false)
      → Awaits timeout r now w'.scan
      → IsStuck now w'
  still-IsStuck now w w' v same alone awaited = record {
    taken = rw same v.taken;
    dated = rw same v.dated;
    old = rw same v.old;
    alone = alone;
    awaited = awaited;
  }

  step-IsStuck :
      (now : ℕ) (e : Event) (w : World)
      → is_by i e ≡ false
      → IsStuck now w
      → (((apply timeout e w).heap r).state ≡ waiting) ⊎ IsStuck now (apply timeout e w)
  unfolding apply
  step-IsStuck now (begins k rs) w h v = inr (
      still-IsStuck now w _ v refl
        (λ j ne. ground (arith, holds-begin r w.clock rs (w.pc k), v.alone j ne)) v.awaited)
  step-IsStuck now (works k at) w h v =
      let (same, free) = act-other r k at w.heap (w.pc k) v.taken (v.alone k (ground arith)) in
      inr (still-IsStuck now w _ v same (λ j ne. ground (arith, free, v.alone j ne)) v.awaited)
  step-IsStuck now (scans rs) w h v = inr (
      still-IsStuck now w _ v refl v.alone
        (begin_scan-Awaits timeout r now w.clock rs w.scan v.awaited))
  step-IsStuck now reaps w h v =
      elim (reap_next-Awaits timeout r now w.heap w.scan v.taken v.dated v.old v.awaited) [
        | inl done ↦ inl done
        | inr (same, a) ↦ inr (still-IsStuck now w _ v same v.alone a)
      ]
  step-IsStuck now (evicts q) w h v =
      inr (still-IsStuck now w _ v (ground (arith, v.taken)) v.alone v.awaited)
  step-IsStuck now (ticks ms) w h v = inr (still-IsStuck now w _ v refl v.alone v.awaited)

  -- At some point of the events the player is Waiting.
  abbrev Recovers : List Event → World → Type 0
  Recovers es w =
      (before after : List Event) × (es ≡ before ++ after)
      × (((run timeout before w).heap r).state ≡ waiting)

  run-Recovers :
      (now : ℕ) (es : List Event) (w : World)
      → is_silent i es ≡ true
      → IsStuck now w
      → cost w.scan ≤ reaper_turns es
      → Recovers es w
  unfolding run
  run-Recovers now [] w h v enough =
      absurd (omega (arith, cost-Awaits timeout r now w.scan v.awaited))
  run-Recovers now (e ∷ es) w h v enough = elim (step-IsStuck now e w (ground arith) v) [
    | inl free ↦ (e ∷ [], es, refl, free)
    | inr v' ↦
        let (before, after, same, free) =
          run-Recovers now es (apply timeout e w) (ground arith) v'
            (omega (arith, step-cost timeout r now e w v.awaited)) in
        (e ∷ before, after, ap (λ xs. e ∷ xs) same, free)
  ]

  -- Let a player be claimed, with the time of the claim in its record, and let no worker but `i` have
  -- it. If the Reaper, which is at rest, begins a scan of some players, that one among them, later than
  -- the timeout after the claim, and then goes on five times for each of them and once more, while
  -- worker `i` does nothing, then the player is Waiting at some moment, whatever other workers and requests
  -- do in between.
  pub run-recovers :
      (w : World) (rs : List Ref) (es : List Event)
      → w.scan ≡ resting
      → (w.heap r).state ≡ claimed
      → (w.heap r).claim_timestamp ≢ 0
      → timeout < w.clock - (w.heap r).claim_timestamp
      → ((j : ℕ) → (j == i) ≡ false → is_held r (holds (w.pc j)) ≡ false)
      → is_held r rs ≡ true
      → is_silent i es ≡ true
      → 5 * length rs + 1 ≤ reaper_turns es
      → (before after : List Event) × (scans rs ∷ es ≡ before ++ after)
        × (((run timeout before w).heap r).state ≡ waiting)
  unfolding run apply
  run-recovers w rs es rest e d o alone h quiet enough =
      let begun : begin_scan w.clock rs w.scan ≡ scanning w.clock rs 0 =
        rw (rest, begin_scan) refl in
      let (before, after, same, free) =
        run-Recovers w.clock es (apply timeout (scans rs) w) quiet
          (record { taken = e; dated = d; old = o; alone = alone; awaited = rw begun (refl, h) })
          (rw begun enough) in
      (scans rs ∷ before, after, ap (λ xs. scans rs ∷ xs) same, free)
