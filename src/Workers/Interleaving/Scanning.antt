-- ===== src/Workers/Interleaving/Scanning.antt =====
-- src/workers/mod.rs, `reaper_tick`: a scan of the Reaper that no other task interrupts.
use mathlib.Core.Path.{fun_ext}
use matchmaker.Base.{
  ℕ, replicate, suc, Bool, ◌+◌, ◌≡◌, refl, sym, ap, subst, ◌∙◌, true, List, [], ◌∷◌, arith, ltb,
  Bool-cases, inl, inr, if◌then◌else◌, u32, fetch_add, ◌==◌, saturating_sub,
}
use matchmaker.Models.Player.{Player, claimed, waiting}
use matchmaker.Models.Memory.{Ref, Heap, write}
use matchmaker.Engine.Bucket.Store.{ConcurrentMap}
use matchmaker.Engine.Bucket.{all_players}
use matchmaker.Engine.Matcher.{Shared}
use matchmaker.Workers.{reap, reap_all, reaper_tick}
use matchmaker.Workers.Interleaving.{
  Scan, resting, scanning, loads_time, resets, forgets_worker, reap_next, World, scans, reaps,
  apply, run,
}

-- The Reaper gets by its own operations to the memory `h'` and to rest, with `n'` players to count.
pub data Ends (timeout : ℕ) (h' : Heap) (n' : ℕ) : Heap → Scan → Type 0 where
  ends : (now : ℕ) → Ends timeout h' n' h' (scanning now [] n')
  next :
      {h : Heap} {scan : Scan}
      → (reap_next timeout h scan).2 ≡ 0
      → Ends timeout h' n' (reap_next timeout h scan).0 (reap_next timeout h scan).1
      → Ends timeout h' n' h scan

module _ (timeout : ℕ) (h' : Heap) (n' : ℕ) where
  step :
      (h : Heap) (scan : Scan) (k : Heap) (next_scan : Scan)
      → reap_next timeout h scan ≡ (k, next_scan, 0)
      → Ends timeout h' n' k next_scan
      → Ends timeout h' n' h scan
  step h scan k next_scan e g =
      next (ap (λ (o : Heap × Scan × ℕ). o.2) e)
        (subst (λ (o : Heap × Scan × ℕ). Ends timeout h' n' o.0 o.1) (sym e) g)

  at_memory :
      (k h : Heap) (scan : Scan)
      → ((r : Ref) → h r ≡ k r)
      → Ends timeout h' n' k scan
      → Ends timeout h' n' h scan
  at_memory k h scan e g = subst (λ m. Ends timeout h' n' m scan) (fun_ext (λ r. sym (e r))) g

  module _ (now n : ℕ) (heap : Heap) (r : Ref) (rs : List Ref) where
    abbrev reaped : Player × Bool
    reaped = reap timeout now (heap r)

    abbrev counted : ℕ
    counted = if reaped.1 then u32 (n + 1) else n

    module _ (g : Ends timeout h' n' (write heap r reaped.0) (scanning now rs counted)) where
      goes_on :
          (k : Heap) (m : ℕ)
          → ((q : Ref) → k q ≡ write heap r reaped.0 q)
          → m ≡ counted
          → Ends timeout h' n' k (scanning now rs m)
      goes_on k m e f = rw f (at_memory (write heap r reaped.0) k (scanning now rs counted) e g)

      -- The claim is stale.
      reset_alone :
          (heap r).state ≡ claimed
          → reap timeout now (heap r)
            ≡ (record (heap r) { state = waiting; claimed_by = 0; claim_timestamp = 0 }, true)
          → Ends timeout h' n' heap (resets now r rs n)
      unfolding reap_next
      reset_alone c e =
          step heap _ (write heap r (record (heap r) { state = waiting }))
            (forgets_worker now r rs n) (rw c refl)
            (step _ _ _ _ refl
              (step _ _ _ _ refl (goes_on _ (u32 (n + 1)) (λ q. ground arith) (ground arith))))

      -- The Reaper deals with one player.
      reap_alone : Ends timeout h' n' heap (scanning now (r ∷ rs) n)
      unfolding reap reap_next
      reap_alone = elim (Bool-cases ((heap r).state == claimed)) [
        | inr free ↦
            step heap _ heap (scanning now rs n) (rw free refl)
              (goes_on heap n (λ q. ground arith) (ground arith))
        | inl taken ↦
            step heap _ heap (loads_time now r rs n) (rw taken refl)
              (elim (Bool-cases ((heap r).claim_timestamp == 0)) [
                | inl unset ↦
                    step heap _ heap (scanning now rs n) (rw unset refl)
                      (goes_on heap n (λ q. ground arith) (ground arith))
                | inr set ↦
                    elim (Bool-cases (ltb timeout (saturating_sub now (heap r).claim_timestamp))) [
                      | inl old ↦
                          step heap _ heap (resets now r rs n) (rw (set, old) refl)
                            (reset_alone (ground arith) (ground arith))
                      | inr young ↦
                          step heap _ heap (scanning now rs n) (rw (set, young) refl)
                            (goes_on heap n (λ q. ground arith) (ground arith))
                    ]
              ])
      ]

pub scan_alone :
    (timeout now n : ℕ) (heap : Heap) (rs : List Ref)
    → let (h', n') = reap_all timeout now n heap rs in Ends timeout h' n' heap (scanning now rs n)
unfolding reap_all
scan_alone timeout now n heap [] = ends now
scan_alone timeout now n heap (r ∷ rs) =
    let (p, b) = reap timeout now (heap r) in
    reap_alone timeout _ _ now n heap r rs
      (scan_alone timeout now (if b then u32 (n + 1) else n) (write heap r p) rs)

module _ (timeout : ℕ) (h' : Heap) (n' : ℕ) (w : World) where
  abbrev pub at_scan : Heap → Scan → World
  at_scan heap scan = record w { heap = heap; scan = scan }

  abbrev pub scanned : World
  scanned = record w {
    heap = h';
    scan = resting;
    recovered = if ltb 0 n' then fetch_add w.recovered n' else w.recovered;
  }

  reaps-at_scan :
      (h : Heap) (scan : Scan)
      → (reap_next timeout h scan).2 ≡ 0
      → apply timeout reaps (at_scan h scan)
        ≡ at_scan (reap_next timeout h scan).0 (reap_next timeout h scan).1
  unfolding apply
  reaps-at_scan h scan e = rw e refl

  pub Ends-run :
      (h : Heap) (scan : Scan)
      → Ends timeout h' n' h scan
      → (k : ℕ) × (run timeout (replicate k reaps) (at_scan h scan) ≡ scanned)
  unfolding run apply reap_next
  Ends-run h scan (ends now) = (1, refl)
  Ends-run h scan (next e g) =
      let (k, f) = Ends-run (reap_next timeout h scan).0 (reap_next timeout h scan).1 g in
      (suc k, ap (run timeout (replicate k reaps)) (reaps-at_scan h scan e) ∙ f)

module _ (S : ConcurrentMap) (timeout : ℕ) (s : Shared S) (w : World) where
  abbrev swept : Heap × ℕ
  swept = reap_all timeout w.clock 0 s.heap (all_players S s.pool)

  counted_recovered :
      w.recovered ≡ s.metrics.total_stale_claims_recovered
      → (if ltb 0 swept.1 then fetch_add w.recovered swept.1 else w.recovered)
        ≡ (reaper_tick S timeout w.clock s).metrics.total_stale_claims_recovered
  unfolding reaper_tick
  counted_recovered c = ground arith

  -- Taken one atomic operation at a time, with no other task in between, a scan of all players of the
  -- pool by the Reaper leaves the memory and the counter that `reaper_tick` leaves.
  pub reaper_tick_alone :
      w.heap ≡ s.heap
      → w.scan ≡ resting
      → w.recovered ≡ s.metrics.total_stale_claims_recovered
      → let after = reaper_tick S timeout w.clock s in
        (k : ℕ) × (run timeout (scans (all_players S s.pool) ∷ replicate k reaps) w
          ≡ record w { heap = after.heap; recovered = after.metrics.total_stale_claims_recovered })
  unfolding run apply reaper_tick
  reaper_tick_alone h r c =
      let (k, e) =
        Ends-run timeout swept.0 swept.1 w s.heap (scanning w.clock (all_players S s.pool) 0)
          (scan_alone timeout w.clock 0 s.heap (all_players S s.pool)) in
      let begun : apply timeout (scans (all_players S s.pool)) w
          ≡ at_scan timeout swept.0 swept.1 w s.heap (scanning w.clock (all_players S s.pool) 0) =
        ground arith in
      (
        k,
        ap (run timeout (replicate k reaps)) begun
            ∙ e
            ∙ ap (λ n. record w { heap = swept.0; scan = resting; recovered = n })
                (counted_recovered c)
            ∙ ap
                (λ scan. record w {
                  heap = swept.0;
                  scan = scan;
                  recovered =
                      (reaper_tick S timeout w.clock s).metrics.total_stale_claims_recovered;
                })
                (sym r),
      )
