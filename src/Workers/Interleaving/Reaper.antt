-- ===== src/Workers/Interleaving/Reaper.antt =====
-- The Reaper, a cancellation and the clock keep the invariant.
use matchmaker.Base.{ℕ, ◌+◌, ◌≤◌, ◌≡◌, ◌≢◌, ◌⊎◌, Bool-cases, true, false, List, [], arith}
use matchmaker.Models.Player.{waiting, claimed, matched, evicted, compare_exchange}
use matchmaker.Models.Memory.{Ref, Heap, write, is_held}
use matchmaker.Workers.Interleaving.{
  Pc, Scan, resting, scanning, loads_time, resets, forgets_worker, forgets_time, reap_next,
  begin_scan,
}
use matchmaker.Workers.Interleaving.Invariant.{
  Inv, holds, since_of, is_target, is_forgotten, began, InTime,
}

reap_next-matched :
    (timeout : ℕ) (heap : Heap) (scan : Scan) (r : Ref)
    → (heap r).state ≡ matched
    → ((reap_next timeout heap scan).0 r).state ≡ matched
unfolding reap_next
reap_next-matched timeout heap (scanning now [] n) r h = h
reap_next-matched timeout heap scan r h = ground arith

reap_next-cleared :
    (timeout : ℕ) (heap : Heap) (scan : Scan) (r : Ref)
    → (heap r).claim_timestamp ≡ 0
    → ((reap_next timeout heap scan).0 r).claim_timestamp ≡ 0
unfolding reap_next
reap_next-cleared timeout heap (scanning now [] n) r h = h
reap_next-cleared timeout heap scan r h = ground arith

module _ {timeout : ℕ} {heap : Heap} {clock : ℕ} {pc : ℕ → Pc} {formed : List Ref} where
  pub evicts-Inv :
      {scan : Scan} (q : Ref)
      → Inv timeout heap clock pc scan formed
      → Inv timeout
          (write heap q (compare_exchange waiting evicted (heap q)).0)
          clock
          pc
          scan
          formed
  evicts-Inv q v = record {
    claimed_held = λ i r t h. ground (arith, v.claimed_held i r t);
    marked_done = λ i r t h. ground (arith, v.marked_done i r t);
    exclusive = v.exclusive;
    held_once = v.held_once;
    recorded = λ r h. ground (arith, v.recorded r);
    apart = v.apart;
    formed_once = v.formed_once;
    clean = λ r h f. ground (arith, v.clean r);
    dated = λ i r t h f. ground (arith, v.dated i r t);
    cleared = λ i r t h. ground (arith, v.cleared i r t);
    began_before = v.began_before;
    stale = v.stale;
    target_kept = λ r h. ground (arith, v.target_kept r);
  }

  pub ticks-Inv :
      {scan : Scan} (ms : ℕ)
      → Inv timeout heap clock pc scan formed
      → Inv timeout heap (clock + ms) pc scan formed
  ticks-Inv ms v = record {
    claimed_held = λ i r t h. v.claimed_held i r (omega arith) h;
    marked_done = λ i r t h. v.marked_done i r (omega arith) h;
    exclusive = λ i j r t u. v.exclusive i j r (omega arith) (omega arith);
    held_once = λ i t. v.held_once i (omega arith);
    recorded = v.recorded;
    apart = λ i r t. v.apart i r (omega arith);
    formed_once = v.formed_once;
    clean = v.clean;
    dated = λ i r t. v.dated i r (omega arith);
    cleared = λ i r t. v.cleared i r (omega arith);
    began_before = omega (arith, v.began_before);
    stale = λ i r h t. v.stale i r h (omega arith);
    target_kept = v.target_kept;
  }

  pub scans-Inv :
      (scan : Scan) (rs : List Ref)
      → Inv timeout heap clock pc scan formed
      → Inv timeout heap clock pc (begin_scan clock rs scan) formed
  scans-Inv resting rs v = record {
    claimed_held = v.claimed_held;
    marked_done = v.marked_done;
    exclusive = v.exclusive;
    held_once = v.held_once;
    recorded = v.recorded;
    apart = v.apart;
    formed_once = v.formed_once;
    clean = v.clean;
    dated = v.dated;
    cleared = v.cleared;
    began_before = omega arith;
    stale = λ i r h. absurd (ground arith);
    target_kept = λ r h. absurd (ground arith);
  }
  scans-Inv (scanning now qs n) rs v = v
  scans-Inv (loads_time now q qs n) rs v = v
  scans-Inv (resets now q qs n) rs v = v
  scans-Inv (forgets_worker now q qs n) rs v = v
  scans-Inv (forgets_time now q qs n) rs v = v

  reap_next-claimed :
      (scan : Scan) (i : ℕ) (r : Ref)
      → Inv timeout heap clock pc scan formed
      → InTime timeout clock (pc i)
      → is_held r (holds (pc i)) ≡ true
      → ((reap_next timeout heap scan).0 r).state ≡ claimed
  unfolding reap_next
  reap_next-claimed (scanning now [] n) i r v t h = v.claimed_held i r t h
  reap_next-claimed scan i r v t h = ground (arith, v.claimed_held i r t, v.stale i r)

  reap_next-clean :
      (scan : Scan) (r : Ref)
      → Inv timeout heap clock pc scan formed
      → ((reap_next timeout heap scan).0 r).state ≡ waiting
      → is_forgotten (reap_next timeout heap scan).1 r ≡ false
      → ((reap_next timeout heap scan).0 r).claim_timestamp ≡ 0
  unfolding reap_next
  reap_next-clean (scanning now [] n) r v h f = v.clean r h f
  reap_next-clean scan r v h f = ground (arith, v.clean r)

  reap_next-dated :
      (scan : Scan) (i : ℕ) (r : Ref)
      → Inv timeout heap clock pc scan formed
      → InTime timeout clock (pc i)
      → is_held r (holds (pc i)) ≡ true
      → is_forgotten (reap_next timeout heap scan).1 r ≡ false
      → (((reap_next timeout heap scan).0 r).claim_timestamp ≡ 0)
        ⊎ (((reap_next timeout heap scan).0 r).claim_timestamp ≡ since_of (pc i))
  unfolding reap_next
  reap_next-dated (scanning now [] n) i r v t h f = v.dated i r t h f
  reap_next-dated scan i r v t h f = ground (arith, v.dated i r t h, v.stale i r)

  reap_next-began :
      (scan : Scan)
      → Inv timeout heap clock pc scan formed
      → began (reap_next timeout heap scan).1 ≤ clock
  unfolding reap_next
  reap_next-began (scanning now [] n) v = omega arith
  reap_next-began scan v = ground (arith, v.began_before)

  -- The Reaper aims at no player whose holder is in time.
  reap_next-stale :
      (scan : Scan) (i : ℕ) (r : Ref)
      → Inv timeout heap clock pc scan formed
      → is_target (reap_next timeout heap scan).1 r ≡ true
      → InTime timeout clock (pc i)
      → is_held r (holds (pc i)) ≡ false
  unfolding reap_next
  reap_next-stale (scanning now [] n) i r v g t = absurd (ground arith)
  reap_next-stale scan i r v g t =
      ground
        (arith, v.stale i r, v.dated i r t, v.began_before, Bool-cases (is_held r (holds (pc i))))

  reap_next-kept :
      (scan : Scan) (r : Ref)
      → Inv timeout heap clock pc scan formed
      → is_target (reap_next timeout heap scan).1 r ≡ true
      → ((reap_next timeout heap scan).0 r).state ≢ waiting
  unfolding reap_next
  reap_next-kept (scanning now [] n) r v g e = absurd (ground arith)
  reap_next-kept scan r v g e = ground (arith, v.clean r, v.target_kept r)

  pub reap_next-Inv :
      (scan : Scan)
      → Inv timeout heap clock pc scan formed
      → let (heap', scan', n) = reap_next timeout heap scan in
        Inv timeout heap' clock pc scan' formed
  reap_next-Inv scan v = record {
    claimed_held = λ i r t h. reap_next-claimed scan i r v t h;
    marked_done = λ i r t h. reap_next-matched timeout heap scan r (v.marked_done i r t h);
    exclusive = v.exclusive;
    held_once = v.held_once;
    recorded = λ r h. reap_next-matched timeout heap scan r (v.recorded r h);
    apart = v.apart;
    formed_once = v.formed_once;
    clean = λ r h f. reap_next-clean scan r v h f;
    dated = λ i r t h f. reap_next-dated scan i r v t h f;
    cleared = λ i r t h. reap_next-cleared timeout heap scan r (v.cleared i r t h);
    began_before = reap_next-began scan v;
    stale = λ i r g t. reap_next-stale scan i r v g t;
    target_kept = λ r g. reap_next-kept scan r v g;
  }
