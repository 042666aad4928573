-- ===== src/Workers/Interleaving/Safety.antt =====
-- src/models/mod.rs, src/workers/mod.rs: while claims are handled in time, players belong to one
-- worker, however the atomic operations interleave.
use mathlib.Core.Path.{fun_ext}
use mathlib.Core.List.{append-nil}
use matchmaker.Base.{
  ℕ, ◌+◌, ◌≡◌, ◌⊎◌, refl, true, false, List, [], ◌∷◌, arith, ◌||◌, Bool, ◌&&◌, leb, leb→le, inl,
  inr,
}
use matchmaker.Models.Player.{waiting, claimed, matched, compare_exchange}
use matchmaker.Models.Memory.{Ref, Heap, is_held, Distinct}
use matchmaker.Workers.Interleaving.{
  scanning, Pc, idle, Scan, Event, begins, works, scans, reaps, evicts, ticks, World, apply, run,
  at_rest, act, reap_next, update,
}
use matchmaker.Workers.Interleaving.Invariant.{Inv, holds, since_of, has, is_target, InTime}
use matchmaker.Workers.Interleaving.Worker.{act-Inv}
use matchmaker.Workers.Interleaving.Begin.{begins-Inv}
use matchmaker.Workers.Interleaving.Reaper.{evicts-Inv, ticks-Inv, scans-Inv, reap_next-Inv}

abbrev pub is_idle : Pc → Bool
is_idle idle = true
is_idle p = false

is_idle-cases : (p : Pc) → (p ≡ idle) ⊎ (is_idle p ≡ false)
is_idle-cases idle = inl refl
is_idle-cases p = inr refl

module _ (timeout : ℕ) where
  -- A worker that goes on does so before its claims are stale. One that does not may have crashed,
  -- and goes on never again.
  abbrev pub on_time : Event → World → Bool
  on_time (works i at) w = is_idle (w.pc i) || leb w.clock (since_of (w.pc i) + timeout)
  on_time _ w = true

  abbrev pub prompt : List Event → World → Bool
  prompt [] w = true
  prompt (e ∷ es) w = on_time e w && prompt es (apply timeout e w)

  abbrev pub WorldInv : World → Type 0
  WorldInv w = Inv timeout w.heap w.clock w.pc w.scan w.formed

  works-WorldInv :
      (i : ℕ) (at : ℕ) (w : World)
      → on_time (works i at) w ≡ true
      → WorldInv w
      → WorldInv (apply timeout (works i at) w)
  unfolding apply
  works-WorldInv i at w h v = elim (is_idle-cases (w.pc i)) [
    | inl e ↦
        let same : update w.pc i idle ≡ w.pc = fun_ext (λ j. ground arith) in
        rw (e, act, append-nil w.formed, same) v
    | inr e ↦ act-Inv v i at (ground (arith, leb→le w.clock (since_of (w.pc i) + timeout)))
  ]

  apply-WorldInv :
      (e : Event) (w : World) → on_time e w ≡ true → WorldInv w → WorldInv (apply timeout e w)
  unfolding apply
  apply-WorldInv (begins i candidates) w h v = begins-Inv v i candidates
  apply-WorldInv (works i at) w h v = works-WorldInv i at w h v
  apply-WorldInv (scans rs) w h v = scans-Inv w.scan rs v
  apply-WorldInv reaps w h v = reap_next-Inv w.scan v
  apply-WorldInv (evicts r) w h v = evicts-Inv r v
  apply-WorldInv (ticks ms) w h v = ticks-Inv ms v

  run-WorldInv :
      (es : List Event) (w : World) → prompt es w ≡ true → WorldInv w → WorldInv (run timeout es w)
  unfolding run
  run-WorldInv [] w h v = v
  run-WorldInv (e ∷ es) w h v =
      run-WorldInv es (apply timeout e w) (ground arith) (apply-WorldInv e w (ground arith) v)

  at_rest-WorldInv :
      (heap : Heap) (clock : ℕ)
      → ((r : Ref) → (heap r).claim_timestamp ≡ 0)
      → WorldInv (at_rest heap clock)
  at_rest-WorldInv heap clock new = record {
    claimed_held = λ i r t h. absurd (ground arith);
    marked_done = λ i r t h. absurd (ground arith);
    exclusive = λ a b r t u h k. absurd (ground arith);
    held_once = λ i t. (tt, tt);
    recorded = λ r h. absurd (ground arith);
    apart = λ i r t h. absurd (ground arith);
    formed_once = tt;
    clean = λ r h f. new r;
    dated = λ i r t h f. inl (new r);
    cleared = λ i r t h. absurd (ground arith);
    began_before = omega arith;
    stale = λ i r g t. refl;
    target_kept = λ r g. absurd (ground arith);
  }

  module _ (heap : Heap) (clock : ℕ) (new : (r : Ref) → (heap r).claim_timestamp ≡ 0)
      (es : List Event) (on : prompt es (at_rest heap clock) ≡ true) where
    -- The state after the events.
    abbrev pub after : World
    after = run timeout es (at_rest heap clock)

    after-WorldInv : WorldInv after
    after-WorldInv = run-WorldInv es (at_rest heap clock) on (at_rest-WorldInv heap clock new)

    -- From players without a claim, after any interleaving of the atomic operations of any number of
    -- workers, of cancellations and of the Reaper, in which no worker goes on with claims that are
    -- stale (a worker may crash): two workers whose claims are not stale never have a player in
    -- common, no player stands in two recorded matches or twice in one, and each player of a
    -- recorded match is Matched.
    pub run-Distinct :
        ((i j : ℕ) (r : Ref)
          → InTime timeout after.clock (after.pc i)
          → InTime timeout after.clock (after.pc j)
          → has (after.pc i) r ≡ true
          → has (after.pc j) r ≡ true
          → i ≡ j)
        × Distinct after.formed
        × ((r : Ref) → is_held r after.formed ≡ true → (after.heap r).state ≡ matched)
    run-Distinct = (after-WorldInv.exclusive, after-WorldInv.formed_once, after-WorldInv.recorded)

    -- In such an interleaving the compare-exchange by which a worker gives back or marks a player,
    -- whose failure the code ignores, never fails while the claims of the worker are not stale.
    pub run-compare_exchange :
        (i : ℕ) (r : Ref) (next : ℕ)
        → InTime timeout after.clock (after.pc i)
        → is_held r (holds (after.pc i)) ≡ true
        → compare_exchange claimed next (after.heap r)
          ≡ (record (after.heap r) { state = next }, true)
    run-compare_exchange i r next t h = ground (arith, after-WorldInv.claimed_held i r t)

    reset-target :
        (scan : Scan) (heap : Heap) (r : Ref)
        → (heap r).state ≡ claimed
        → ((reap_next timeout heap scan).0 r).state ≡ waiting
        → is_target scan r ≡ true
    unfolding reap_next
    reset-target (scanning now [] n) heap r e f = ground arith
    reset-target scan heap r e f = ground arith

    -- In such an interleaving the Reaper takes no player from a worker whose claims are not stale,
    -- though it reads the state and the time of a claim before it resets the state.
    pub run-reaps :
        (i : ℕ) (r : Ref)
        → (after.heap r).state ≡ claimed
        → ((apply timeout reaps after).heap r).state ≡ waiting
        → InTime timeout after.clock (after.pc i)
        → is_held r (holds (after.pc i)) ≡ false
    unfolding apply
    run-reaps i r e f t = after-WorldInv.stale i r (reset-target after.scan after.heap r e f) t
