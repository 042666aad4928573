-- ===== src/Workers/Interleaving/Late.antt =====
-- src/workers/mod.rs, `run_reaper`: what may happen when a worker goes on with claims that are stale.
-- Worker `i` claims ten Waiting players and pauses until its claims are stale; the Reaper resets them;
-- worker `j` claims the same players; both go on to record a match.
use mathlib.Core.Path.{fun_ext}
use matchmaker.Base.{
  ℕ, replicate, zero, suc, ◌+◌, ◌≤◌, ◌<◌, ◌≡◌, ◌≢◌, refl, ap, ◌∙◌, true, false, List, [], ◌∷◌, ◌++◌,
  arith, length, map, ltb,
}
use matchmaker.Models.Player.{waiting}
use matchmaker.Models.Memory.{Ref, Heap, is_held, Distinct}
use matchmaker.Engine.Balancer.{match_size}
use matchmaker.Engine.Matcher.{claim_all, mark_all}
use matchmaker.Engine.Matcher.Claiming.{step_won, won_heap, claim_all-Claims}
use matchmaker.Workers.{reap_all}
use matchmaker.Workers.Reaper.{is_stale, reap_all-writes}
use matchmaker.Workers.Interleaving.{
  idle, claiming, marking, resting, scanning, Event, begins, works, scans, reaps, ticks, World,
  apply, run, update, at_rest,
}
use matchmaker.Workers.Interleaving.Leads.{Leads, and_then, guarded-works, guarded-reaps}
use matchmaker.Workers.Interleaving.Alone.{Goes, mark_alone, claim_alone, Goes-run, at_pc}
use matchmaker.Workers.Interleaving.Scanning.{Ends-run, scan_alone, at_scan}

-- A worker claims all of a list of distinct Waiting players, if there is room for them.
pub claim_all-waiting :
    (i now room : ℕ) (heap : Heap) (rs : List Ref)
    → length rs ≤ room
    → Distinct rs
    → ((r : Ref) → is_held r rs ≡ true → (heap r).state ≡ waiting)
    → (claim_all i now room heap rs).1 ≡ rs
unfolding claim_all
claim_all-waiting i now room heap [] fits d ready = refl
claim_all-waiting i now zero heap (r ∷ rs) fits d ready = absurd (omega arith)
claim_all-waiting i now (suc room) heap (r ∷ rs) fits d ready =
    rw (step_won i now room heap r rs (ready r (ground arith))) (
      ap (λ qs. r ∷ qs)
        (claim_all-waiting i now room (won_heap i now room heap r rs) rs (omega arith) d.1
          (λ q h. ground (arith, ready q, d.0))))

module _ (timeout : ℕ) where
  module _ (rs : List Ref) (ten : length rs ≡ match_size) (w : World) (i : ℕ) where
    begun :
        w.pc i ≡ idle
        → apply timeout (begins i rs) w ≡ at_pc timeout i w w.heap (claiming w.clock rs []) w.formed
    unfolding apply
    begun p = ground (arith, p)

    pub Leads-claimed :
        w.pc i ≡ idle
        → Distinct rs
        → ((r : Ref) → is_held r rs ≡ true → (w.heap r).state ≡ waiting)
        → Leads timeout w (record w {
          heap = (claim_all i w.clock match_size w.heap rs).0;
          pc = update w.pc i (marking w.clock rs []);
        })
    unfolding run
    Leads-claimed p d ready =
        let heap : Heap = (claim_all i w.clock match_size w.heap rs).0 in
        let all_won =
          claim_all-waiting i w.clock match_size w.heap rs (omega (arith, ten)) d ready in
        let enough : ltb (length rs) match_size ≡ false = ground (arith, ten) in
        let (ats, e) =
          Goes-run timeout i w heap (marking w.clock rs []) w.formed w.heap (claiming w.clock rs [])
            w.formed
            (claim_alone i heap (marking w.clock rs []) w.formed w.clock match_size w.heap rs []
              w.formed refl (rw (all_won, enough) Goes.here)) in
        (
          begins i rs ∷ map (works i) ats,
          ground (arith, ten, guarded-works i ats),
          ap (run timeout (map (works i) ats)) (begun p) ∙ e,
        )

    Leads-recorded :
        (since : ℕ)
        → w.pc i ≡ marking since rs []
        → Leads timeout w (record w {
          heap = mark_all (λ n. 0) 0 w.heap rs;
          pc = update w.pc i idle;
          formed = w.formed ++ rs;
        })
    Leads-recorded since p =
        let heap : Heap = mark_all (λ n. 0) 0 w.heap rs in
        let same : w.pc ≡ update w.pc i (marking since rs []) = fun_ext (λ j. ground (arith, p)) in
        let (ats, e) =
          Goes-run timeout i w heap idle (w.formed ++ rs) w.heap (marking since rs []) w.formed (
            mark_alone i heap idle (w.formed ++ rs) (λ n. 0) since 0 w.heap rs [] w.formed
              Goes.here) in
        (
          map (works i) ats,
          guarded-works i ats,
          ap (λ pc. run timeout (map (works i) ats) (record w { pc = pc })) same ∙ e,
        )

    Leads-scanned :
        w.scan ≡ resting
        → (n : ℕ) × Leads timeout w (record w {
          heap = (reap_all timeout w.clock 0 w.heap rs).0;
          scan = resting;
          recovered = n;
        })
    unfolding run apply
    Leads-scanned p =
        let (heap, n) = reap_all timeout w.clock 0 w.heap rs in
        let (k, e) =
          Ends-run timeout heap n w w.heap (scanning w.clock rs 0)
            (scan_alone timeout w.clock 0 w.heap rs) in
        let begun : apply timeout (scans rs) w
            ≡ at_scan timeout heap n w w.heap (scanning w.clock rs 0) =
          ground (arith, p) in
        (
          _,
          (
            scans rs ∷ replicate k reaps,
            guarded-reaps k,
            ap (run timeout (replicate k reaps)) begun ∙ e,
          ),
        )

  module _ (heap : Heap) (clock i j : ℕ) (rs : List Ref) (ten : length rs ≡ match_size)
      (d : Distinct rs) (ready : (r : Ref) → is_held r rs ≡ true → (heap r).state ≡ waiting)
      (dated : 0 < clock) (other : i ≢ j) where
    abbrev claimed_world : World
    claimed_world = record (at_rest heap clock) {
      heap = (claim_all i clock match_size heap rs).0;
      pc = update (λ k. idle) i (marking clock rs []);
    }

    abbrev late_world : World
    late_world = record claimed_world { clock = clock + (timeout + 1) }

    -- After the scan of the Reaper all players are Waiting again.
    reset :
        (r : Ref)
        → is_held r rs ≡ true
        → ((reap_all timeout late_world.clock 0 late_world.heap rs).0 r).state ≡ waiting
    unfolding is_stale
    reset r h = ground (
      arith,
      reap_all-writes timeout late_world.clock rs 0 late_world.heap r,
      (claim_all-Claims i clock match_size heap rs).writes r,
      ap (is_held r) (claim_all-waiting i clock match_size heap rs (omega (arith, ten)) d ready),
    )

    -- From there on.
    Leads-twice : (w : World) × Leads timeout late_world w × (w.formed ≡ rs ++ rs)
    Leads-twice =
        let (n, scan) = Leads-scanned rs ten late_world i refl in
        let scanned_world : World = record late_world {
          heap = (reap_all timeout late_world.clock 0 late_world.heap rs).0;
          scan = resting;
          recovered = n;
        } in
        let again : World = record scanned_world {
          heap = (claim_all j scanned_world.clock match_size scanned_world.heap rs).0;
          pc = update scanned_world.pc j (marking scanned_world.clock rs []);
        } in
        let once : World = record again {
          heap = mark_all (λ n. 0) 0 again.heap rs;
          pc = update again.pc i idle;
          formed = again.formed ++ rs;
        } in
        let twice : World = record once {
          heap = mark_all (λ n. 0) 0 once.heap rs;
          pc = update once.pc j idle;
          formed = once.formed ++ rs;
        } in
        (
          twice,
          and_then timeout late_world scanned_world twice scan (
              and_then timeout scanned_world again twice
                (Leads-claimed rs ten scanned_world j (ground arith) d reset)
                (and_then timeout again once twice
                  (Leads-recorded rs ten again i clock (ground arith))
                  (Leads-recorded rs ten once j scanned_world.clock (ground arith)))),
          refl,
        )

    paused : apply timeout (ticks (timeout + 1)) claimed_world ≡ late_world
    unfolding apply
    paused = refl

    at_rest-Leads : (w : World) × Leads timeout (at_rest heap clock) w × (w.formed ≡ rs ++ rs)
    unfolding run apply
    at_rest-Leads =
        let (w, on, twice) = Leads-twice in
        (
          w,
          and_then timeout (at_rest heap clock) claimed_world w
              (Leads-claimed rs ten (at_rest heap clock) i refl d ready)
              (and_then timeout claimed_world late_world w (ticks (timeout + 1) ∷ [], refl, paused)
                on),
          twice,
        )

  -- Whatever the timeout and whichever ten different Waiting players, from a clock after the epoch
  -- there is an interleaving after which exactly two matches are recorded, both of these same ten
  -- players.
  pub matched_twice :
      (heap : Heap) (clock : ℕ) (rs : List Ref)
      → length rs ≡ match_size
      → Distinct rs
      → ((r : Ref) → is_held r rs ≡ true → (heap r).state ≡ waiting)
      → 0 < clock
      → (es : List Event) × ((run timeout es (at_rest heap clock)).formed ≡ rs ++ rs)
  matched_twice heap clock rs ten d ready dated =
      let (w, (es, _, e), twice) =
        at_rest-Leads heap clock 1 2 rs ten d ready dated (λ same. absurd (omega arith)) in
      (es, ap (λ w. w.formed) e ∙ twice)
