-- ===== src/Workers/Interleaving/Worker.antt =====
-- A worker that is in time keeps the invariant, whatever operation comes next.
use mathlib.Core.List.{append-nil}
use matchmaker.Base.{ℕ, ◌≡◌, ◌≢◌, ◌⊎◌, Bool-cases, refl, true, false, List, [], ◌∷◌, arith, ◌++◌}
use matchmaker.Models.Player.{Instant, waiting}
use matchmaker.Models.Memory.{Ref, Heap, is_held, Distinct}
use matchmaker.Workers.Interleaving.{
  Pc, claiming, stores_time, releasing, gives_up, marking, sets_matched, Scan, act, update,
}
use matchmaker.Models.Memory.Held.{is_held-append, Distinct-append}
use matchmaker.Workers.Interleaving.Invariant.{
  Inv, is_cleared, holds, marked, since_of, is_target, is_forgotten, InTime,
}
use matchmaker.Workers.Interleaving.Moves.{
  Mover, act-claimed, act-matched, act-exclusive, act-once, act-recorded,
}

module _ {timeout : ℕ} {heap : Heap} {clock : ℕ} {pc : ℕ → Pc} {scan : Scan} {formed : List Ref}
    (v : Inv timeout heap clock pc scan formed) (i : ℕ) (at : Instant) where
  act-apart :
      (p : Pc) (j : ℕ) (r : Ref)
      → Mover v i at p
      → InTime timeout clock (update pc i (act i at heap p).1 j)
      → is_held r (marked (update pc i (act i at heap p).1 j)) ≡ true
      → is_held r (formed ++ (act i at heap p).2) ≡ false
  unfolding act
  act-apart (claiming since [] held) j r m t h =
      ground (arith, is_held-append r formed [], v.apart j r, v.apart i r)
  act-apart (claiming since (c ∷ left) held) j r m t h =
      ground (arith, is_held-append r formed [], v.apart j r, v.apart i r)
  act-apart (releasing since []) j r m t h =
      ground (arith, is_held-append r formed [], v.apart j r, v.apart i r)
  act-apart (marking since [] done) j r m t h = ground (
    arith,
    is_held-append r formed [],
    v.apart j r,
    v.apart i r,
    is_held-append r formed done,
    v.exclusive i j r,
    Bool-cases (is_held r done),
  )
  act-apart (sets_matched since q held done) j r m t h = ground (
    arith,
    is_held-append r formed [],
    v.apart j r,
    v.apart i r,
    is_held-append r done (q ∷ []),
    v.recorded r,
    v.claimed_held i r,
    Bool-cases (is_held r formed),
  )
  act-apart p j r m t h = ground (arith, is_held-append r formed [], v.apart j r, v.apart i r)

  act-formed : (p : Pc) → Mover v i at p → Distinct (formed ++ (act i at heap p).2)
  unfolding act
  act-formed (claiming since [] held) m = rw (append-nil formed) v.formed_once
  act-formed (claiming since (c ∷ left) held) m = rw (append-nil formed) v.formed_once
  act-formed (releasing since []) m = rw (append-nil formed) v.formed_once
  act-formed (marking since [] done) m =
      Distinct-append formed done v.formed_once (ground (arith, v.held_once i))
        (λ r h. ground (arith, v.apart i r, Bool-cases (is_held r done)))
  act-formed p m = rw (append-nil formed) v.formed_once

  act-clean :
      (p : Pc) (r : Ref)
      → Mover v i at p
      → ((act i at heap p).0 r).state ≡ waiting
      → is_forgotten scan r ≡ false
      → ((act i at heap p).0 r).claim_timestamp ≡ 0
  unfolding act
  act-clean (claiming since [] held) r m h f = ground (arith, v.clean r)
  act-clean (claiming since (c ∷ left) held) r m h f = ground (arith, v.clean r)
  act-clean (releasing since []) r m h f = ground (arith, v.clean r)
  act-clean (marking since [] done) r m h f = ground (arith, v.clean r)
  act-clean (stores_time since q left held) r m h f = ground (arith, v.clean r, v.claimed_held i r)
  act-clean (gives_up since q held) r m h f = ground (arith, v.clean r, v.cleared i r)
  act-clean p r m h f = ground (arith, v.clean r)

  act-dated :
      (p : Pc) (j : ℕ) (r : Ref)
      → Mover v i at p
      → InTime timeout clock (update pc i (act i at heap p).1 j)
      → is_held r (holds (update pc i (act i at heap p).1 j)) ≡ true
      → is_forgotten scan r ≡ false
      → (((act i at heap p).0 r).claim_timestamp ≡ 0)
        ⊎ (((act i at heap p).0 r).claim_timestamp ≡ since_of (update pc i (act i at heap p).1 j))
  unfolding act
  act-dated (claiming since [] held) j r m t h f = ground (arith, v.dated j r, v.dated i r)
  act-dated (claiming since (c ∷ left) held) j r m t h f =
      ground (arith, v.dated j r, v.dated i r, v.clean r)
  act-dated (releasing since []) j r m t h f = ground (arith, v.dated j r, v.dated i r)
  act-dated (marking since [] done) j r m t h f = ground (arith, v.dated j r, v.dated i r)
  act-dated (stores_time since q left held) j r m t h f =
      ground (arith, v.dated j r, v.dated i r, v.exclusive i j r, is_held-append r held (q ∷ []))
  act-dated p j r m t h f = ground (arith, v.dated j r, v.dated i r)

  act-cleared :
      (p : Pc) (j : ℕ) (r : Ref)
      → Mover v i at p
      → InTime timeout clock (update pc i (act i at heap p).1 j)
      → is_cleared (update pc i (act i at heap p).1 j) r ≡ true
      → ((act i at heap p).0 r).claim_timestamp ≡ 0
  unfolding act
  act-cleared (claiming since [] held) j r m t h = ground (arith, v.cleared j r)
  act-cleared (claiming since (c ∷ left) held) j r m t h = ground (arith, v.cleared j r)
  act-cleared (releasing since []) j r m t h = ground (arith, v.cleared j r)
  act-cleared (marking since [] done) j r m t h = ground (arith, v.cleared j r)
  act-cleared (stores_time since q left held) j r m t h =
      ground (arith, v.cleared j r, v.exclusive i j r)
  act-cleared p j r m t h = ground (arith, v.cleared j r)

  act-stale :
      (p : Pc) (j : ℕ) (r : Ref)
      → Mover v i at p
      → is_target scan r ≡ true
      → InTime timeout clock (update pc i (act i at heap p).1 j)
      → is_held r (holds (update pc i (act i at heap p).1 j)) ≡ false
  unfolding act
  act-stale (claiming since [] held) j r m g t = ground (arith, v.stale j r, v.stale i r)
  act-stale (claiming since (c ∷ left) held) j r m g t =
      ground (arith, v.stale j r, v.stale i r, v.target_kept r)
  act-stale (releasing since []) j r m g t = ground (arith, v.stale j r, v.stale i r)
  act-stale (marking since [] done) j r m g t = ground (arith, v.stale j r, v.stale i r)
  act-stale (stores_time since q left held) j r m g t =
      ground (arith, v.stale j r, v.stale i r, is_held-append r held (q ∷ []))
  act-stale p j r m g t = ground (arith, v.stale j r, v.stale i r)

  act-kept :
      (p : Pc) (r : Ref)
      → Mover v i at p
      → is_target scan r ≡ true
      → ((act i at heap p).0 r).state ≢ waiting
  unfolding act
  act-kept (claiming since [] held) r m g e = ground (arith, v.target_kept r, v.stale i r)
  act-kept (claiming since (c ∷ left) held) r m g e = ground (arith, v.target_kept r, v.stale i r)
  act-kept (releasing since []) r m g e = ground (arith, v.target_kept r, v.stale i r)
  act-kept (marking since [] done) r m g e = ground (arith, v.target_kept r, v.stale i r)
  act-kept p r m g e = ground (arith, v.target_kept r, v.stale i r)

  -- A worker that is in time, and does its next operation.
  pub act-Inv :
      InTime timeout clock (pc i)
      → let (heap', p, recorded) = act i at heap (pc i) in
        Inv timeout heap' clock (update pc i p) scan (formed ++ recorded)
  act-Inv t = record {
    claimed_held = λ j r. act-claimed v i at (pc i) j r m;
    marked_done = λ j r. act-matched v i at (pc i) j r m;
    exclusive = λ a b r. act-exclusive v i at (pc i) a b r m;
    held_once = λ j. act-once v i at (pc i) j m;
    recorded = λ r. act-recorded v i at (pc i) r m;
    apart = λ j r. act-apart (pc i) j r m;
    formed_once = act-formed (pc i) m;
    clean = λ r. act-clean (pc i) r m;
    dated = λ j r. act-dated (pc i) j r m;
    cleared = λ j r. act-cleared (pc i) j r m;
    began_before = v.began_before;
    stale = λ j r. act-stale (pc i) j r m;
    target_kept = λ r. act-kept (pc i) r m;
  }
    where
      m : Mover v i at (pc i)
      m = record { here = refl; in_time = t }
