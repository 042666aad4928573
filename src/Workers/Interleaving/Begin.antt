-- ===== src/Workers/Interleaving/Begin.antt =====
-- A worker that enters phase 3 of an attempt keeps the invariant.
use matchmaker.Base.{ℕ, ◌≡◌, ◌⊎◌, refl, true, false, List, arith}
use matchmaker.Models.Player.{claimed, matched}
use matchmaker.Models.Memory.{Ref, Heap, is_held, Distinct}
use matchmaker.Workers.Interleaving.{Pc, idle, Scan, begin, update}
use matchmaker.Workers.Interleaving.Invariant.{
  Inv, is_cleared, holds, marked, since_of, has, is_target, is_forgotten, InTime,
}

module _ {timeout : ℕ} {heap : Heap} {clock : ℕ} {pc : ℕ → Pc} {scan : Scan} {formed : List Ref}
    (v : Inv timeout heap clock pc scan formed) (i : ℕ) (candidates : List Ref) where
  begin-claimed :
      (p : Pc) (j : ℕ) (r : Ref)
      → pc i ≡ p
      → InTime timeout clock (update pc i (begin clock candidates p) j)
      → is_held r (holds (update pc i (begin clock candidates p) j)) ≡ true
      → (heap r).state ≡ claimed
  begin-claimed idle j r e t h = ground (arith, v.claimed_held j r)
  begin-claimed p j r e t h = ground (arith, v.claimed_held j r)

  begin-matched :
      (p : Pc) (j : ℕ) (r : Ref)
      → pc i ≡ p
      → InTime timeout clock (update pc i (begin clock candidates p) j)
      → is_held r (marked (update pc i (begin clock candidates p) j)) ≡ true
      → ((heap r).state ≡ matched) × (is_held r formed ≡ false)
  begin-matched idle j r e t h = ground (arith, v.marked_done j r, v.apart j r)
  begin-matched p j r e t h = ground (arith, v.marked_done j r, v.apart j r)

  begin-exclusive :
      (p : Pc) (a b : ℕ) (r : Ref)
      → pc i ≡ p
      → InTime timeout clock (update pc i (begin clock candidates p) a)
      → InTime timeout clock (update pc i (begin clock candidates p) b)
      → has (update pc i (begin clock candidates p) a) r ≡ true
      → has (update pc i (begin clock candidates p) b) r ≡ true
      → a ≡ b
  begin-exclusive idle a b r e t u h k = ground (arith, v.exclusive a b r)
  begin-exclusive p a b r e t u h k = ground (arith, v.exclusive a b r)

  begin-once :
      (p : Pc) (j : ℕ)
      → pc i ≡ p
      → InTime timeout clock (update pc i (begin clock candidates p) j)
      → Distinct (holds (update pc i (begin clock candidates p) j))
        × Distinct (marked (update pc i (begin clock candidates p) j))
  begin-once idle j e t = ground (arith, v.held_once j)
  begin-once p j e t = ground (arith, v.held_once j)

  begin-dated :
      (p : Pc) (j : ℕ) (r : Ref)
      → pc i ≡ p
      → InTime timeout clock (update pc i (begin clock candidates p) j)
      → is_held r (holds (update pc i (begin clock candidates p) j)) ≡ true
      → is_forgotten scan r ≡ false
      → ((heap r).claim_timestamp ≡ 0)
        ⊎ ((heap r).claim_timestamp ≡ since_of (update pc i (begin clock candidates p) j))
  begin-dated idle j r e t h f = ground (arith, v.dated j r)
  begin-dated p j r e t h f = ground (arith, v.dated j r)

  begin-cleared :
      (p : Pc) (j : ℕ) (r : Ref)
      → pc i ≡ p
      → InTime timeout clock (update pc i (begin clock candidates p) j)
      → is_cleared (update pc i (begin clock candidates p) j) r ≡ true
      → (heap r).claim_timestamp ≡ 0
  begin-cleared idle j r e t h = ground (arith, v.cleared j r)
  begin-cleared p j r e t h = ground (arith, v.cleared j r)

  begin-stale :
      (p : Pc) (j : ℕ) (r : Ref)
      → pc i ≡ p
      → is_target scan r ≡ true
      → InTime timeout clock (update pc i (begin clock candidates p) j)
      → is_held r (holds (update pc i (begin clock candidates p) j)) ≡ false
  begin-stale idle j r e g t = ground (arith, v.stale j r)
  begin-stale p j r e g t = ground (arith, v.stale j r)

  pub begins-Inv : Inv timeout heap clock (update pc i (begin clock candidates (pc i))) scan formed
  begins-Inv = record {
    claimed_held = λ j r. begin-claimed (pc i) j r refl;
    marked_done = λ j r t h. (begin-matched (pc i) j r refl t h).0;
    exclusive = λ a b r. begin-exclusive (pc i) a b r refl;
    held_once = λ j. begin-once (pc i) j refl;
    recorded = v.recorded;
    apart = λ j r t h. (begin-matched (pc i) j r refl t h).1;
    formed_once = v.formed_once;
    clean = v.clean;
    dated = λ j r. begin-dated (pc i) j r refl;
    cleared = λ j r. begin-cleared (pc i) j r refl;
    began_before = v.began_before;
    stale = λ j r. begin-stale (pc i) j r refl;
    target_kept = v.target_kept;
  }
