-- ===== src/Workers/Interleaving/Moves.antt =====
-- The next operation of a worker that is in time keeps what the invariant says of the states, the claims
-- and the records.
use matchmaker.Base.{ℕ, ◌≡◌, Bool-cases, true, List, [], ◌∷◌, arith, ◌++◌}
use matchmaker.Models.Player.{Instant, claimed, matched}
use matchmaker.Models.Memory.{Ref, Heap, is_held, Distinct}
use matchmaker.Workers.Interleaving.{
  Pc, claiming, stores_time, releasing, gives_up, marking, sets_matched, Scan, act, update,
}
use matchmaker.Models.Memory.Held.{Distinct-snoc, is_held-append}
use matchmaker.Workers.Interleaving.Invariant.{Inv, holds, marked, has, InTime}

module _ {timeout : ℕ} {heap : Heap} {clock : ℕ} {pc : ℕ → Pc} {scan : Scan} {formed : List Ref}
    (v : Inv timeout heap clock pc scan formed) (i : ℕ) (at : Instant) where
  -- Worker `i` is at `p`. A match on `p` needs a variable for `pc i`.
  pub record Mover (p : Pc) : Type 0 where
    pub here : pc i ≡ p
    pub in_time : InTime timeout clock p

  pub act-claimed :
      (p : Pc) (j : ℕ) (r : Ref)
      → Mover p
      → InTime timeout clock (update pc i (act i at heap p).1 j)
      → is_held r (holds (update pc i (act i at heap p).1 j)) ≡ true
      → ((act i at heap p).0 r).state ≡ claimed
  unfolding act
  act-claimed (claiming since [] held) j r m t h =
      ground (arith, v.claimed_held j r, v.claimed_held i r)
  act-claimed (claiming since (c ∷ left) held) j r m t h =
      ground (arith, v.claimed_held j r, v.claimed_held i r)
  act-claimed (stores_time since q left held) j r m t h =
      ground (arith, v.claimed_held j r, v.claimed_held i r, is_held-append r held (q ∷ []))
  act-claimed (releasing since []) j r m t h =
      ground (arith, v.claimed_held j r, v.claimed_held i r)
  act-claimed (marking since [] done) j r m t h =
      ground (arith, v.claimed_held j r, v.claimed_held i r)
  act-claimed (gives_up since q held) j r m t h =
      ground (arith, v.claimed_held j r, v.claimed_held i r, v.exclusive i j r, v.held_once i)
  act-claimed (sets_matched since q held done) j r m t h =
      ground (arith, v.claimed_held j r, v.claimed_held i r, v.exclusive i j r, v.held_once i)
  act-claimed p j r m t h = ground (arith, v.claimed_held j r, v.claimed_held i r)

  pub act-matched :
      (p : Pc) (j : ℕ) (r : Ref)
      → Mover p
      → InTime timeout clock (update pc i (act i at heap p).1 j)
      → is_held r (marked (update pc i (act i at heap p).1 j)) ≡ true
      → ((act i at heap p).0 r).state ≡ matched
  unfolding act
  act-matched (claiming since [] held) j r m t h =
      ground (arith, v.marked_done j r, v.marked_done i r)
  act-matched (claiming since (c ∷ left) held) j r m t h =
      ground (arith, v.marked_done j r, v.marked_done i r)
  act-matched (releasing since []) j r m t h = ground (arith, v.marked_done j r, v.marked_done i r)
  act-matched (marking since [] done) j r m t h =
      ground (arith, v.marked_done j r, v.marked_done i r)
  act-matched (sets_matched since q held done) j r m t h = ground (
    arith,
    v.marked_done j r,
    v.marked_done i r,
    v.claimed_held i r,
    is_held-append r done (q ∷ []),
  )
  act-matched p j r m t h = ground (arith, v.marked_done j r, v.marked_done i r)

  pub act-exclusive :
      (p : Pc) (a b : ℕ) (r : Ref)
      → Mover p
      → InTime timeout clock (update pc i (act i at heap p).1 a)
      → InTime timeout clock (update pc i (act i at heap p).1 b)
      → has (update pc i (act i at heap p).1 a) r ≡ true
      → has (update pc i (act i at heap p).1 b) r ≡ true
      → a ≡ b
  unfolding act
  act-exclusive (claiming since [] held) a b r m t u h k =
      ground (arith, v.exclusive a b r, v.exclusive i a r, v.exclusive i b r)
  act-exclusive (claiming since (c ∷ left) held) a b r m t u h k = ground (
    arith,
    v.exclusive a b r,
    v.exclusive i a r,
    v.exclusive i b r,
    v.claimed_held a r,
    v.marked_done a r,
    v.claimed_held b r,
    v.marked_done b r,
  )
  act-exclusive (releasing since []) a b r m t u h k =
      ground (arith, v.exclusive a b r, v.exclusive i a r, v.exclusive i b r)
  act-exclusive (marking since [] done) a b r m t u h k =
      ground (arith, v.exclusive a b r, v.exclusive i a r, v.exclusive i b r)
  act-exclusive (stores_time since q left held) a b r m t u h k = ground (
    arith,
    v.exclusive a b r,
    v.exclusive i a r,
    v.exclusive i b r,
    is_held-append r held (q ∷ []),
  )
  act-exclusive (sets_matched since q held done) a b r m t u h k = ground (
    arith,
    v.exclusive a b r,
    v.exclusive i a r,
    v.exclusive i b r,
    is_held-append r done (q ∷ []),
  )
  act-exclusive p a b r m t u h k =
      ground (arith, v.exclusive a b r, v.exclusive i a r, v.exclusive i b r)

  pub act-once :
      (p : Pc) (j : ℕ)
      → Mover p
      → InTime timeout clock (update pc i (act i at heap p).1 j)
      → Distinct (holds (update pc i (act i at heap p).1 j))
        × Distinct (marked (update pc i (act i at heap p).1 j))
  unfolding act
  act-once (claiming since [] held) j m t = ground (arith, v.held_once j, v.held_once i)
  act-once (claiming since (c ∷ left) held) j m t =
      ground (arith, v.held_once j, v.held_once i, v.claimed_held i c, Bool-cases (is_held c held))
  act-once (stores_time since q left held) j m t =
      ground (arith, v.held_once j, v.held_once i, Distinct-snoc q held)
  act-once (releasing since []) j m t = ground (arith, v.held_once j, v.held_once i)
  act-once (marking since [] done) j m t = ground (arith, v.held_once j, v.held_once i)
  act-once (sets_matched since q held done) j m t = ground (
    arith,
    v.held_once j,
    v.held_once i,
    v.claimed_held i q,
    v.marked_done i q,
    Bool-cases (is_held q done),
    Distinct-snoc q done,
  )
  act-once p j m t = ground (arith, v.held_once j, v.held_once i)

  pub act-recorded :
      (p : Pc) (r : Ref)
      → Mover p
      → is_held r (formed ++ (act i at heap p).2) ≡ true
      → ((act i at heap p).0 r).state ≡ matched
  unfolding act
  act-recorded (claiming since [] held) r m h =
      ground (arith, v.recorded r, is_held-append r formed [])
  act-recorded (claiming since (c ∷ left) held) r m h =
      ground (arith, v.recorded r, is_held-append r formed [])
  act-recorded (releasing since []) r m h = ground (arith, v.recorded r, is_held-append r formed [])
  act-recorded (marking since [] done) r m h = ground (
    arith,
    v.recorded r,
    is_held-append r formed [],
    is_held-append r formed done,
    v.marked_done i r,
  )
  act-recorded p r m h = ground (arith, v.recorded r, is_held-append r formed [])
