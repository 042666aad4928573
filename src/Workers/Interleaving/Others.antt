-- ===== src/Workers/Interleaving/Others.antt =====
-- src/engine/matcher.rs: what workers do to a player that they have not claimed, and workers that do
-- nothing any more.
use matchmaker.Base.{ℕ, ◌≡◌, Bool, true, false, ◌&&◌, not, List, [], ◌∷◌, arith, ◌==◌}
use matchmaker.Models.Player.{claimed}
use matchmaker.Models.Memory.{Ref, Heap, is_held}
use matchmaker.Workers.Interleaving.{
  Pc, idle, claiming, stores_worker, stores_time, releasing, clears_time, gives_up, marking,
  sets_matched, Event, works, act, begin,
}
use matchmaker.Models.Memory.Held.{is_held-append}
use matchmaker.Workers.Interleaving.Invariant.{holds}

abbrev pub is_by : ℕ → Event → Bool
is_by i (works j at) = j == i
is_by i _ = false

-- The worker does nothing any more.
abbrev pub is_silent : ℕ → List Event → Bool
is_silent i [] = true
is_silent i (e ∷ es) = not (is_by i e) && is_silent i es

module _ (r : Ref) where
  -- A worker that has not claimed the player leaves it alone.
  pub act-other :
      (j at : ℕ) (heap : Heap) (p : Pc)
      → (heap r).state ≡ claimed
      → is_held r (holds p) ≡ false
      → ((act j at heap p).0 r ≡ heap r) × (is_held r (holds (act j at heap p).1) ≡ false)
  unfolding act
  act-other j at heap idle e h = ground (arith, h)
  act-other j at heap (claiming since [] held) e h = ground (arith, h)
  act-other j at heap (claiming since (c ∷ left) held) e h = ground (arith, h, e)
  act-other j at heap (stores_worker since q left held) e h = ground (arith, h)
  act-other j at heap (stores_time since q left held) e h =
      ground (arith, h, is_held-append r held (q ∷ []))
  act-other j at heap (releasing since []) e h = ground (arith, h)
  act-other j at heap (releasing since (q ∷ held)) e h = ground (arith, h)
  act-other j at heap (clears_time since q held) e h = ground (arith, h)
  act-other j at heap (gives_up since q held) e h = ground (arith, h)
  act-other j at heap (marking since [] done) e h = ground (arith, h)
  act-other j at heap (marking since (q ∷ held) done) e h = ground (arith, h)
  act-other j at heap (sets_matched since q held done) e h = ground (arith, h)

  pub holds-begin :
      (now : ℕ) (rs : List Ref) (p : Pc)
      → is_held r (holds p) ≡ false
      → is_held r (holds (begin now rs p)) ≡ false
  holds-begin now rs idle h = h
  holds-begin now rs p h = h
