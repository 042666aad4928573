-- ===== src/Workers/Interleaving/Invariant.antt =====
-- What holds between the atomic operations of workers, cancellations and the Reaper.
use matchmaker.Base.{ℕ, ◌+◌, ◌≤◌, ◌≡◌, ◌≢◌, ◌⊎◌, Bool, true, false, ◌||◌, List, [], ◌∷◌, ◌==◌}
use matchmaker.Models.Player.{waiting, claimed, matched}
use matchmaker.Models.Memory.{Ref, Heap, is_held, Distinct}
use matchmaker.Workers.Interleaving.{
  Pc, idle, claiming, stores_worker, stores_time, releasing, clears_time, gives_up, marking,
  sets_matched, Scan, resting, scanning, loads_time, resets, forgets_worker, forgets_time,
}

-- The players that a worker has claimed, and neither given back nor marked.
abbrev pub holds : Pc → List Ref
holds idle = []
holds (claiming since left held) = held
holds (stores_worker since r left held) = r ∷ held
holds (stores_time since r left held) = r ∷ held
holds (releasing since held) = held
holds (clears_time since r held) = r ∷ held
holds (gives_up since r held) = r ∷ held
holds (marking since held done) = held
holds (sets_matched since r held done) = r ∷ held

-- The players that a worker has marked for the match that it forms.
abbrev pub marked : Pc → List Ref
marked (marking since held done) = done
marked (sets_matched since r held done) = done
marked _ = []

-- When the worker read the clock for its claims.
abbrev pub since_of : Pc → ℕ
since_of idle = 0
since_of (claiming since left held) = since
since_of (stores_worker since r left held) = since
since_of (stores_time since r left held) = since
since_of (releasing since held) = since
since_of (clears_time since r held) = since
since_of (gives_up since r held) = since
since_of (marking since held done) = since
since_of (sets_matched since r held done) = since

abbrev pub has : Pc → Ref → Bool
has p r = is_held r (holds p) || is_held r (marked p)

-- The worker has cleared the fields of the player, and is about to give it back.
abbrev pub is_cleared : Pc → Ref → Bool
is_cleared (gives_up since q held) r = q == r
is_cleared _ r = false

-- The Reaper is about to reset the player.
abbrev pub is_target : Scan → Ref → Bool
is_target (resets now q rs n) r = q == r
is_target _ r = false

-- The Reaper has reset the player, and not cleared its fields yet.
abbrev pub is_forgotten : Scan → Ref → Bool
is_forgotten (forgets_worker now q rs n) r = q == r
is_forgotten (forgets_time now q rs n) r = q == r
is_forgotten _ r = false

abbrev pub began : Scan → ℕ
began resting = 0
began (scanning now rs n) = now
began (loads_time now r rs n) = now
began (resets now r rs n) = now
began (forgets_worker now r rs n) = now
began (forgets_time now r rs n) = now

-- The claims of the worker are not stale.
abbrev pub InTime : ℕ → ℕ → Pc → Type 0
InTime timeout clock p = clock ≤ since_of p + timeout

pub record Inv (timeout : ℕ) (heap : Heap) (clock : ℕ) (pc : ℕ → Pc) (scan : Scan)
    (formed : List Ref) : Type 0 where
  pub claimed_held :
      (i : ℕ) (r : Ref)
      → InTime timeout clock (pc i)
      → is_held r (holds (pc i)) ≡ true
      → (heap r).state ≡ claimed
  pub marked_done :
      (i : ℕ) (r : Ref)
      → InTime timeout clock (pc i)
      → is_held r (marked (pc i)) ≡ true
      → (heap r).state ≡ matched
  pub exclusive :
      (i j : ℕ) (r : Ref)
      → InTime timeout clock (pc i)
      → InTime timeout clock (pc j)
      → has (pc i) r ≡ true
      → has (pc j) r ≡ true
      → i ≡ j
  pub held_once :
      (i : ℕ) → InTime timeout clock (pc i) → Distinct (holds (pc i)) × Distinct (marked (pc i))
  pub recorded : (r : Ref) → is_held r formed ≡ true → (heap r).state ≡ matched
  pub apart :
      (i : ℕ) (r : Ref)
      → InTime timeout clock (pc i)
      → is_held r (marked (pc i)) ≡ true
      → is_held r formed ≡ false
  pub formed_once : Distinct formed
  pub clean :
      (r : Ref)
      → (heap r).state ≡ waiting
      → is_forgotten scan r ≡ false
      → (heap r).claim_timestamp ≡ 0
  pub dated :
      (i : ℕ) (r : Ref)
      → InTime timeout clock (pc i)
      → is_held r (holds (pc i)) ≡ true
      → is_forgotten scan r ≡ false
      → ((heap r).claim_timestamp ≡ 0) ⊎ ((heap r).claim_timestamp ≡ since_of (pc i))
  pub cleared :
      (i : ℕ) (r : Ref)
      → InTime timeout clock (pc i)
      → is_cleared (pc i) r ≡ true
      → (heap r).claim_timestamp ≡ 0
  pub began_before : began scan ≤ clock
  pub stale :
      (i : ℕ) (r : Ref)
      → is_target scan r ≡ true
      → InTime timeout clock (pc i)
      → is_held r (holds (pc i)) ≡ false
  pub target_kept : (r : Ref) → is_target scan r ≡ true → (heap r).state ≢ waiting
