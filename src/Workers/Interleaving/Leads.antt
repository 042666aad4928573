-- ===== src/Workers/Interleaving/Leads.antt =====
-- One state leads to another, by some interleaving in which every attempt passes the guard of phase 2 of
-- src/engine/matcher.rs.
use matchmaker.Base.{
  ℕ, zero, suc, ◌≡◌, refl, ap, ◌∙◌, Bool, true, ◌&&◌, List, [], ◌∷◌, ◌++◌, leb, length, map,
  replicate, arith,
}
use matchmaker.Models.Player.{Instant}
use matchmaker.Engine.Balancer.{match_size}
use matchmaker.Workers.Interleaving.{Event, begins, works, reaps, World, apply, run}

-- A worker goes on to phase 3 with ten candidates or more.
abbrev pub is_guarded : Event → Bool
is_guarded (begins i candidates) = leb match_size (length candidates)
is_guarded _ = true

abbrev pub are_guarded : List Event → Bool
are_guarded [] = true
are_guarded (e ∷ es) = is_guarded e && are_guarded es

guarded-append :
    (es fs : List Event)
    → are_guarded es ≡ true
    → are_guarded fs ≡ true
    → are_guarded (es ++ fs) ≡ true
guarded-append [] fs h k = k
guarded-append (e ∷ es) fs h k = ground (arith, h, guarded-append es fs (ground arith) k)

pub guarded-works : (i : ℕ) (ats : List Instant) → are_guarded (map (works i) ats) ≡ true
guarded-works i [] = refl
guarded-works i (at ∷ ats) = guarded-works i ats

pub guarded-reaps : (k : ℕ) → are_guarded (replicate k reaps) ≡ true
guarded-reaps zero = refl
guarded-reaps (suc k) = guarded-reaps k

module _ (timeout : ℕ) where
  abbrev pub Leads : World → World → Type 0
  Leads w w' = (es : List Event) × (are_guarded es ≡ true) × (run timeout es w ≡ w')

  pub run-append :
      (es fs : List Event) (w : World)
      → run timeout (es ++ fs) w ≡ run timeout fs (run timeout es w)
  unfolding run
  run-append [] fs w = refl
  run-append (e ∷ es) fs w = run-append es fs (apply timeout e w)

  pub and_then : (u v w : World) → Leads u v → Leads v w → Leads u w
  and_then u v w (es, g, e) (fs, h, f) =
      (es ++ fs, guarded-append es fs g h, run-append es fs u ∙ ap (run timeout fs) e ∙ f)
