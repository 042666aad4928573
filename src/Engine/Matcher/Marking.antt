-- ===== src/Engine/Matcher/Marking.antt =====
-- src/engine/matcher.rs: what releasing the claimed players, or marking them, makes of the memory.
use native.Mathlib.Decide.{ℕ_discrete}
use matchmaker.Base.{
  some, subst, sym, ℕ, suc, ◌≡◌, refl, true, false, List, [], ◌∷◌, arith, if◌then◌else◌,
}
use matchmaker.Models.Player.{matched, Player, Instant, claimed, release_claim, mark_matched}
use matchmaker.Models.Memory.{Distinct, Ref, Heap, write, is_held}
use matchmaker.Engine.Matcher.{release_all, mark_all}

pub release_all-writes :
    (heap : Heap) (rs : List Ref)
    → Distinct rs
    → (r : Ref) → release_all heap rs r ≡ (if is_held r rs then release_claim (heap r) else heap r)
unfolding release_all
release_all-writes heap [] d r = refl
release_all-writes heap (q ∷ qs) d r =
    ground (arith, release_all-writes (write heap q (release_claim (heap q))) qs d.1 r)

pub mark_all_others :
    (nows : ℕ → Instant) (i : ℕ) (heap : Heap) (rs : List Ref) (r : Ref)
    → is_held r rs ≡ false
    → mark_all nows i heap rs r ≡ heap r
unfolding mark_all
mark_all_others nows i heap [] r h = refl
mark_all_others nows i heap (q ∷ qs) r h =
    ground
      (arith, mark_all_others nows (suc i) (write heap q (mark_matched (nows i) (heap q))) qs r)

-- What `mark_matched` makes of a claimed player.
pub record IsMarked (p q : Player) : Type 0 where
  pub state : q.state ≡ matched
  pub id : q.id ≡ p.id
  pub rating : q.skill_rating ≡ p.skill_rating
  pub joined : q.join_timestamp ≡ p.join_timestamp
  pub stamped : (at : Instant) × (q.matched_at ≡ some at)

mark_matched-IsMarked :
    (at : Instant) (p : Player) → p.state ≡ claimed → IsMarked p (mark_matched at p)
unfolding mark_matched
mark_matched-IsMarked at p h = record {
  state = ground arith;
  id = ground arith;
  rating = ground arith;
  joined = ground arith;
  stamped = (at, ground arith);
}

-- In the memory after the marks each of the claimed players is Matched, and bears its mark.
pub mark_all-IsMarked :
    (nows : ℕ → Instant) (i : ℕ) (heap : Heap) (rs : List Ref)
    → Distinct rs
    → ((r : Ref) → is_held r rs ≡ true → (heap r).state ≡ claimed)
    → (r : Ref) → is_held r rs ≡ true
    → IsMarked (heap r) (mark_all nows i heap rs r)
unfolding mark_all
mark_all-IsMarked nows i heap [] d ready r m = absurd (ground arith)
mark_all-IsMarked nows i heap (q ∷ qs) d ready r m = elim (ℕ_discrete r q) [
  | yes e ↦
      subst (λ p. IsMarked (heap p) (mark_all nows (suc i) heap' qs p)) (sym e)
        (rw (mark_all_others nows (suc i) heap' qs q d.0, here)
          (mark_matched-IsMarked (nows i) (heap q) (ready q (ground arith))))
  | no ne ↦
      let kept : heap' r ≡ heap r = ground arith in
      subst (λ p. IsMarked p (mark_all nows (suc i) heap' qs r)) kept
        (mark_all-IsMarked nows (suc i) heap' qs d.1 still r (ground arith))
]
  where
    heap' : Heap
    heap' = write heap q (mark_matched (nows i) (heap q))

    here : heap' q ≡ mark_matched (nows i) (heap q)
    here = ground arith

    still : (p : Ref) → is_held p qs ≡ true → (heap' p).state ≡ claimed
    still p h = ground (arith, ready p, d.0)
