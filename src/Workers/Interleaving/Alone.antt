-- ===== src/Workers/Interleaving/Alone.antt =====
-- src/engine/matcher.rs, src/workers/mod.rs: a task that no other interrupts does by its atomic
-- operations what the loops of the sequential model do.
use native.Mathlib.Decide.{ℕ_discrete}
use mathlib.Core.Path.{fun_ext}
use mathlib.Core.List.{append-nil, append_assoc}
use matchmaker.Base.{
  ℕ, zero, suc, ◌+◌, ◌≡◌, refl, sym, ap, subst, ◌∙◌, true, false, List, [], ◌∷◌, ◌++◌, arith,
  length, length-append, map, ◌==◌,
}
use matchmaker.Models.Player.{
  Instant, Player, waiting, claimed, try_claim, release_claim, mark_matched,
}
use matchmaker.Models.Memory.{Ref, Heap, write}
use matchmaker.Engine.Balancer.{match_size}
use matchmaker.Engine.Matcher.{claim_all, release_all, mark_all}
use matchmaker.Engine.Matcher.Claiming.{step_won, step_lost, won_heap}
use matchmaker.Workers.Interleaving.{
  Pc, idle, claiming, stores_worker, releasing, marking, settle, act, World, works, apply, run,
  update,
}

-- Worker `i` gets by its own operations to the memory `h'`, to `p'` and to the recorded players `f'`.
pub data Goes (i : ℕ) (h' : Heap) (p' : Pc) (f' : List Ref) : Heap → Pc → List Ref → Type 0 where
  here : Goes i h' p' f' h' p' f'
  next :
      {h : Heap} {p : Pc} {f : List Ref} (at : Instant)
      → Goes i h' p' f' (act i at h p).0 (act i at h p).1 (f ++ (act i at h p).2)
      → Goes i h' p' f' h p f

write_twice : (heap : Heap) (r : Ref) (p q : Player) → write (write heap r p) r q ≡ write heap r q
write_twice heap r p q = fun_ext (λ s. ground arith)

write_self : (heap : Heap) (r : Ref) → write heap r (heap r) ≡ heap
write_self heap r = fun_ext (λ s. ground arith)

module _ (i : ℕ) (h' : Heap) (p' : Pc) (f' : List Ref) where
  abbrev pub To : Heap → Pc → List Ref → Type 0
  To = Goes i h' p' f'

  step :
      (at : Instant) (h : Heap) (p : Pc) (f : List Ref) (k : Heap) (q : Pc)
      → act i at h p ≡ (k, q, [])
      → To k q f
      → To h p f
  step at h p f k q e g =
      next at
        (subst (λ (o : Heap × Pc × List Ref). To o.0 o.1 (f ++ o.2)) (sym e) (rw (append-nil f) g))

  -- A memory is known by its players.
  at_memory : (k h : Heap) (p : Pc) (f : List Ref) → ((r : Ref) → h r ≡ k r) → To k p f → To h p f
  at_memory k h p f e g = subst (λ m. To m p f) (fun_ext (λ r. sym (e r))) g

  pub release_alone :
      (since : ℕ) (heap : Heap) (held f : List Ref)
      → To (release_all heap held) idle f
      → To heap (releasing since held) f
  unfolding release_all act release_claim
  release_alone since heap [] f g = step 0 _ _ f _ _ refl g
  release_alone since heap (r ∷ held) f g = step 0 _ _ f _ _ refl (
      step 0 _ _ f _ _ refl (
        step 0 _ _ f _ _ refl (
          at_memory (write heap r (release_claim (heap r))) _ _ f (λ q. ground arith)
            (release_alone since (write heap r (release_claim (heap r))) held f g))))

  pub mark_alone :
      (nows : ℕ → Instant) (since n : ℕ) (heap : Heap) (held done f : List Ref)
      → To (mark_all nows n heap held) idle (f ++ (done ++ held))
      → To heap (marking since held done) f
  unfolding mark_all act mark_matched
  mark_alone nows since n heap [] done f g =
      next 0 (subst (λ d. To heap idle (f ++ d)) (append-nil done) g)
  mark_alone nows since n heap (r ∷ held) done f g = step (nows n) _ _ f _ _ refl (
      step (nows n) _ _ f _ _ refl (
        at_memory (write heap r (mark_matched (nows n) (heap r))) _ _ f (λ q. ground arith)
          (mark_alone nows since (suc n) (write heap r (mark_matched (nows n) (heap r))) held
            (done ++ r ∷ []) f (rw (append_assoc done (r ∷ []) held) g))))

  pub claim_alone :
      (since room : ℕ) (heap : Heap) (left held f : List Ref)
      → length held + room ≡ match_size
      → To
          (claim_all i since room heap left).0
          (settle since (held ++ (claim_all i since room heap left).1))
          f
      → To heap (claiming since left held) f
  unfolding act try_claim claim_all
  claim_alone since room heap [] held f e g = step 0 _ _ f _ _ refl (rw (← append-nil held) g)
  claim_alone since zero heap (c ∷ left) held f e g =
      let full : (length held == match_size) ≡ true = ground arith in
      step 0 _ _ f heap (settle since held) (rw full refl) (rw (append-nil held) at g)
  claim_alone since (suc room) heap (c ∷ left) held f e g =
      let more : (length held == match_size) ≡ false = ground arith in
      elim (ℕ_discrete (heap c).state waiting) [
        | yes w ↦
            step 0 _ _ f (write heap c (record (heap c) { state = claimed }))
              (stores_worker since c left held) (rw (more, w) refl)
              (step 0 _ _ f _ _ refl (
                step 0 _ _ f _ _ refl (
                  at_memory (won_heap i since room heap c left) _ _ f (λ q. ground arith)
                    (claim_alone since room (won_heap i since room heap c left) left
                      (held ++ c ∷ []) f (omega (arith, e, length-append held (c ∷ [])))
                      (rw (append_assoc held (c ∷ []) _)
                        (rw (step_won i since room heap c left w) at g))))))
        | no lost ↦ step 0 _ _ f (write heap c (heap c)) (claiming since left held) (ground arith) (
            claim_alone since (suc room) (write heap c (heap c)) left held f e
              (rw (step_lost i since room heap c left lost) at g))
      ]

module _ (timeout i : ℕ) (w : World) where
  -- The state in which worker `i` is at `p`.
  abbrev pub at_pc : Heap → Pc → List Ref → World
  at_pc heap p formed = record w { heap = heap; pc = update w.pc i p; formed = formed }

  works-at_pc :
      (at : Instant) (h : Heap) (p : Pc) (f : List Ref)
      → apply timeout (works i at) (at_pc h p f)
        ≡ at_pc (act i at h p).0 (act i at h p).1 (f ++ (act i at h p).2)
  unfolding apply
  works-at_pc at h p f =
      let here : update w.pc i p i ≡ p = ground arith in
      let once : (q : Pc) → update (update w.pc i p) i q ≡ update w.pc i q =
        λ q. fun_ext (λ j. ground arith) in
      rw (here, once (act i at h p).1) refl

  pub Goes-run :
      (h' : Heap) (p' : Pc) (f' : List Ref) (h : Heap) (p : Pc) (f : List Ref)
      → Goes i h' p' f' h p f
      → (ats : List Instant) × (run timeout (map (works i) ats) (at_pc h p f) ≡ at_pc h' p' f')
  unfolding run
  Goes-run h' p' f' h p f here = ([], refl)
  Goes-run h' p' f' h p f (next at g) =
      let (ats, e) = Goes-run h' p' f' _ _ _ g in
      (at ∷ ats, ap (run timeout (map (works i) ats)) (works-at_pc at h p f) ∙ e)
