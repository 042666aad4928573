-- ===== src/Engine/Matcher/Claiming.antt =====
-- src/engine/matcher.rs, phase 3: what the loop claims, and that a rollback undoes it. The memory is
-- any at all, so other tasks may have done anything since the candidates were found.
use native.Mathlib.Decide.{ℕ_discrete}
use matchmaker.Base.{
  subst, sym, ◌≢◌, ◌≢◌, ℕ, zero, suc, ◌-◌, ◌≤◌, ◌<◌, ◌≡◌, refl, true, false, List, [], ◌∷◌, arith,
  ◌==◌, if◌then◌else◌, length, Bool-cases,
}
use matchmaker.Models.Player.{Player, waiting, claimed, try_claim}
use matchmaker.Models.Memory.{Distinct, Ref, Heap, write, is_held}
use matchmaker.Engine.Bucket.Store.{ConcurrentMap}
use matchmaker.Engine.Balancer.{match_size}
use matchmaker.Engine.Matcher.{WorkerContext, Readings, Shared, claim_all}

-- The player as the worker's claim leaves it.
abbrev pub claimed_by_worker : ℕ → ℕ → Player → Player
claimed_by_worker worker_id now_ms p = record p {
  state = claimed;
  claimed_by = worker_id;
  claim_timestamp = now_ms;
}

module _ (worker_id now_ms : ℕ) where
  -- What the loop does, from a memory and a list of candidates.
  pub record Claims (room : ℕ) (heap : Heap) (cs : List Ref) (after : Heap × List Ref)
      : Type 0 where
    pub writes :
        (r : Ref)
        → after.0 r
          ≡ (if is_held r after.1 then claimed_by_worker worker_id now_ms (heap r) else heap r)
    pub ready : (r : Ref) → is_held r after.1 ≡ true → (heap r).state ≡ waiting
    pub from : (r : Ref) → is_held r after.1 ≡ true → is_held r cs ≡ true
    pub distinct : Distinct after.1
    pub bounded : length after.1 ≤ room
    pub eager :
        length after.1 < room
        → (r : Ref) → is_held r cs ≡ true
        → (heap r).state ≡ waiting
        → is_held r after.1 ≡ true

  claim_all_nil : (room : ℕ) (heap : Heap) → Claims room heap [] (heap, [])
  claim_all_nil room heap = record {
    writes = λ r. refl;
    ready = λ r h. absurd (ground arith);
    from = λ r h. h;
    distinct = tt;
    bounded = omega arith;
    eager = λ h r m w. m;
  }

  claim_all_full : (heap : Heap) (cs : List Ref) → Claims 0 heap cs (heap, [])
  claim_all_full heap cs = record {
    writes = λ r. refl;
    ready = λ r h. absurd (ground arith);
    from = λ r h. absurd (ground arith);
    distinct = tt;
    bounded = omega arith;
    eager = λ h r m w. absurd (omega arith);
  }

  module _ (room : ℕ) (heap : Heap) (c : Ref) (cs : List Ref) where
    abbrev pub won_heap : Heap
    won_heap = write heap c (claimed_by_worker worker_id now_ms (heap c))

    claim_all_won :
        (after : Heap × List Ref)
        → (heap c).state ≡ waiting
        → Claims room won_heap cs after
        → Claims (suc room) heap (c ∷ cs) (after.0, c ∷ after.1)
    claim_all_won after e k = record {
      writes = λ r. ground (arith, k.writes r);
      ready = λ r h. ground (arith, k.ready r);
      from = λ r h. ground (arith, k.from r);
      distinct = (ground (arith, Bool-cases (is_held c after.1), k.ready c), k.distinct);
      bounded = omega (arith, k.bounded);
      eager = λ few r m w. ground (arith, k.eager (omega arith) r);
    }

    claim_all_lost :
        (heap' : Heap) (after : Heap × List Ref)
        → (heap c).state ≢ waiting
        → ((r : Ref) → heap' r ≡ heap r)
        → Claims room heap' cs after
        → Claims room heap (c ∷ cs) after
    claim_all_lost heap' after e same k = record {
      writes = λ r. ground (arith, k.writes r, same r);
      ready = λ r h. ground (arith, k.ready r, same r);
      from = λ r h. ground (arith, k.from r);
      distinct = k.distinct;
      bounded = k.bounded;
      eager = λ few r m w. ground (arith, k.eager few r, same r);
    }

  try_claim_won :
      (p : Player)
      → p.state ≡ waiting
      → try_claim worker_id now_ms p ≡ (claimed_by_worker worker_id now_ms p, true)
  unfolding try_claim
  try_claim_won p e = ground arith

  try_claim_lost : (p : Player) → p.state ≢ waiting → try_claim worker_id now_ms p ≡ (p, false)
  unfolding try_claim
  try_claim_lost p e = ground arith

  module _ (room : ℕ) (heap : Heap) (c : Ref) (cs : List Ref) where
    pub step_won :
        (heap c).state ≡ waiting
        → claim_all worker_id now_ms (suc room) heap (c ∷ cs) ≡ (
            let after = claim_all worker_id now_ms room (won_heap room heap c cs) cs in
            (after.0, c ∷ after.1))
    unfolding claim_all
    step_won e =
        let some_room : (suc room == 0) ≡ false = ground arith in
        let less : suc room - 1 ≡ room = omega arith in
        rw (try_claim_won (heap c) e, some_room, less)

    pub step_lost :
        (heap c).state ≢ waiting
        → claim_all worker_id now_ms (suc room) heap (c ∷ cs)
          ≡ claim_all worker_id now_ms (suc room) (write heap c (heap c)) cs
    unfolding claim_all
    step_lost e =
        let some_room : (suc room == 0) ≡ false = ground arith in
        rw (try_claim_lost (heap c) e, some_room)

  -- The first candidate is claimed if it is Waiting.
  claim_all_first :
      (room : ℕ) (heap : Heap) (c : Ref) (cs : List Ref)
      → (heap c).state ≡ waiting
      → is_held c (claim_all worker_id now_ms (suc room) heap (c ∷ cs)).1 ≡ true
  claim_all_first room heap c cs e = rw (step_won room heap c cs e) (ground arith)

  pub claim_all-Claims :
      (room : ℕ) (heap : Heap) (cs : List Ref)
      → Claims room heap cs (claim_all worker_id now_ms room heap cs)
  unfolding claim_all
  claim_all-Claims room heap [] = claim_all_nil room heap
  claim_all-Claims zero heap (c ∷ cs) = claim_all_full heap (c ∷ cs)
  claim_all-Claims (suc room) heap (c ∷ cs) = elim (ℕ_discrete (heap c).state waiting) [
    | yes e ↦
        subst (Claims (suc room) heap (c ∷ cs)) (sym (step_won room heap c cs e))
          (claim_all_won room heap c cs _ e (claim_all-Claims room (won_heap room heap c cs) cs))
    | no e ↦ subst (Claims (suc room) heap (c ∷ cs)) (sym (step_lost room heap c cs e)) (
        claim_all_lost (suc room) heap c cs (write heap c (heap c)) _ e (λ r. ground arith)
          (claim_all-Claims (suc room) (write heap c (heap c)) cs))
  ]

module _ (S : ConcurrentMap) (ctx : WorkerContext) (t : Readings) (s : Shared S)
    (cs : List Ref) where
  -- The claims of one attempt.
  unfoldable pub claims : Heap × List Ref
  claims = claim_all ctx.worker_id t.claim_ms match_size s.heap cs

  pub claims-Claims : Claims ctx.worker_id t.claim_ms match_size s.heap cs claims
  unfolding claims
  claims-Claims = claim_all-Claims ctx.worker_id t.claim_ms match_size s.heap cs

pub claims_first :
    (S : ConcurrentMap) (ctx : WorkerContext) (t : Readings) (s : Shared S) (c : Ref)
    (cs : List Ref)
    → (s.heap c).state ≡ waiting
    → is_held c (claims S ctx t s (c ∷ cs)).1 ≡ true
unfolding claims
claims_first S ctx t s c cs e = claim_all_first ctx.worker_id t.claim_ms 9 s.heap c cs e
