-- ===== src/Models/Player/Lifecycle.antt =====
-- src/models/mod.rs: the life of a player under any sequence of its methods.
use matchmaker.Base.{ℕ, ◌≡◌, ◌⊎◌, inl, inr, List, [], ◌∷◌, arith}
use matchmaker.Models.Player.{
  Player, Instant, waiting, claimed, matched, evicted, try_claim, release_claim, mark_matched,
  try_evict,
}

-- A call of a method that may change the player.
pub data Call : Type 0 where
  claims : (worker_id now_ms : ℕ) → Call
  releases : Call
  matches : (now : Instant) → Call
  evicts : Call

abbrev pub call : Call → Player → Player
call (claims worker_id now_ms) p = (try_claim worker_id now_ms p).0
call releases p = release_claim p
call (matches now) p = mark_matched now p
call evicts p = (try_evict p).0

abbrev pub calls : List Call → Player → Player
calls [] p = p
calls (c ∷ cs) p = calls cs (call c p)

-- The arrows of the life cycle, from `s` to `t`.
abbrev pub Arrow : ℕ → ℕ → Type 0
Arrow s t =
    (t ≡ s)
    ⊎ ((s ≡ waiting) × ((t ≡ claimed) ⊎ (t ≡ evicted)))
    ⊎ ((s ≡ claimed) × ((t ≡ waiting) ⊎ (t ≡ matched)))

-- What no method writes.
abbrev pub SamePerson : Player → Player → Type 0
SamePerson p q =
    (q.id ≡ p.id) × (q.skill_rating ≡ p.skill_rating) × (q.join_timestamp ≡ p.join_timestamp)

-- Whatever method is called, the state stays or goes along an arrow of the life cycle (Waiting to
-- Claimed or Evicted, Claimed to Waiting or Matched), and the identifier, the rating and the time
-- of joining stay.
pub call-Arrow : (c : Call) (p : Player) → Arrow p.state (call c p).state × SamePerson p (call c p)
unfolding try_claim release_claim mark_matched try_evict
call-Arrow (claims w t) p = ground arith
call-Arrow releases p = ground arith
call-Arrow (matches now) p = ground arith
call-Arrow evicts p = ground arith

call_ended :
    (c : Call) (p : Player) (s : ℕ)
    → (s ≡ matched) ⊎ (s ≡ evicted)
    → p.state ≡ s
    → (call c p).state ≡ s
call_ended c p s (inl h) e = ground (arith, call-Arrow c p)
call_ended c p s (inr h) e = ground (arith, call-Arrow c p)

-- A player that is Matched or Evicted stays so, whatever methods are called in whatever order.
pub calls_ended :
    (cs : List Call) (p : Player) (s : ℕ)
    → (s ≡ matched) ⊎ (s ≡ evicted)
    → p.state ≡ s
    → (calls cs p).state ≡ s
calls_ended [] p s h e = e
calls_ended (c ∷ cs) p s h e = calls_ended cs (call c p) s h (call_ended c p s h e)
