-- ===== src/Models/Player/Claims.antt =====
-- src/models/mod.rs: who wins a race for a player, and how a claim is given back.
use matchmaker.Base.{ℕ, ◌≡◌, ◌≢◌, refl, true, false, List, [], ◌∷◌, arith, if◌then◌else◌}
use matchmaker.Models.Player.{Player, waiting, claimed, try_claim, release_claim}

-- The workers that try to claim a player, in the order in which their compare-exchanges land, and
-- those among them that win.
abbrev pub winners : ℕ → List ℕ → Player → List ℕ
winners now_ms [] p = []
winners now_ms (w ∷ ws) p =
    let rest = winners now_ms ws (try_claim w now_ms p).0 in
    if (try_claim w now_ms p).1 then w ∷ rest else rest

abbrev pub after_race : ℕ → List ℕ → Player → Player
after_race now_ms [] p = p
after_race now_ms (w ∷ ws) p = after_race now_ms ws (try_claim w now_ms p).0

winners_none :
    (now_ms : ℕ) (ws : List ℕ) (p : Player)
    → p.state ≢ waiting
    → (winners now_ms ws p ≡ []) × (after_race now_ms ws p ≡ p)
unfolding try_claim
winners_none now_ms [] p h = (refl, refl)
winners_none now_ms (w ∷ ws) p h = ground (arith, winners_none now_ms ws p h)

-- Of the workers that race for a Waiting player exactly the first wins; the player is Claimed, by
-- that worker and at its time.
pub winners_first :
    (now_ms w : ℕ) (ws : List ℕ) (p : Player)
    → p.state ≡ waiting
    → (winners now_ms (w ∷ ws) p ≡ w ∷ [])
      × (after_race now_ms (w ∷ ws) p
          ≡ record p { state = claimed; claimed_by = w; claim_timestamp = now_ms })
unfolding try_claim
winners_first now_ms w ws p h = ground (
  arith,
  winners_none now_ms ws (record p { state = claimed; claimed_by = w; claim_timestamp = now_ms }),
)

-- Who gives a claim back leaves an unclaimed player as it was before the claim, and a claim that
-- fails changes nothing.
release_claim-try_claim :
    (w now_ms : ℕ) (p : Player)
    → p.claimed_by ≡ 0
    → p.claim_timestamp ≡ 0
    → ((try_claim w now_ms p).1 ≡ true → release_claim (try_claim w now_ms p).0 ≡ p)
      × ((try_claim w now_ms p).1 ≡ false → (try_claim w now_ms p).0 ≡ p)
unfolding try_claim release_claim
release_claim-try_claim w now_ms p b t = (λ won. ground arith, λ lost. ground arith)
