-- ===== src/Workers/Reaper.antt =====
-- src/workers/mod.rs: which claims the Reaper takes back.
use matchmaker.Base.{
  ◌||◌, ℕ, ◌-◌, ◌≡◌, ◌≢◌, refl, ap, ◌∙◌, true, false, List, [], ◌∷◌, arith, Bool-cases, some,
  if◌then◌else◌, ltb, ◌&&◌, not, ◌==◌, Bool,
}
use matchmaker.Models.Player.{Player, claimed, waiting}
use matchmaker.Models.Memory.{Ref, Heap, is_held, write}
use matchmaker.Engine.Bucket.Store.{ConcurrentMap}
use matchmaker.Engine.Bucket.{get, all_players}
use matchmaker.Engine.Bucket.Seeds.{refs-pooled, pooled-refs}
use matchmaker.Engine.Matcher.{Shared}
use matchmaker.Engine.Matcher.Forming.{In-is_held, is_held-In}
use matchmaker.Engine.Core.Queue.{IsShared}
use matchmaker.Engine.Core.Accounts.{SameAccounts, IsShared-SameAccounts}
use matchmaker.Workers.{reap, reap_all, reaper_tick}

-- A claim with a timestamp, older than the timeout.
unfoldable pub is_stale : ℕ → ℕ → Player → Bool
is_stale timeout now_ms p =
    p.state == claimed && (not (p.claim_timestamp == 0) && ltb timeout (now_ms - p.claim_timestamp))

-- The player as the Reaper leaves it.
abbrev pub recovered : Player → Player
recovered p = record p { state = waiting; claimed_by = 0; claim_timestamp = 0 }

reap-is_stale :
    (timeout now_ms : ℕ) (p : Player)
    → reap timeout now_ms p
      ≡ (if is_stale timeout now_ms p then (recovered p, true) else (p, false))
unfolding reap is_stale
reap-is_stale timeout now_ms p = ground arith

pub recovered-is_stale :
    (timeout now_ms : ℕ) (p : Player) → is_stale timeout now_ms (recovered p) ≡ false
unfolding is_stale
recovered-is_stale timeout now_ms p = refl

module _ (timeout now_ms : ℕ) where
  abbrev swept : Bool → Player → Player
  swept reached p = if reached && is_stale timeout now_ms p then recovered p else p

  swept-swept :
      (here there : Bool) (p : Player) → swept there (swept here p) ≡ swept (here || there) p
  swept-swept here there p = ground (arith, recovered-is_stale timeout now_ms p)

  write-swept :
      (heap : Heap) (q r : Ref)
      → write heap q (reap timeout now_ms (heap q)).0 r ≡ swept (q == r) (heap r)
  write-swept heap q r = ground (arith, reap-is_stale timeout now_ms (heap q))

  pub reap_all-writes :
      (rs : List Ref) (n : ℕ) (heap : Heap) (r : Ref)
      → (reap_all timeout now_ms n heap rs).0 r ≡ swept (is_held r rs) (heap r)
  unfolding reap_all
  reap_all-writes [] n heap r = refl
  reap_all-writes (q ∷ qs) n heap r =
      reap_all-writes qs _ (write heap q (reap timeout now_ms (heap q)).0) r
      ∙ ap (swept (is_held r qs)) (write-swept heap q r)
      ∙ swept-swept (q == r) (is_held r qs) (heap r)

module _ (S : ConcurrentMap) (timeout now_ms : ℕ) (s : Shared S) (v : IsShared S s) where
  -- On a pool whose structures and counters agree, a scan of the Reaper makes Waiting exactly the
  -- players of the pool whose claim is stale: Claimed, with a timestamp that is not 0, longer ago
  -- than the timeout. No other player changes.
  pub reaper_tick_exact :
      (r : Ref)
      → ((get S (s.heap r).id s.pool ≡ some r)
          → (reaper_tick S timeout now_ms s).heap r
            ≡ (if is_stale timeout now_ms (s.heap r) then recovered (s.heap r) else s.heap r))
        × ((get S (s.heap r).id s.pool ≢ some r)
            → (reaper_tick S timeout now_ms s).heap r ≡ s.heap r)
  unfolding reaper_tick
  reaper_tick_exact r = (
    λ e.
        reap_all-writes timeout now_ms (all_players S s.pool) 0 s.heap r
        ∙ ap (λ b. swept timeout now_ms b (s.heap r))
            (In-is_held r _ (pooled-refs S s.heap s.pool v.agrees r e)),
    λ ne.
        reap_all-writes timeout now_ms (all_players S s.pool) 0 s.heap r
        ∙ ap (λ b. swept timeout now_ms b (s.heap r)) {y = false}
            (ground (
              arith,
              Bool-cases (is_held r (all_players S s.pool)),
              ne,
              is_held-In r (all_players S s.pool),
              refs-pooled S s.heap s.pool v.agrees r,
            )),
  )

  -- On a pool whose structures and counters agree, a second scan at the same time changes no
  -- player.
  pub reaper_tick_idempotent :
      (r : Ref)
      → (reaper_tick S timeout now_ms (reaper_tick S timeout now_ms s)).heap r
        ≡ (reaper_tick S timeout now_ms s).heap r
  unfolding reaper_tick
  reaper_tick_idempotent r =
      reap_all-writes timeout now_ms (all_players S s.pool) 0 _ r
      ∙ ap (swept timeout now_ms (is_held r (all_players S s.pool)))
          (reap_all-writes timeout now_ms (all_players S s.pool) 0 s.heap r)
      ∙ swept-swept timeout now_ms _ _ (s.heap r)
      ∙ ground (arith, reap_all-writes timeout now_ms (all_players S s.pool) 0 s.heap r)

  pub reaper_tick-SameAccounts : SameAccounts S s (reaper_tick S timeout now_ms s)
  unfolding reaper_tick
  reaper_tick-SameAccounts = record {
    keys = record {
      ids = λ r. ground (arith, reap_all-writes timeout now_ms (all_players S s.pool) 0 s.heap r);
      ratings =
          λ r. ground (arith, reap_all-writes timeout now_ms (all_players S s.pool) 0 s.heap r);
    };
    live = λ r h. ground (arith, reap_all-writes timeout now_ms (all_players S s.pool) 0 s.heap r);
    pool = refl;
    next = refl;
    enqueued = ground arith;
    cancelled = ground arith;
    matched = ground arith;
    queued = ground arith;
  }

  -- A scan keeps the pool well-formed and the counters right.
  pub reaper_tick-IsShared : IsShared S (reaper_tick S timeout now_ms s)
  reaper_tick-IsShared = IsShared-SameAccounts S reaper_tick-SameAccounts v
