-- ===== src/Workers/Rounds.antt =====
-- src/workers/mod.rs: what the loop of the Reaper recovers until the shutdown.
use matchmaker.Base.{
  ℕ, ◌≡◌, refl, ◌∙◌, Bool, true, false, ◌||◌, List, [], ◌∷◌, some, if◌then◌else◌, arith,
}
use matchmaker.Models.Player.{Player}
use matchmaker.Models.Memory.{Ref}
use matchmaker.Engine.Bucket.Store.{ConcurrentMap}
use matchmaker.Engine.Bucket.{get}
use matchmaker.Engine.Matcher.{Shared}
use matchmaker.Engine.Core.Queue.{IsShared}
use matchmaker.Workers.{reaper_tick, run_reaper}
use matchmaker.Workers.Reaper.{
  is_stale, recovered, recovered-is_stale, reaper_tick_exact, reaper_tick-IsShared,
  reaper_tick-SameAccounts,
}

-- Whether the loop comes to a shutdown.
abbrev pub stops : List (Bool × ℕ) → Bool
stops [] = false
stops ((shutdown, now_ms) ∷ rest) = shutdown || stops rest

-- Whether the claim of a player is stale at a tick before the first shutdown.
abbrev pub turns_stale : ℕ → List (Bool × ℕ) → Player → Bool
turns_stale timeout [] p = false
turns_stale timeout ((true, now_ms) ∷ rest) p = false
turns_stale timeout ((false, now_ms) ∷ rest) p =
    is_stale timeout now_ms p || turns_stale timeout rest p

recovered-turns_stale :
    (timeout : ℕ) (rounds : List (Bool × ℕ)) (p : Player)
    → turns_stale timeout rounds (recovered p) ≡ false
recovered-turns_stale timeout [] p = refl
recovered-turns_stale timeout ((true, now_ms) ∷ rest) p = refl
recovered-turns_stale timeout ((false, now_ms) ∷ rest) p =
    ground (arith, recovered-is_stale timeout now_ms p, recovered-turns_stale timeout rest p)

module _ (S : ConcurrentMap) (timeout : ℕ) where
  -- On a pool whose structures and counters agree, with no other task in between, the loop of the Reaper makes a
  -- player of the pool Waiting, with its claim forgotten, if the claim is stale at some tick before the first
  -- shutdown, and leaves it as it is otherwise; it is left exactly if a shutdown comes, and the
  -- pool and the counters still agree.
  pub run_reaper_exact :
      (s : Shared S) (rounds : List (Bool × ℕ))
      → IsShared S s
      → ((run_reaper S timeout s rounds).1 ≡ stops rounds)
        × IsShared S (run_reaper S timeout s rounds).0
        × ((r : Ref)
            → get S (s.heap r).id s.pool ≡ some r
            → (run_reaper S timeout s rounds).0.heap r
              ≡ (if turns_stale timeout rounds (s.heap r) then recovered (s.heap r) else s.heap r))
  unfolding run_reaper
  run_reaper_exact s [] v = (refl, v, λ r e. refl)
  run_reaper_exact s ((true, now_ms) ∷ rest) v = (refl, v, λ r e. refl)
  run_reaper_exact s ((false, now_ms) ∷ rest) v =
      let s' = reaper_tick S timeout now_ms s in
      let same = reaper_tick-SameAccounts S timeout now_ms s v in
      let (left, shared, later) =
        run_reaper_exact s' rest (reaper_tick-IsShared S timeout now_ms s v) in
      (
        left,
        shared,
        λ r e.
            let here = (reaper_tick_exact S timeout now_ms s v r).0 e in
            let kept : get S (s'.heap r).id s'.pool ≡ some r = rw (same.keys.ids r, same.pool) e in
            later r kept ∙ ground (arith, here, recovered-turns_stale timeout rest (s.heap r)),
      )
