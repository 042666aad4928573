-- ===== src/Workers/Served.antt =====
-- src/workers/mod.rs: the worker loop serves the player who waits longest.
use matchmaker.Base.{
  ◌≡◌, ◌≤◌, ◌<◌, ◌↔◌, inl, inr, ◌∙◌, ap, true, false, some, List, ◌∷◌, [], arith, length, Any,
}
use matchmaker.Models.Player.{matched}
use matchmaker.Models.Memory.{Ref, is_held, Distinct}
use matchmaker.Config.Valid.{IsConsistent}
use matchmaker.Engine.Bucket.Store.{ConcurrentMap}
use matchmaker.Engine.Bucket.{max_candidates_per_scan}
use matchmaker.Engine.Bucket.Index.{Key, RatingIndex, Entry}
use matchmaker.Engine.Balancer.{match_size}
use matchmaker.Engine.Matcher.{WorkerContext, WorkerState, Readings, Shared, reset}
use matchmaker.Engine.Matcher.Attempt.{Primary}
use matchmaker.Engine.Matcher.Attempt.Served.{HasWaited, Reached, is_given_up, attempt_match_served}
use matchmaker.Engine.Matcher.Starved.{IsUnlisted}
use matchmaker.Engine.Core.Queue.{IsShared}
use matchmaker.Engine.Core.Accounts.{attempt_match-IsShared}
use matchmaker.Workers.{Ready, select, attempt, run_worker}
use matchmaker.Workers.System.{has_shutdown, run_worker_total}
use matchmaker.Workers.Starved.{run_worker-starves}

Any-Entry : (q : Ref) (m : RatingIndex) → Any (λ e. e.1 ≡ q) m → (k : Key) × Entry k q m
Any-Entry q [] i = absurd i
Any-Entry q ((k, r) ∷ m) (inl e) = (k, inl (ap (λ x. (k, x)) e))
Any-Entry q (x ∷ m) (inr i) = let (k, e) = Any-Entry q m i in (k, inr e)

module _ (S : ConcurrentMap) where
  -- A Matched player has no entry in the index.
  matched-IsUnlisted :
      (s : Shared S) (p : Ref) → IsShared S s → (s.heap p).state ≡ matched → IsUnlisted S p s.pool
  matched-IsUnlisted s p v done i =
      let ((rating, id), e) = Any-Entry p s.pool.index i in
      ground (arith, v.live id p (v.agrees.listed rating id p e).0, done)

  -- On a state whose pool and counters agree, with a consistent configuration: let a player be the
  -- oldest Waiting one, have waited to the end of stage 4, and not be one that the worker has failed on
  -- three times in a row or more. If at least ten and fewer than 200 Waiting players of the pool are
  -- within the last half-width of its rating, the worker puts the player into a match at the next
  -- wake that makes it attempt one, and the player is Matched whatever wakes come after.
  pub run_worker-serves :
      (ctx : WorkerContext) (t : Readings) (s : Shared S) (w : WorkerState) (v : IsShared S s)
      (ready : Ready) (rest : List (Ready × Readings)) (p : Ref) (ps : List Ref)
      → IsConsistent ctx.config
      → select ready ≡ attempt
      → Primary S ctx t s w v.agrees p
      → HasWaited S ctx t s w v.agrees p
      → is_given_up S ctx t s w v.agrees p ≡ false
      → Distinct ps
      → match_size ≤ length ps
      → length ps < max_candidates_per_scan
      → ((r : Ref) → (is_held r ps ≡ true) ↔ Reached S ctx t s w v.agrees p r)
      → (s' : Shared S) × (w' : WorkerState) × (run_worker S ctx s w ((ready, t) ∷ rest)
          ≡ some (s', w', has_shutdown S rest))
        × IsShared S s'
        × ((s'.heap p).state ≡ matched)
  unfolding run_worker
  run_worker-serves ctx t s w v ready rest p ps consistent awake first waited fresh d many few
        reached =
      let (s', m, done, served) =
        attempt_match_served S ctx t s w v.agrees p ps consistent waited d few reached first many
          fresh in
      let v' = attempt_match-IsShared S ctx t s w v done in
      let (s'', w'', ended, v'') = run_worker_total S ctx s' (reset w) rest v' in
      let (same, _) =
        run_worker-starves S p ctx s' s'' (reset w) w'' rest (has_shutdown S rest)
          (matched-IsUnlisted s' p v' served) ended in
      (s'', w'', rw (awake, done, run_worker) ended, v'', ap (λ q. q.state) same ∙ served)
