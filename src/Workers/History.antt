-- ===== src/Workers/History.antt =====
-- src/engine/matcher.rs and src/engine/mod.rs: the match history over the whole run of the service.
use matchmaker.Base.{ℕ, refl, List, [], ◌++◌, arith}
use matchmaker.Models.Player.{Instant}
use matchmaker.Models.Memory.{Heap}
use matchmaker.Models.Match.{Match}
use matchmaker.Config.{Config}
use matchmaker.Engine.Bucket.Store.{ConcurrentMap}
use matchmaker.Engine.Matcher.{Shared, match_history_limit}
use matchmaker.Engine.Core.{new, MatchmakerCore, make_worker_context, enqueue, cancel}
use matchmaker.Engine.Core.Queue.{IsShared}
use matchmaker.Workers.{reaper_tick}
use matchmaker.Workers.System.{
  enqueues, cancels, attempts, reaps, started, later, System, Step, Reachable, Reachable-IsShared,
}
use matchmaker.Workers.Records.{IsRecorded, SameRecord, quiet, attempt_match-IsRecorded, matches_of}

module _ (S : ConcurrentMap) where
  abbrev pub matches_of_step : {sys next : System S} → Step S sys next → List Match
  matches_of_step (enqueues now id skill_rating wide) = []
  matches_of_step (cancels id) = []
  matches_of_step (attempts i t {r = r} e) = matches_of r
  matches_of_step (reaps now_ms) = []

  -- All matches formed in a run, in order.
  abbrev pub formed_in :
      {heap : Heap} {now : Instant} {config : Config} {sys : System S}
      → Reachable S heap now config sys
      → List Match
  formed_in started = []
  formed_in (later run st) = formed_in run ++ matches_of_step st

  enqueue-SameRecord :
      (now : Instant) (id skill_rating : ℕ) (core : MatchmakerCore S)
      → SameRecord S core.shared (enqueue S now id skill_rating core).0.shared
  unfolding enqueue
  enqueue-SameRecord now id skill_rating core = record {
    history = ground arith;
    created = ground arith;
    matched = ground arith;
    delta_sum = ground arith;
    delta_count = ground arith;
    spread_sum = ground arith;
    spread_count = ground arith;
  }

  cancel-SameRecord :
      (id : ℕ) (core : MatchmakerCore S) → SameRecord S core.shared (cancel S id core).0.shared
  unfolding cancel
  cancel-SameRecord id core = record {
    history = ground arith;
    created = ground arith;
    matched = ground arith;
    delta_sum = ground arith;
    delta_count = ground arith;
    spread_sum = ground arith;
    spread_count = ground arith;
  }

  reaper_tick-SameRecord :
      (timeout now_ms : ℕ) (s : Shared S) → SameRecord S s (reaper_tick S timeout now_ms s)
  unfolding reaper_tick
  reaper_tick-SameRecord timeout now_ms s = record {
    history = ground arith;
    created = ground arith;
    matched = ground arith;
    delta_sum = ground arith;
    delta_count = ground arith;
    spread_sum = ground arith;
    spread_count = ground arith;
  }

  Step-IsRecorded :
      {sys next : System S} (formed : List Match) (st : Step S sys next)
      → IsShared S sys.core.shared
      → IsRecorded S match_history_limit formed sys.core.shared
      → IsRecorded S match_history_limit (formed ++ matches_of_step st) next.core.shared
  Step-IsRecorded {sys} formed (enqueues now id skill_rating wide) v h =
      quiet S (enqueue-SameRecord now id skill_rating sys.core) h
  Step-IsRecorded {sys} formed (cancels id) v h = quiet S (cancel-SameRecord id sys.core) h
  Step-IsRecorded {sys} formed (attempts i t e) v h =
      attempt_match-IsRecorded S (make_worker_context S i sys.core) t sys.core.shared
        (sys.workers i) v formed h e
  Step-IsRecorded {sys} formed (reaps now_ms) v h =
      quiet S (reaper_tick-SameRecord sys.core.config.stale_claim_timeout_ms now_ms sys.core.shared)
        h

  -- After any calls of `enqueue` and `cancel`, attempts of workers and scans of the Reaper that follow each other as wholes, from the
  -- start of the service, the match history is the last 10000 of all matches
  -- formed so far, in order; and modulo 2^64 `total_matches_created` is their number,
  -- `total_players_matched` ten times that, and the sums and counts of team differences and of skill
  -- spreads are the sums and counts over them; no difference is over 30000 and no spread over 3000.
  pub Reachable-IsRecorded :
      {heap : Heap} {now : Instant} {config : Config} {sys : System S}
      (run : Reachable S heap now config sys)
      → IsRecorded S match_history_limit (formed_in run) sys.core.shared
  unfolding new
  Reachable-IsRecorded started = record {
    last = refl;
    counted = refl;
    players = refl;
    small = tt;
    deltas = refl;
    deltas_counted = refl;
    spreads = refl;
    spreads_counted = refl;
  }
  Reachable-IsRecorded (later run st) =
      Step-IsRecorded (formed_in run) st (Reachable-IsShared S run) (Reachable-IsRecorded run)
