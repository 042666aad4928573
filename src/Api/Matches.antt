-- ===== src/Api/Matches.antt =====
-- src/api/mod.rs: what `GET /matches` answers, over the whole run of the service.
use mathlib.Core.List.{reverse}
use matchmaker.Base.{ℕ, ◌≡◌, ◌∙◌, ap, Option, take, min, max, length, u64}
use matchmaker.Models.Player.{Instant}
use matchmaker.Models.Memory.{Heap}
use matchmaker.Config.{Config}
use matchmaker.Engine.Bucket.Store.{ConcurrentMap}
use matchmaker.Engine.Matcher.{match_history_limit}
use matchmaker.Engine.Matcher.Newest.{newest-last_of}
use matchmaker.Engine.Core.{recent_matches}
use matchmaker.Workers.System.{System, Reachable}
use matchmaker.Workers.History.{formed_in, Reachable-IsRecorded}
use matchmaker.Api.{limit_of, matches_handler}

module _ (S : ConcurrentMap) where
  -- After any calls of `enqueue` and `cancel`, attempts of workers and scans of the Reaper that follow each other as wholes, from the
  -- start of the service, `GET /matches` answers the newest of all matches formed
  -- so far, newest first: as many as asked for (20 if no number is given, one if it is 0), but at
  -- most 10000; and their total number, modulo 2^64.
  pub matches_handler_newest :
      {heap : Heap} {now : Instant} {config : Config} {sys : System S}
      (run : Reachable S heap now config sys) (limit : Option ℕ)
      → ((matches_handler S limit sys.core).matches
          ≡ take (min (max (limit_of limit) 1) match_history_limit) (reverse (formed_in S run)))
        × (u64 (matches_handler S limit sys.core).total_matches_formed
            ≡ u64 (length (formed_in S run)))
  unfolding matches_handler recent_matches
  matches_handler_newest run limit = (
    ap (λ ms. take (max (limit_of limit) 1) (reverse ms)) (Reachable-IsRecorded S run).last
        ∙ newest-last_of (max (limit_of limit) 1) match_history_limit (formed_in S run),
    (Reachable-IsRecorded S run).counted,
  )
