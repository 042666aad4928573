-- ===== src/Tests/Fixtures.antt =====
-- Ten players in the queue, a worker and a configuration.
use matchmaker.Base.{◌+◌, ◌*◌, arith}
use matchmaker.Models.Player
use matchmaker.Models.Player.{Player}
use matchmaker.Models.Memory.{Heap}
use matchmaker.Metrics
use matchmaker.Config.{Config}
use matchmaker.Engine.Matcher.{WorkerContext, Readings}
use matchmaker.Engine.Core.{MatchmakerCore, new, enqueue, make_worker_context}
use matchmaker.Engine.Core.Queue.{IsShared, new-IsShared}
use matchmaker.Engine.Core.Queue.Enqueue.{enqueue-IsShared}
use matchmaker.Tests.AssocMap.{assoc_map}

-- The defaults of `from_env`.
abbrev pub defaults : Config
defaults = record {
  server_port = 8080;
  worker_count = 4;
  worker_tick_ms = 50;
  stale_claim_timeout_ms = 500;
  relaxation_stage_1_ms = 5000;
  relaxation_stage_2_ms = 15000;
  relaxation_stage_3_ms = 30000;
  relaxation_stage_4_ms = 60000;
  relaxation_stage_1_delta = 50;
  relaxation_stage_2_delta = 100;
  relaxation_stage_3_delta = 200;
  relaxation_stage_4_delta = 400;
  relaxation_stage_5_delta = 9999;
}

-- No object is in use.
abbrev pub no_players : Heap
no_players r = Player.new 0 0 0

abbrev pub empty_core : MatchmakerCore assoc_map
empty_core = new assoc_map no_players 0 defaults Metrics.new

abbrev pub two_core : MatchmakerCore assoc_map
two_core = (enqueue assoc_map 2000000 12 1020 (enqueue assoc_map 1000000 11 1000 empty_core).0).0

abbrev pub ten_core : MatchmakerCore assoc_map
ten_core =
    (enqueue assoc_map 10000000 20 1090
      (enqueue assoc_map 9000000 19 1070
        (enqueue assoc_map 8000000 18 1060
          (enqueue assoc_map 7000000 17 1050
            (enqueue assoc_map 6000000 16 1040
              (enqueue assoc_map 5000000 15 1035
                (enqueue assoc_map 4000000 14 1030
                  (enqueue assoc_map 3000000 13 1025 two_core).0).0).0).0).0).0).0).0

pub empty_core-IsShared : IsShared assoc_map empty_core.shared
empty_core-IsShared = new-IsShared assoc_map no_players 0 defaults

pub two_core-IsShared : IsShared assoc_map two_core.shared
two_core-IsShared =
    enqueue-IsShared assoc_map 2000000 12 1020 _
      (enqueue-IsShared assoc_map 1000000 11 1000 empty_core empty_core-IsShared (omega arith))
      (omega arith)

pub ten_core-IsShared : IsShared assoc_map ten_core.shared
ten_core-IsShared =
    enqueue-IsShared assoc_map 10000000 20 1090 _
      (enqueue-IsShared assoc_map 9000000 19 1070 _
        (enqueue-IsShared assoc_map 8000000 18 1060 _
          (enqueue-IsShared assoc_map 7000000 17 1050 _
            (enqueue-IsShared assoc_map 6000000 16 1040 _
              (enqueue-IsShared assoc_map 5000000 15 1035 _
                (enqueue-IsShared assoc_map 4000000 14 1030 _
                  (enqueue-IsShared assoc_map 3000000 13 1025 two_core two_core-IsShared
                    (omega arith))
                  (omega arith))
                (omega arith))
              (omega arith))
            (omega arith))
          (omega arith))
        (omega arith))
      (omega arith)

abbrev pub worker_1 : WorkerContext
worker_1 = make_worker_context assoc_map 1 ten_core

abbrev pub readings : Readings
readings = record {
  guard = 40000000000;
  bounds = 40000000000;
  stage = 40000000000;
  claim_ms = 1700000000000;
  matched = λ i. 41000000000 + i * 1000;
  late = 42000000000;
  match_id = 77;
  formed_at_unix = 1700000000;
}
