-- ===== src/Tests/Queues.antt =====
-- src/engine/bucket.rs and src/engine/mod.rs: their theorems at concrete queues.
use matchmaker.Engine.Core.Queue.Returns.{cancel-enqueue}
use matchmaker.Engine.Core.{cancel, enqueue}
use matchmaker.Engine.Core.Queue.{IsShared, forget, enqueue_spec, cancel_spec, view}
use matchmaker.Models.Player.{Uuid}
use matchmaker.Models.Memory.{Distinct, Ref}
use matchmaker.Base.{
  none, ok, ◌+◌, u64, ◌⊎◌, ◌≢◌, In, length, ◌≡◌, ◌≤◌, ◌<◌, refl, some, List, [], arith,
}
use matchmaker.Engine.Bucket
use matchmaker.Engine.Bucket.Scan.{range_scan_exact}
use matchmaker.Engine.Core.Queue.Enqueue.{enqueue-view}
use matchmaker.Engine.Core.Queue.Cancel.{cancel-view}
use matchmaker.Engine.Core.Queue.Race.{one_call, enters, Call, race_outcome}
use matchmaker.Tests.AssocMap.{assoc_map}
use matchmaker.Tests.Fixtures.{two_core, ten_core, two_core-IsShared, ten_core-IsShared}

range_scan_exact_example :
    (x : List Ref) × Bucket.range_scan assoc_map ten_core.shared.heap [] ten_core.shared.pool 1000
        1050
      ≡ some x
    × Bucket.Order.IsByAge ten_core.shared.heap x
    × Distinct x
    × length x ≤ Bucket.max_candidates_per_scan
    × ((r : Ref)
        → In r x
        → Bucket.Scan.Matches assoc_map ten_core.shared.heap ten_core.shared.pool 1000 1050 r)
    × (length x < Bucket.max_candidates_per_scan
        → (r : Ref)
        → Bucket.Scan.Matches assoc_map ten_core.shared.heap ten_core.shared.pool 1000 1050 r
        → In r x)
    × ((r q : Ref)
        → In r x
        → Bucket.Scan.Matches assoc_map ten_core.shared.heap ten_core.shared.pool 1000 1050 q
        → ¬ In q x
        → Bucket.Lowest.Below (Bucket.key_of assoc_map ten_core.shared.heap) r q)
range_scan_exact_example =
    range_scan_exact assoc_map ten_core.shared.heap [] ten_core.shared.pool ten_core-IsShared.agrees
      1000 1050 (omega arith) (omega arith)

enqueue-view_example :
    ((j : Uuid)
      → view assoc_map (enqueue assoc_map 3000000 13 1025 two_core).0.shared j
        ≡ (enqueue_spec 3000000 13 1025 (view assoc_map two_core.shared)).0 j)
    × forget (enqueue assoc_map 3000000 13 1025 two_core).1
      ≡ (enqueue_spec 3000000 13 1025 (view assoc_map two_core.shared)).1
enqueue-view_example = enqueue-view assoc_map 3000000 13 1025 two_core two_core-IsShared

cancel-view_example :
    ((j : Uuid)
      → view assoc_map (cancel assoc_map 11 two_core).0.shared j
        ≡ (cancel_spec 11 (view assoc_map two_core.shared)).0 j)
    × (cancel assoc_map 11 two_core).1 ≡ (cancel_spec 11 (view assoc_map two_core.shared)).1
cancel-view_example = cancel-view assoc_map 11 two_core two_core-IsShared

abbrev first_call : Call
first_call = record { now = 3000000; id = 30; skill_rating = 1000 }

abbrev second_call : Call
second_call = record { now = 3000001; id = 30; skill_rating = 1200 }

race_outcome_example :
    first_call.id ≢ second_call.id
      × enters assoc_map second_call (enters assoc_map first_call two_core)
        ≡ one_call assoc_map second_call (one_call assoc_map first_call two_core)
    ⊎ first_call.id ≡ second_call.id
      × (enters assoc_map second_call
          (enters assoc_map first_call two_core)).shared.metrics.current_queue_size
        ≡ u64 (
            Bucket.len assoc_map
              (enters assoc_map second_call (enters assoc_map first_call two_core)).shared.pool
            + 1)
      × ¬ IsShared assoc_map
          (enters assoc_map second_call (enters assoc_map first_call two_core)).shared
unfolding matchmaker.Engine.Core.enqueue matchmaker.Engine.Core.new matchmaker.Engine.Bucket.new
    matchmaker.Engine.Bucket.insert
race_outcome_example =
    race_outcome assoc_map two_core first_call second_call two_core-IsShared refl refl

two_core-free : Bucket.get assoc_map 13 two_core.shared.pool ≡ none
unfolding enqueue matchmaker.Engine.Core.new Bucket.new Bucket.insert
two_core-free = refl

cancel-enqueue_example :
    (forget (enqueue assoc_map 3000000 13 1025 two_core).1 ≡ ok tt)
    × ((cancel assoc_map 13 (enqueue assoc_map 3000000 13 1025 two_core).0).1 ≡ ok tt)
    × ((j : Uuid)
        → view assoc_map
            (cancel assoc_map 13 (enqueue assoc_map 3000000 13 1025 two_core).0).0.shared
            j
          ≡ view assoc_map two_core.shared j)
    × ((cancel assoc_map 13
          (enqueue assoc_map 3000000 13 1025 two_core).0).0.shared.metrics.current_queue_size
        ≡ two_core.shared.metrics.current_queue_size)
cancel-enqueue_example =
    cancel-enqueue assoc_map 3000000 13 1025 two_core two_core-IsShared (omega arith) (omega arith)
      two_core-free
