-- ===== src/Tests/Served.antt =====
-- src/workers/mod.rs: a worker and a queue of ten who have waited long.
use matchmaker.Base.{
  false, List, All, In-All, ap, abs_diff, ℕ, ◌≡◌, ◌≤◌, ◌↔◌, inl, inr, refl, true, some, ◌∷◌, [],
  arith, map,
}
use matchmaker.Models.Player.{matched, elapsed_ms}
use matchmaker.Models.Memory.{Ref, is_held}
use matchmaker.Config.Valid.{IsConsistent}
use matchmaker.Engine.Bucket.{get, key_of, max_skill_rating}
use matchmaker.Engine.Bucket.Index.{Entry, Key, RatingIndex}
use matchmaker.Engine.Matcher.{Readings, Shared, WorkerState, new_worker}
use matchmaker.Engine.Matcher.Attempt.Served.{Reached}
use matchmaker.Engine.Core.Queue.{IsShared}
use matchmaker.Workers.{Ready, run_worker}
use matchmaker.Workers.System.{has_shutdown}
use matchmaker.Engine.Bucket.Seeds.{Candidate}
use matchmaker.Engine.Matcher.Forming.{is_held-In}
use matchmaker.Workers.Recovered.{HaveAllWaited, reaper_tick-drains, IsLeft}
use matchmaker.Workers.{reaper_tick}
use matchmaker.Workers.Drained.{HaveWaited, run_worker-drains}
use matchmaker.Engine.Matcher.Attempt.Shrinks.{AtMost, IsRest}
use matchmaker.Engine.Bucket.Sorted.{Distinct-length}
use matchmaker.Workers.Served.{run_worker-serves}
use matchmaker.Tests.AssocMap.{assoc_map}
use matchmaker.Tests.Phases.{ten}
use matchmaker.Tests.Attempts.{ten_core-Primary, ten-Near}
use matchmaker.Tests.Service.{all_claimed, all_claimed-IsShared, woken, stopped}
use matchmaker.Tests.Fixtures.{defaults, ten_core, ten_core-IsShared, worker_1, readings}

-- 100 seconds after the start.
abbrev late_readings : Readings
late_readings = record readings {
  guard = 100000000000;
  bounds = 100000000000;
  stage = 100000000000;
}

defaults-IsConsistent : IsConsistent defaults
defaults-IsConsistent = record {
  later_2 = omega arith;
  later_3 = omega arith;
  later_4 = omega arith;
  wider_2 = omega arith;
  wider_3 = omega arith;
  wider_4 = omega arith;
  wider_5 = omega arith;
  patient = omega arith;
}

worker_1-IsConsistent : IsConsistent worker_1.config
unfolding matchmaker.Engine.Core.enqueue matchmaker.Engine.Core.new matchmaker.Engine.Bucket.new
    matchmaker.Engine.Bucket.insert matchmaker.Engine.Bucket.Index.index_insert
worker_1-IsConsistent = defaults-IsConsistent

Entry-held :
    (k : Key) (r : Ref) (m : RatingIndex) → Entry k r m → is_held r (map (λ e. e.1) m) ≡ true
Entry-held k r [] e = absurd e
Entry-held k r ((j, q) ∷ m) (inl e) = ground (arith, ap (λ x. x.1) e)
Entry-held k r (x ∷ m) (inr e) = ground (arith, Entry-held k r m e)

Entry-ten : (k : Key) (r : Ref) → Entry k r ten_core.shared.pool.index → is_held r ten ≡ true
unfolding matchmaker.Engine.Core.enqueue matchmaker.Engine.Core.new matchmaker.Engine.Bucket.new
    matchmaker.Engine.Bucket.insert matchmaker.Engine.Bucket.Index.index_insert
Entry-ten k r e = Entry-held k r ten_core.shared.pool.index e

close : (a b : ℕ) → a ≤ max_skill_rating → b ≤ max_skill_rating → abs_diff a b ≤ 9999
close a b h k = ground arith

ten-Reached :
    (r : Ref)
    → (is_held r ten ≡ true)
      ↔ Reached assoc_map worker_1 late_readings ten_core.shared new_worker ten_core-IsShared.agrees
          0 r
unfolding matchmaker.Engine.Core.enqueue matchmaker.Engine.Core.new matchmaker.Engine.Bucket.new
    matchmaker.Engine.Bucket.insert matchmaker.Engine.Bucket.Index.index_insert
ten-Reached r = (
  λ h.
      let c = (ten-Near r h).0 in
      (
        c,
        close (ten_core.shared.heap r).skill_rating (ten_core.shared.heap 0).skill_rating
            (ten_core-IsShared.agrees.valid (ten_core.shared.heap r).id r c.0).0
            (ten_core-IsShared.agrees.valid (ten_core.shared.heap 0).id 0 ten_core-Primary.0.0).0,
      ),
  λ n.
      Entry-ten (key_of assoc_map ten_core.shared.heap r) r
        (ten_core-IsShared.agrees.indexed (ten_core.shared.heap r).id r n.0.0),
)

run_worker-serves_example :
    (x : Shared assoc_map) × (x' : WorkerState) × run_worker assoc_map worker_1 ten_core.shared
        new_worker
        ((woken, late_readings) ∷ (stopped, readings) ∷ [])
      ≡ some (x, x', has_shutdown assoc_map ((stopped, readings) ∷ []))
    × IsShared assoc_map x
    × (x.heap 0).state ≡ matched
unfolding matchmaker.Engine.Core.enqueue matchmaker.Engine.Core.new matchmaker.Engine.Bucket.new
    matchmaker.Engine.Bucket.insert matchmaker.Engine.Bucket.Index.index_insert
    matchmaker.Workers.select
run_worker-serves_example =
    run_worker-serves assoc_map worker_1 late_readings ten_core.shared new_worker ten_core-IsShared
      woken ((stopped, readings) ∷ []) 0 ten worker_1-IsConsistent refl ten_core-Primary
      (omega arith) refl
      (refl, (refl, (refl, (refl, (refl, (refl, (refl, (refl, (refl, (refl, tt))))))))))
      (omega arith) (omega arith) ten-Reached

Candidate-ten :
    (r : Ref)
    → Candidate assoc_map ten_core.shared.heap ten_core.shared.pool r
    → is_held r ten ≡ true
Candidate-ten r c =
    Entry-ten (key_of assoc_map ten_core.shared.heap r) r
      (ten_core-IsShared.agrees.indexed (ten_core.shared.heap r).id r c.0)

abbrev once : List (Ready × Readings)
once = (woken, late_readings) ∷ []

abbrev IsEarly : Ref → Type 0
IsEarly r = (ten_core.shared.heap r).join_timestamp ≤ 10000000

ten-IsEarly : All IsEarly ten
unfolding matchmaker.Engine.Core.enqueue matchmaker.Engine.Core.new matchmaker.Engine.Bucket.new
    matchmaker.Engine.Bucket.insert matchmaker.Engine.Bucket.Index.index_insert
ten-IsEarly = (
  omega arith,
  (
    omega arith,
    (
      omega arith,
      (
        omega arith,
        (
          omega arith,
          (omega arith, (omega arith, (omega arith, (omega arith, (omega arith, tt))))),
        ),
      ),
    ),
  ),
)

waits_long : (joined : ℕ) → joined ≤ 10000000 → 60000 ≤ elapsed_ms 100000000000 joined
waits_long joined h = omega (arith, h)

ten-HaveWaited : HaveWaited assoc_map worker_1 ten_core.shared once
unfolding matchmaker.Engine.Core.enqueue matchmaker.Engine.Core.new matchmaker.Engine.Bucket.new
    matchmaker.Engine.Bucket.insert matchmaker.Engine.Bucket.Index.index_insert
ten-HaveWaited = (
  λ r c.
      waits_long (ten_core.shared.heap r).join_timestamp
        (In-All IsEarly ten r ten-IsEarly (is_held-In r ten (Candidate-ten r c))),
  tt,
)

worker_1-wide : max_skill_rating ≤ worker_1.config.relaxation_stage_5_delta
unfolding matchmaker.Engine.Core.enqueue matchmaker.Engine.Core.new matchmaker.Engine.Bucket.new
    matchmaker.Engine.Bucket.insert matchmaker.Engine.Bucket.Index.index_insert
worker_1-wide = omega arith

ten-AtMost : AtMost assoc_map 10 ten_core.shared
ten-AtMost qs q = Distinct-length qs ten q.distinct (λ r h. Candidate-ten r (q.waiting r h))

run_worker-drains_example :
    (s' : Shared assoc_map) × (w' : WorkerState) × (run_worker assoc_map worker_1 ten_core.shared
        new_worker once
      ≡ some (s', w', false))
    × AtMost assoc_map 9 s'
    × IsRest assoc_map ten_core.shared s'
unfolding matchmaker.Engine.Core.enqueue matchmaker.Engine.Core.new matchmaker.Engine.Bucket.new
    matchmaker.Engine.Bucket.insert matchmaker.Engine.Bucket.Index.index_insert
    matchmaker.Workers.select
run_worker-drains_example =
    run_worker-drains assoc_map worker_1 worker_1-IsConsistent worker_1-wide ten_core.shared
      new_worker once 10 ten_core-IsShared refl ten-HaveWaited ten-AtMost (omega arith)

abbrev stuck_ten : Shared assoc_map
stuck_ten = all_claimed ten_core.shared

stuck_ten-HaveAllWaited : HaveAllWaited assoc_map stuck_ten worker_1 once
unfolding matchmaker.Engine.Core.enqueue matchmaker.Engine.Core.new matchmaker.Engine.Bucket.new
    matchmaker.Engine.Bucket.insert matchmaker.Engine.Bucket.Index.index_insert
stuck_ten-HaveAllWaited = (
  λ r c. waits_long (ten_core.shared.heap r).join_timestamp (
      In-All IsEarly ten r ten-IsEarly (
        is_held-In r ten (
          Entry-ten (key_of assoc_map ten_core.shared.heap r) r
            (ten_core-IsShared.agrees.indexed (ten_core.shared.heap r).id r c)))),
  tt,
)

reaper_tick-drains_example :
    (x : Shared assoc_map) × (x' : WorkerState) × run_worker assoc_map worker_1
        (reaper_tick assoc_map 500 1700000000000 stuck_ten)
        new_worker
        once
      ≡ some (x, x', false)
    × IsLeft assoc_map 9 x
unfolding matchmaker.Engine.Core.enqueue matchmaker.Engine.Core.new matchmaker.Engine.Bucket.new
    matchmaker.Engine.Bucket.insert matchmaker.Engine.Bucket.Index.index_insert
    matchmaker.Workers.select
reaper_tick-drains_example =
    reaper_tick-drains assoc_map 500 1700000000000 stuck_ten
      (all_claimed-IsShared ten_core.shared ten_core-IsShared)
      (λ r c e. (λ z. ground arith, omega arith)) worker_1 new_worker once worker_1-IsConsistent
      worker_1-wide refl stuck_ten-HaveAllWaited (omega arith)
