-- ===== src/Workers/Service.antt =====
-- src/engine/mod.rs and src/workers/mod.rs: what the service promises its clients, with no pool, no
-- index, no claims and no workers: a queue of players, and the matches made from it.
pub mod Calm
pub mod Fair
pub mod Refines
use matchmaker.Base.{
  ◌⊎◌, ◌<◌, false, Result, ok, err, ℕ, ◌≤◌, ◌≡◌, true, Bool, Option, none, some, List, [], ◌∷◌,
  ◌++◌, map, Perm, ◌==◌, if◌then◌else◌, length, total, abs_diff,
}
use matchmaker.Models.Player.{Uuid, Instant, Player, waiting}
use matchmaker.Models.Memory.{Distinct, is_held}
use matchmaker.Models.Match.{Match}
use matchmaker.Config.{Config}
use matchmaker.Engine.Relaxation.{relaxation_window}
use matchmaker.Engine.Balancer.{match_size}
use matchmaker.Engine.Balancer.Splits.{Splits}
use matchmaker.Engine.Matcher.Forming.{snapshot_ids}
use matchmaker.Engine.Core.{EnqueueError, CancelError, not_found}
use matchmaker.Engine.Core.Queue.{View, enqueue_spec}

pub record Service : Type 0 where
  pub queue : View
  pub matches : List Match

-- The players of a match, team A first.
abbrev pub ids_in : Match → List Uuid
ids_in m = snapshot_ids m.team_a.players ++ snapshot_ids m.team_b.players

abbrev pub without : List Uuid → View → View
without ids queue j = if is_held j ids then none else queue j

abbrev rating_of : Option Player → ℕ
rating_of none = 0
rating_of (some p) = p.skill_rating

abbrev pub sum_in : View → List Uuid → ℕ
sum_in queue ids = total (map (λ j. rating_of (queue j)) ids)

-- `j` is in the queue and, at the time `at`, within the window of the player `seed`.
abbrev pub IsNear : Config → Instant → View → Player → Uuid → Type 0
IsNear config at queue seed j =
    (p : Player) × (queue j ≡ some p)
    × (abs_diff p.skill_rating seed.skill_rating ≤ relaxation_window at seed.join_timestamp config)

-- The match is made of the ten players `ids` of the queue, all of them within the window that one player
-- of the queue has at the time `at`, and its two teams are as even as these ten allow.
pub record IsFair (config : Config) (at : Instant) (queue : View) (ids : List Uuid) (m : Match)
    : Type 0 where
  pub listed : Perm (ids_in m) ids
  pub distinct : Distinct ids
  pub ten : length ids ≡ match_size
  pub five_a : length m.team_a.players ≡ 5
  pub five_b : length m.team_b.players ≡ 5
  pub anchor : Uuid
  pub seed : Player
  pub anchored : queue anchor ≡ some seed
  pub near : (j : Uuid) → is_held j ids ≡ true → IsNear config at queue seed j
  pub delta :
      m.team_delta
      ≡ abs_diff
          (sum_in queue (snapshot_ids m.team_a.players))
          (sum_in queue (snapshot_ids m.team_b.players))
  pub fairest :
      (ps bs : List Uuid)
      → Splits ids ps bs
      → length ps ≡ 5
      → m.team_delta ≤ abs_diff (sum_in queue ps) (sum_in queue bs)

-- The queue is empty, or some player of the queue has fewer than ten within its window.
abbrev pub IsShort : Config → Instant → View → Type 0
IsShort config at queue =
    ((j : Uuid) → queue j ≡ none)
    ⊎ ((anchor : Uuid) × (seed : Player) × (queue anchor ≡ some seed)
        × ((js : List Uuid)
            → Distinct js
            → ((j : Uuid) → is_held j js ≡ true → IsNear config at queue seed j)
            → length js < match_size))

-- What `cancel` promises while nobody is claimed.
abbrev pub withdraw_spec : Uuid → View → View × Result CancelError (Unit {0})
withdraw_spec id queue =
    (without (id ∷ []) queue, elim (queue id) [ none ↦ err (not_found id) | some p ↦ ok tt ])

-- What is done to the service: a call with its answer, an attempt with the time of its window and the
-- match that it forms, if any, or a scan of the Reaper.
pub data Act : Type 0 where
  enqueued :
      (now : Instant) (id : Uuid) (skill_rating : ℕ) (answer : Result EnqueueError (Unit {0})) → Act
  cancelled : (id : Uuid) (answer : Result CancelError (Unit {0})) → Act
  attempted : (at : Instant) (formed : List Match) → Act
  scanned : Act

-- What each of them does to what clients see.
pub data Move (config : Config) (v : Service) : Act → Service → Type 0 where
  joins :
      (now : Instant) (id : Uuid) (skill_rating : ℕ)
      → Move config v
          (enqueued now id skill_rating (enqueue_spec now id skill_rating v.queue).1)
          (record v { queue = (enqueue_spec now id skill_rating v.queue).0 })
  leaves :
      (id : Uuid)
      → Move config v
          (cancelled id (withdraw_spec id v.queue).1)
          (record v { queue = (withdraw_spec id v.queue).0 })
  forms :
      (at : Instant) (ids : List Uuid) (m : Match)
      → IsFair config at v.queue ids m
      → Move config v
          (attempted at (m ∷ []))
          (record { queue = without ids v.queue; matches = v.matches ++ m ∷ [] })
  fails : (at : Instant) → IsShort config at v.queue → Move config v (attempted at []) v
  rests : Move config v scanned v

-- From the empty queue, by these acts in this order.
pub data Reaches (config : Config) : List Act → Service → Type 0 where
  opened : Reaches config [] (record { queue = λ j. none; matches = [] })
  moved :
      {acts : List Act} {act : Act} {v v' : Service}
      → Reaches config acts v
      → Move config v act v'
      → Reaches config (acts ++ act ∷ []) v'
