-- ===== src/Models/Player.antt =====
-- src/models/mod.rs: `player_state`, `Player` and its methods. A method returns the player after it.
-- An `Instant` is a number of nanoseconds since an origin, and each reading of a clock is an
-- argument; a UUID is the 128-bit number of its bytes.
pub mod Lifecycle
pub mod Claims
use matchmaker.Base.{
  ℕ, ◌-◌, ◌/◌, ◌≡◌, Bool, true, false, Option, none, some, u64, ◌==◌, if◌then◌else◌,
}

abbrev pub Uuid : Type 0
Uuid = ℕ

abbrev pub Instant : Type 0
Instant = ℕ

abbrev pub waiting : ℕ
waiting = 0

abbrev pub claimed : ℕ
claimed = 1

abbrev pub matched : ℕ
matched = 2

abbrev pub evicted : ℕ
evicted = 3

pub record Player : Type 0 where
  pub id : Uuid
  pub skill_rating : ℕ
  pub join_timestamp : Instant
  pub state : ℕ
  pub claimed_by : ℕ
  pub claim_timestamp : ℕ
  pub matched_at : Option Instant

abbrev pub new : Uuid → ℕ → Instant → Player
new id skill_rating now = record {
  id = id;
  skill_rating = skill_rating;
  join_timestamp = now;
  state = waiting;
  claimed_by = 0;
  claim_timestamp = 0;
  matched_at = none;
}

-- The player after a compare-exchange of its state, and whether it succeeded.
abbrev pub compare_exchange : ℕ → ℕ → Player → Player × Bool
compare_exchange current next p =
    if p.state == current then (record p { state = next }, true) else (p, false)

abbrev pub is_waiting : Player → Bool
is_waiting p = p.state == waiting

-- `Instant::elapsed().as_millis() as u64`, with `now` the reading of the clock; an instant that
-- lies ahead has elapsed by zero.
abbrev pub elapsed_ms : Instant → Instant → ℕ
elapsed_ms now since = u64 ((now - since) / 1000000)

abbrev store_claim : ℕ → ℕ → Player × Bool → Player × Bool
store_claim worker_id now_ms (p, true) =
    (record p { claimed_by = worker_id; claim_timestamp = now_ms }, true)
store_claim worker_id now_ms (p, false) = (p, false)

unfoldable pub try_claim : ℕ → ℕ → Player → Player × Bool
try_claim worker_id now_ms p = store_claim worker_id now_ms (compare_exchange waiting claimed p)

unfoldable pub release_claim : Player → Player
release_claim p =
    let cleared = record p { claimed_by = 0; claim_timestamp = 0 } in
    (compare_exchange claimed waiting cleared).0

unfoldable pub mark_matched : Instant → Player → Player
mark_matched now p =
    let stamped = record p { matched_at = some now } in (compare_exchange claimed matched stamped).0

unfoldable pub try_evict : Player → Player × Bool
try_evict p = compare_exchange waiting evicted p

pub wait_ms : Instant → Player → ℕ
wait_ms now p = elapsed_ms now p.join_timestamp

abbrev pub matched_wait_ms : Player → Option ℕ
matched_wait_ms p = elim p.matched_at [
  | none ↦ none
  | some at ↦ some (elapsed_ms at p.join_timestamp)
]
