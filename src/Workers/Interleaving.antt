-- ===== src/Workers/Interleaving.antt =====
-- src/models/mod.rs, src/engine/matcher.rs and src/workers/mod.rs: workers from phase 3 of an attempt
-- on, cancellations and the Reaper, which take turns after every single atomic operation on a player.
-- All players stand in memory from the start, as `Player::new` leaves them; the pool, whose operations
-- touch no field of a player, and the balancing are left out.
pub mod Invariant
mod Moves
mod Worker
mod Begin
mod Reaper
pub mod Safety
pub mod Alone
pub mod Attempt
pub mod Scanning
pub mod Leads
pub mod Late
pub mod Others
pub mod Turns
pub mod Recovery
pub mod Undated
pub mod Resets
pub mod Stranded
use matchmaker.Base.{
  ℕ, ◌+◌, Bool, true, false, ◌||◌, some, List, [], ◌∷◌, ◌++◌, ltb, ◌==◌, if◌then◌else◌, length, u32,
  fetch_add, saturating_sub,
}
use matchmaker.Models.Player.{Instant, waiting, claimed, matched, evicted, compare_exchange}
use matchmaker.Models.Memory.{Ref, Heap, write, is_held}
use matchmaker.Engine.Balancer.{match_size}

-- What a worker does next, with what it has read from the clock (`since`), the candidates that are
-- left and the players that it has claimed.
pub data Pc : Type 0 where
  idle : Pc
  claiming : (since : ℕ) (left held : List Ref) → Pc
  stores_worker : (since : ℕ) (r : Ref) (left held : List Ref) → Pc
  stores_time : (since : ℕ) (r : Ref) (left held : List Ref) → Pc
  releasing : (since : ℕ) (held : List Ref) → Pc
  clears_time : (since : ℕ) (r : Ref) (held : List Ref) → Pc
  gives_up : (since : ℕ) (r : Ref) (held : List Ref) → Pc
  marking : (since : ℕ) (held done : List Ref) → Pc
  sets_matched : (since : ℕ) (r : Ref) (held done : List Ref) → Pc

-- What the Reaper does next, with the time at which its scan began, the players that are left and the
-- number of those recovered.
pub data Scan : Type 0 where
  resting : Scan
  scanning : (now : ℕ) (rs : List Ref) (recovered : ℕ) → Scan
  loads_time : (now : ℕ) (r : Ref) (rs : List Ref) (recovered : ℕ) → Scan
  resets : (now : ℕ) (r : Ref) (rs : List Ref) (recovered : ℕ) → Scan
  forgets_worker : (now : ℕ) (r : Ref) (rs : List Ref) (recovered : ℕ) → Scan
  forgets_time : (now : ℕ) (r : Ref) (rs : List Ref) (recovered : ℕ) → Scan

-- After the loop over the candidates.
abbrev pub settle : ℕ → List Ref → Pc
settle since held =
    if ltb (length held) match_size then releasing since held else marking since held []

abbrev pub next_candidate : Heap → ℕ → List Ref → List Ref → Heap × Pc
next_candidate heap since [] held = (heap, settle since held)
next_candidate heap since (c ∷ left) held =
    let tried = compare_exchange waiting claimed (heap c) in
    if length held == match_size then (heap, settle since held) else (
      write heap c tried.0,
      (if tried.1 then stores_worker since c left held else claiming since left held),
    )

-- The next atomic operation of a worker: the memory, the worker and the players of the match that it
-- records, if it does. `at` is the reading of the clock in `mark_matched`.
pub act : ℕ → Instant → Heap → Pc → Heap × Pc × List Ref
act worker_id at heap idle = (heap, idle, [])
act worker_id at heap (claiming since left held) =
    let (heap', p) = next_candidate heap since left held in (heap', p, [])
act worker_id at heap (stores_worker since r left held) =
    (write heap r (record (heap r) { claimed_by = worker_id }), stores_time since r left held, [])
act worker_id at heap (stores_time since r left held) = (
  write heap r (record (heap r) { claim_timestamp = since }),
  claiming since left (held ++ r ∷ []),
  [],
)
act worker_id at heap (releasing since []) = (heap, idle, [])
act worker_id at heap (releasing since (r ∷ held)) =
    (write heap r (record (heap r) { claimed_by = 0 }), clears_time since r held, [])
act worker_id at heap (clears_time since r held) =
    (write heap r (record (heap r) { claim_timestamp = 0 }), gives_up since r held, [])
act worker_id at heap (gives_up since r held) =
    (write heap r (compare_exchange claimed waiting (heap r)).0, releasing since held, [])
act worker_id at heap (marking since [] done) = (heap, idle, done)
act worker_id at heap (marking since (r ∷ held) done) =
    (write heap r (record (heap r) { matched_at = some at }), sets_matched since r held done, [])
act worker_id at heap (sets_matched since r held done) = (
  write heap r (compare_exchange claimed matched (heap r)).0,
  marking since held (done ++ r ∷ []),
  [],
)

-- The next atomic operation of the Reaper; at the end of a scan also the number to be counted.
pub reap_next : ℕ → Heap → Scan → Heap × Scan × ℕ
reap_next timeout heap resting = (heap, resting, 0)
reap_next timeout heap (scanning now [] n) = (heap, resting, n)
reap_next timeout heap (scanning now (r ∷ rs) n) =
    (heap, (if (heap r).state == claimed then loads_time now r rs n else scanning now rs n), 0)
reap_next timeout heap (loads_time now r rs n) = (
  heap,
  (if (heap r).claim_timestamp == 0
      then scanning now rs n
      else if ltb timeout (saturating_sub now (heap r).claim_timestamp)
      then resets now r rs n
      else scanning now rs n),
  0,
)
reap_next timeout heap (resets now r rs n) =
    let tried = compare_exchange claimed waiting (heap r) in
    (write heap r tried.0, (if tried.1 then forgets_worker now r rs n else scanning now rs n), 0)
reap_next timeout heap (forgets_worker now r rs n) =
    (write heap r (record (heap r) { claimed_by = 0 }), forgets_time now r rs n, 0)
reap_next timeout heap (forgets_time now r rs n) =
    (write heap r (record (heap r) { claim_timestamp = 0 }), scanning now rs (u32 (n + 1)), 0)

-- The memory, the reading of `unix_ms`, the tasks, `total_stale_claims_recovered`, and the players of
-- all recorded matches, in order.
pub record World : Type 0 where
  pub heap : Heap
  pub clock : ℕ
  pub pc : ℕ → Pc
  pub scan : Scan
  pub recovered : ℕ
  pub formed : List Ref

-- What may happen next: a worker that is idle enters phase 3 with some candidates, a worker goes on,
-- the Reaper begins a scan of some players, the Reaper goes on, a request cancels a player, time passes.
pub data Event : Type 0 where
  begins : (i : ℕ) (candidates : List Ref) → Event
  works : (i : ℕ) (at : Instant) → Event
  scans : (rs : List Ref) → Event
  reaps : Event
  evicts : (r : Ref) → Event
  ticks : (ms : ℕ) → Event

-- A worker enters phase 3. That it has ten candidates then is left to the schedule (Leads.is_guarded):
-- what holds of the operations holds with any candidates.
abbrev pub begin : ℕ → List Ref → Pc → Pc
begin now candidates idle = claiming now candidates []
begin now candidates p = p

abbrev pub begin_scan : ℕ → List Ref → Scan → Scan
begin_scan now rs resting = scanning now rs 0
begin_scan now rs scan = scan

abbrev pub update : (ℕ → Pc) → ℕ → Pc → ℕ → Pc
update pc i p j = if i == j then p else pc j

module _ (stale_claim_timeout_ms : ℕ) where
  unfoldable pub apply : Event → World → World
  unfolding act reap_next
  apply (begins i candidates) w = record w {
    pc = update w.pc i (begin w.clock candidates (w.pc i));
  }
  apply (works i at) w =
      let (heap, p, recorded) = act i at w.heap (w.pc i) in
      record w { heap = heap; pc = update w.pc i p; formed = w.formed ++ recorded }
  apply (scans rs) w = record w { scan = begin_scan w.clock rs w.scan }
  apply reaps w =
      let (heap, scan, n) = reap_next stale_claim_timeout_ms w.heap w.scan in
      record w {
        heap = heap;
        scan = scan;
        recovered = if ltb 0 n then fetch_add w.recovered n else w.recovered;
      }
  apply (evicts r) w = record w {
    heap = write w.heap r (compare_exchange waiting evicted (w.heap r)).0;
  }
  apply (ticks ms) w = record w { clock = w.clock + ms }

  unfoldable pub run : List Event → World → World
  run [] w = w
  run (e ∷ es) w = run es (apply e w)

-- All tasks at rest.
abbrev pub at_rest : Heap → ℕ → World
at_rest heap clock = record {
  heap = heap;
  clock = clock;
  pc = λ i. idle;
  scan = resting;
  recovered = 0;
  formed = [];
}
