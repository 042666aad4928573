-- ===== src/Lib.antt =====
-- Matchmaker: a service that queues players and forms matches of ten, two teams of five whose sums of
-- ratings differ as little as possible.
--
-- The parts of the program, and the files that model them (paths from the repository's root):
--   src/models/mod.rs             Models: Player (the record and its compare-exchange transitions, with
--                                 Lifecycle and Claims), Memory (references to players, Held), Team, Match
--   src/metrics/mod.rs            Metrics: the counters and the snapshot
--   src/config/mod.rs             Config: from_env, parse_env_range, validate (Parse, Valid)
--   src/engine/relaxation.rs      Engine/Relaxation: relaxation_window, relaxation_stage, scan_bounds
--   src/engine/balancer.rs        Engine/Balancer: exhaustive_balance, with the search over bit masks
--                                 (Masks, Search) and the splits it stands for (Splits, Optimal with
--                                 Teams and Lobby)
--   src/engine/bucket.rs          Engine/Bucket: PlayerPool and its operations (Store, Index,
--                                 Sorted, Invariant, Order, Lowest, Scan, Seeds, Listed); Steps:
--                                 `insert` and `remove` by their two steps (Alone, Open, Agree, Lost)
--   src/engine/matcher.rs         Engine/Matcher: attempt_match and select_seed (State, Claiming, Marking,
--                                 Removal, Rollback, Written, Forming, Attempt, History, Newest,
--                                 Starved)
--   src/engine/mod.rs             Engine/Core: MatchmakerCore, enqueue, cancel and the readers (Queue,
--                                 with Returns and, on the race of two calls, Race; Accounts)
--   src/workers/mod.rs            Workers: reaper_tick, run_reaper, run_worker, spawn_all (Reaper,
--                                 Rounds, System, Records, History, Spawn, Starved, Served, Drained,
--                                 Recovered); Service: what the whole service promises its clients
--                                 (Calm, Fair, Refines); Interleaving: workers, cancellations and the
--                                 Reaper by single atomic operations (Invariant, Moves, Worker,
--                                 Begin, Reaper, Safety, Alone, Attempt, Scanning, Leads, Late,
--                                 Others, Turns, Recovery, Undated, Resets, Stranded)
--   src/api/mod.rs                Api: the routes and the HTTP handlers on decoded requests (Handlers,
--                                 Matches, Averages, Router)
--   src/main.rs                   Entry: main, from the configuration to the end of the process; the
--                                 loop that joins the tasks is in Shutdown
--   src/utils/mod.rs              Utils: the helpers
-- Base holds the shared lists, words, sums and results; Tests the instances of the theorems.
--
-- How they interact. The HTTP handlers call `enqueue` and `cancel` of the core, which write the pool
-- and the counters. Workers call `attempt_match`, which selects a seed, scans the pool for players
-- near it, claims ten of them, balances them into teams, removes them from the pool and records the
-- match. The Reaper takes back claims that are too old. All of them share one state: `Shared` in
-- Engine/Matcher/State, which each operation takes and returns.
--
-- What a definition corresponds to. A struct is a record with the same fields and an enum a data type.
-- An `Arc<Player>` is a number that refers to an object of a `Heap`, so that all clones of an `Arc` see
-- a change; a `Weak<Player>` is the same number, which can be upgraded while the map or a task holds
-- the object. `dashmap` is a parameter, `ConcurrentMap`, with the laws of its documentation; in which
-- order it iterates is left open. The `BTreeMap` index is a sorted list. An `Instant` is a number of
-- nanoseconds, and each reading of a clock, each random identifier and the environment are arguments.
-- Counters and sums are words that wrap, as in the release profile; a panic (an index out of bounds, a
-- range whose ends are in the wrong order) is `none`. The f32 average of a team is kept as numerator
-- and denominator, and the text of an error message as the data it shows. Tracing is left out.
--
-- What may happen in between. Engine/Bucket/Steps lets calls of `insert` and `remove` overlap, one
-- step on the map and one on the index each. Elsewhere an operation of the pool, a call of
-- `enqueue` or `cancel`, a scan of the Reaper and phases 1 and 2 of an attempt run without other
-- tasks between their steps; System, Service and what is said of all states after the start let
-- them follow each other in any order, each as a whole. The theorems on `claim_phase` hold of any
-- memory, so there other tasks may have claimed candidates since they were found. Interleaving
-- goes further for phases 3 to 5, whatever the candidates (that there are ten of them is
-- `is_guarded`, where it matters): a worker is a program counter, `act` is its next atomic
-- operation on a player, `reap_next` that of the Reaper, and a schedule is any list of events; the
-- fields of a player are written one by one. A claim is in time while the clock, which never goes
-- back there, is at most the timeout past the reading that the worker took for its claims. The
-- pool and the balancing touch no field of a player and have no step there. That a task which
-- nobody interrupts does in Interleaving what the sequential definitions do ties the two together.
--
-- Bounds. No definition needs fuel: the loops run over lists, and the search over masks counts 1024
-- down. Identifiers are below 2^128 and ratings that `enqueue` admits are at most 3000, so that no sum
-- of ten ratings wraps; the theorems say so where they use it.
--
-- Not modelled: the set-up of logging and the sockets of src/main.rs, how axum matches paths, the
-- requests that its extractors reject (a malformed path, query or body, which reaches no handler), how
-- serde encodes bodies, `Display` and `Debug`, src/lib.rs, which only names the modules, and the tests.
mod Base
pub mod Models
pub mod Metrics
pub mod Config
pub mod Engine
pub mod Workers
pub mod Api
pub mod Utils
pub mod Entry
mod Tests
