-- ===== src/Entry.antt =====
-- src/main.rs: the life of the process. The environment, the outcome of the bind, the arm of each
-- `select!` that is ready first and the end of each task are arguments; what the process logs stands
-- in its result.
pub mod Shutdown
use matchmaker.Base.{
  ◌++◌, ℕ, zero, suc, ◌+◌, Bool, true, false, List, [], ◌∷◌, length, ltb, if◌then◌else◌, Result, ok,
  err,
}
use matchmaker.Models.Player.{Instant}
use matchmaker.Models.Memory.{Heap}
use matchmaker.Metrics
use matchmaker.Metrics.{MetricsSnapshot}
use matchmaker.Config.{Config, ConfigError, Environment, from_env}
use matchmaker.Engine.Bucket.Store.{ConcurrentMap}
use matchmaker.Engine.Core.{MatchmakerCore, new, metrics_snapshot}
use matchmaker.Workers.{spawn_all}

abbrev pub http_drain_timeout_secs : ℕ
http_drain_timeout_secs = 5

abbrev pub worker_join_timeout_secs : ℕ
worker_join_timeout_secs = 10

-- What `wait_for_signal` waits for, on Unix.
pub data Signal : Type 0 where
  sigint : Signal
  sigterm : Signal

-- What ends the main `select!`: the server, normally or with an error, or a signal.
pub data Stop : Type 0 where
  server_exited : Stop
  server_failed : Stop
  received : Signal → Stop

-- How a joined task had ended.
pub data Joined : Type 0 where
  exited : Joined
  panicked : Joined

pub data Notice : Type 0 where
  configuration_error : ConfigError → Notice
  core_initialised : (worker_count server_port : ℕ) → Notice
  workers_started : ℕ → Notice
  listening : (server_port : ℕ) → Notice
  bind_failed : (server_port : ℕ) → Notice
  stopped : Stop → Notice
  token_cancelled : Notice
  draining : (seconds : ℕ) → Notice
  joining : (seconds : ℕ) → Notice
  task_panicked : Notice
  all_joined : Notice
  join_timeout : (remaining : ℕ) → Notice
  final_metrics : MetricsSnapshot → Notice
  shutdown_complete : Notice

-- The tasks of the `JoinSet`, and whether the shutdown token has been cancelled.
pub record Tasks : Type 0 where
  pub remaining : ℕ
  pub cancelled : Bool

-- The notice of the loop's end. With no task left either arm of the `select!` may be ready first; the
-- deadline, if `late`, says nothing then.
abbrev pub last_of_join : Bool → ℕ → List Notice
last_of_join late zero = if late then [] else all_joined ∷ []
last_of_join late (suc n) = join_timeout (suc n) ∷ []

-- The loop that joins the tasks, over those that end before the deadline: at the end of the list the
-- deadline is reached.
pub join_tasks : Bool → ℕ → List Joined → List Notice × ℕ
join_tasks late zero js = (last_of_join late zero, 0)
join_tasks late (suc n) [] = (last_of_join late (suc n), suc n)
join_tasks late (suc n) (exited ∷ js) = join_tasks late n js
join_tasks late (suc n) (panicked ∷ js) =
    let (notices, remaining) = join_tasks late n js in (task_panicked ∷ notices, remaining)

-- How the process ends: its exit code, the tasks at that time and what it has logged.
pub record Exit : Type 0 where
  pub code : ℕ
  pub tasks : Tasks
  pub log : List Notice

module _ (S : ConcurrentMap) where
  -- Workers and one Reaper.
  abbrev pub worker_set : MatchmakerCore S → Tasks
  worker_set core = record { remaining = length (spawn_all S core) + 1; cancelled = false }

  -- From the end of the main `select!`; `finished` is the core at the final snapshot.
  pub shut_down : Bool → Tasks → List Joined → MatchmakerCore S → List Notice × Tasks
  shut_down late tasks js finished =
      let (notices, remaining) = join_tasks late tasks.remaining js in
      (
        token_cancelled
            ∷ draining http_drain_timeout_secs
            ∷ joining worker_join_timeout_secs
            ∷ (notices ++ (final_metrics (metrics_snapshot S finished) ∷ shutdown_complete ∷ [])),
        record { remaining = remaining; cancelled = true },
      )

  -- With a valid configuration. `work` is what workers, Reaper and requests make of the core.
  pub serve_until :
      Config
      → Heap
      → Instant
      → Bool
      → Stop
      → Bool
      → List Joined
      → (MatchmakerCore S → MatchmakerCore S)
      → Exit
  serve_until config heap now bound stop late js work =
      let core = new S heap now config Metrics.new in
      let tasks = worker_set core in
      let started =
        core_initialised config.worker_count config.server_port
        ∷ workers_started config.worker_count
        ∷ [] in
      let (notices, tasks') = shut_down late tasks js (work core) in
      if bound
      then record {
        code = 0;
        tasks = tasks';
        log = started ++ (listening config.server_port ∷ stopped stop ∷ notices);
      }
      else record {
        code = 1;
        tasks = record tasks { cancelled = true };
        log = started ++ (bind_failed config.server_port ∷ []);
      }

  pub main :
      Environment
      → Heap
      → Instant
      → Bool
      → Stop
      → Bool
      → List Joined
      → (MatchmakerCore S → MatchmakerCore S)
      → Exit
  main env heap now bound stop late js work = elim (from_env env) [
    | err e ↦ record {
      code = 1;
      tasks = record { remaining = 0; cancelled = false };
      log = configuration_error e ∷ [];
    }
    | ok config ↦ serve_until config heap now bound stop late js work
  ]
