-- ===== src/Config.antt =====
-- src/config/mod.rs: the settings, read from the environment and validated. The environment is an
-- argument; the text of an error message is kept as the data that it is made of.
pub mod Parse
pub mod Valid
pub use Parse.{Text, IntError, parse_unsigned, trim}
use Prim.Native.String.{String}
use matchmaker.Base.{
  ℕ, ◌^◌, Bool, true, false, ◌||◌, Option, none, some, ltb, leb, if◌then◌else◌, Result, ok, err,
  ◌>>=◌, ◌>>◌, ◌-◌,
}

pub data Expected : Type 0 where
  a_valid : (bits : ℕ) → Expected
  between : (least most : ℕ) → Expected

pub data Actual : Type 0 where
  text : Text → IntError → Actual
  number : ℕ → Actual

pub data ConfigError : Type 0 where
  missing : String → String → ConfigError
  invalid : (var : String) → Expected → Actual → ConfigError
  constraint : (left right : String) → ℕ → ℕ → ConfigError

pub record Config : Type 0 where
  pub server_port : ℕ
  pub worker_count : ℕ
  pub worker_tick_ms : ℕ
  pub stale_claim_timeout_ms : ℕ
  pub relaxation_stage_1_ms : ℕ
  pub relaxation_stage_2_ms : ℕ
  pub relaxation_stage_3_ms : ℕ
  pub relaxation_stage_4_ms : ℕ
  pub relaxation_stage_1_delta : ℕ
  pub relaxation_stage_2_delta : ℕ
  pub relaxation_stage_3_delta : ℕ
  pub relaxation_stage_4_delta : ℕ
  pub relaxation_stage_5_delta : ℕ

-- The variables that are set to text; a variable that is not set, or not Unicode, has none.
abbrev pub Environment : Type 0
Environment = String → Option Text

abbrev in_range : String → ℕ → ℕ → ℕ → Result ConfigError ℕ
in_range name least most value =
    if ltb value least || ltb most value
    then err (invalid name (between least most) (number value))
    else ok value

abbrev parsed : String → ℕ → ℕ → ℕ → Text → Result IntError ℕ → Result ConfigError ℕ
parsed name bits least most raw (ok value) = in_range name least most value
parsed name bits least most raw (err e) = err (invalid name (a_valid bits) (text raw e))

-- `bits` is the width of the type that is parsed.
unfoldable pub parse_env_range : Environment → String → ℕ → ℕ → ℕ → ℕ → Result ConfigError ℕ
parse_env_range env name bits least most default = elim (env name) [
  | none ↦ ok default
  | some raw ↦ parsed name bits least most raw (parse_unsigned (2 ^ bits - 1) (trim raw))
]

abbrev fail_if : Bool → ConfigError → Result ConfigError (Unit {0})
fail_if true e = err e
fail_if false e = ok tt

unfoldable pub validate : Config → Result ConfigError (Unit {0})
validate c = do
  fail_if (leb c.relaxation_stage_2_ms c.relaxation_stage_1_ms) (
      constraint "RELAXATION_STAGE_1_MS" "RELAXATION_STAGE_2_MS" c.relaxation_stage_1_ms
        c.relaxation_stage_2_ms)
  fail_if (leb c.relaxation_stage_3_ms c.relaxation_stage_2_ms) (
      constraint "RELAXATION_STAGE_2_MS" "RELAXATION_STAGE_3_MS" c.relaxation_stage_2_ms
        c.relaxation_stage_3_ms)
  fail_if (leb c.relaxation_stage_4_ms c.relaxation_stage_3_ms) (
      constraint "RELAXATION_STAGE_3_MS" "RELAXATION_STAGE_4_MS" c.relaxation_stage_3_ms
        c.relaxation_stage_4_ms)
  fail_if (ltb c.relaxation_stage_2_delta c.relaxation_stage_1_delta) (
      constraint "RELAXATION_STAGE_1_DELTA" "RELAXATION_STAGE_2_DELTA" c.relaxation_stage_1_delta
        c.relaxation_stage_2_delta)
  fail_if (ltb c.relaxation_stage_3_delta c.relaxation_stage_2_delta) (
      constraint "RELAXATION_STAGE_2_DELTA" "RELAXATION_STAGE_3_DELTA" c.relaxation_stage_2_delta
        c.relaxation_stage_3_delta)
  fail_if (ltb c.relaxation_stage_4_delta c.relaxation_stage_3_delta) (
      constraint "RELAXATION_STAGE_3_DELTA" "RELAXATION_STAGE_4_DELTA" c.relaxation_stage_3_delta
        c.relaxation_stage_4_delta)
  fail_if (ltb c.relaxation_stage_5_delta c.relaxation_stage_4_delta) (
      constraint "RELAXATION_STAGE_4_DELTA" "RELAXATION_STAGE_5_DELTA" c.relaxation_stage_4_delta
        c.relaxation_stage_5_delta)
  fail_if (leb c.stale_claim_timeout_ms c.worker_tick_ms) (
      constraint "STALE_CLAIM_TIMEOUT_MS" "WORKER_TICK_MS" c.stale_claim_timeout_ms
        c.worker_tick_ms)
  ok tt

unfoldable pub from_env : Environment → Result ConfigError Config
from_env env = do
  server_port ← parse_env_range env "SERVER_PORT" 16 1024 65535 8080
  worker_count ← parse_env_range env "WORKER_COUNT" 64 1 64 4
  worker_tick_ms ← parse_env_range env "WORKER_TICK_MS" 64 10 10000 50
  stale_claim_timeout_ms ← parse_env_range env "STALE_CLAIM_TIMEOUT_MS" 64 100 30000 500
  relaxation_stage_1_ms ← parse_env_range env "RELAXATION_STAGE_1_MS" 64 1 300000 5000
  relaxation_stage_2_ms ← parse_env_range env "RELAXATION_STAGE_2_MS" 64 1 300000 15000
  relaxation_stage_3_ms ← parse_env_range env "RELAXATION_STAGE_3_MS" 64 1 300000 30000
  relaxation_stage_4_ms ← parse_env_range env "RELAXATION_STAGE_4_MS" 64 1 300000 60000
  relaxation_stage_1_delta ← parse_env_range env "RELAXATION_STAGE_1_DELTA" 32 0 10000 50
  relaxation_stage_2_delta ← parse_env_range env "RELAXATION_STAGE_2_DELTA" 32 0 10000 100
  relaxation_stage_3_delta ← parse_env_range env "RELAXATION_STAGE_3_DELTA" 32 0 10000 200
  relaxation_stage_4_delta ← parse_env_range env "RELAXATION_STAGE_4_DELTA" 32 0 10000 400
  relaxation_stage_5_delta ← parse_env_range env "RELAXATION_STAGE_5_DELTA" 32 0 10000 9999
  let config : Config = record {
    server_port = server_port;
    worker_count = worker_count;
    worker_tick_ms = worker_tick_ms;
    stale_claim_timeout_ms = stale_claim_timeout_ms;
    relaxation_stage_1_ms = relaxation_stage_1_ms;
    relaxation_stage_2_ms = relaxation_stage_2_ms;
    relaxation_stage_3_ms = relaxation_stage_3_ms;
    relaxation_stage_4_ms = relaxation_stage_4_ms;
    relaxation_stage_1_delta = relaxation_stage_1_delta;
    relaxation_stage_2_delta = relaxation_stage_2_delta;
    relaxation_stage_3_delta = relaxation_stage_3_delta;
    relaxation_stage_4_delta = relaxation_stage_4_delta;
    relaxation_stage_5_delta = relaxation_stage_5_delta;
  }
  validate config
  ok config
