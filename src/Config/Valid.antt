-- ===== src/Config/Valid.antt =====
-- src/config/mod.rs: what a configuration that `from_env` returns satisfies.
use Prim.Native.String.{String}
use matchmaker.Base.{ℕ, ◌≤◌, ◌<◌, ◌≡◌, arith, ok, ◌↔◌}
use matchmaker.Config.{Config, Environment, parse_env_range, validate, from_env}

-- The constraints between fields.
pub record IsConsistent (c : Config) : Type 0 where
  pub later_2 : c.relaxation_stage_1_ms < c.relaxation_stage_2_ms
  pub later_3 : c.relaxation_stage_2_ms < c.relaxation_stage_3_ms
  pub later_4 : c.relaxation_stage_3_ms < c.relaxation_stage_4_ms
  pub wider_2 : c.relaxation_stage_1_delta ≤ c.relaxation_stage_2_delta
  pub wider_3 : c.relaxation_stage_2_delta ≤ c.relaxation_stage_3_delta
  pub wider_4 : c.relaxation_stage_3_delta ≤ c.relaxation_stage_4_delta
  pub wider_5 : c.relaxation_stage_4_delta ≤ c.relaxation_stage_5_delta
  pub patient : c.worker_tick_ms < c.stale_claim_timeout_ms

validate-ok : (c : Config) → validate c ≡ ok tt → IsConsistent c
unfolding validate
validate-ok c h = ground arith

validate_complete : (c : Config) → IsConsistent c → validate c ≡ ok tt
unfolding validate
validate_complete c h = ground arith

parse_env_range_bounds :
    (env : Environment) (name : String) (bits least most default : ℕ) {v : ℕ}
    → least ≤ default
    → default ≤ most
    → parse_env_range env name bits least most default ≡ ok v
    → (least ≤ v) × (v ≤ most)
unfolding parse_env_range
parse_env_range_bounds env name bits least most default l h e = ground arith

pub record IsInRange (c : Config) : Type 0 where
  pub port : (1024 ≤ c.server_port) × (c.server_port ≤ 65535)
  pub workers : (1 ≤ c.worker_count) × (c.worker_count ≤ 64)
  pub tick : (10 ≤ c.worker_tick_ms) × (c.worker_tick_ms ≤ 10000)
  pub timeout : (100 ≤ c.stale_claim_timeout_ms) × (c.stale_claim_timeout_ms ≤ 30000)
  pub first_stage : 1 ≤ c.relaxation_stage_1_ms
  pub last_stage : c.relaxation_stage_4_ms ≤ 300000
  pub widest : c.relaxation_stage_5_delta ≤ 10000

-- A configuration that `from_env` accepts is in range and consistent, whatever the environment.
pub from_env_valid :
    (env : Environment) {c : Config} → from_env env ≡ ok c → IsInRange c × IsConsistent c
unfolding from_env
from_env_valid env {c} h = ground (
  arith,
  validate-ok c,
  parse_env_range_bounds env "SERVER_PORT" 16 1024 65535 8080 {v = c.server_port},
  parse_env_range_bounds env "WORKER_COUNT" 64 1 64 4 {v = c.worker_count},
  parse_env_range_bounds env "WORKER_TICK_MS" 64 10 10000 50 {v = c.worker_tick_ms},
  parse_env_range_bounds env "STALE_CLAIM_TIMEOUT_MS" 64 100 30000 500
      {v = c.stale_claim_timeout_ms},
  parse_env_range_bounds env "RELAXATION_STAGE_1_MS" 64 1 300000 5000 {v = c.relaxation_stage_1_ms},
  parse_env_range_bounds env "RELAXATION_STAGE_4_MS" 64 1 300000 60000
      {v = c.relaxation_stage_4_ms},
  parse_env_range_bounds env "RELAXATION_STAGE_5_DELTA" 32 0 10000 9999
      {v = c.relaxation_stage_5_delta},
)

-- `validate` accepts a configuration exactly when the constraints between its fields hold.
pub validate_iff : (c : Config) → (validate c ≡ ok tt) ↔ IsConsistent c
validate_iff c = (validate-ok c, validate_complete c)
