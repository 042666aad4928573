-- ===== src/Tests/Settings.antt =====
-- src/config/mod.rs and src/engine/relaxation.rs: their theorems at concrete inputs.
use matchmaker.Engine.Bucket.{max_skill_rating}
use matchmaker.Engine.Relaxation.{relaxation_window, scan_bounds}
use matchmaker.Base.{abs_diff, ◌≡◌, ◌≤◌, ◌↔◌, ok, refl, none, arith}
use matchmaker.Config.{validate, Config, from_env, Environment}
use matchmaker.Config.Valid.{IsInRange, IsConsistent, from_env_valid}
use matchmaker.Engine.Relaxation.Bounds.{scan_bounds_exact}
use matchmaker.Tests.Fixtures.{defaults}

defaults-IsConsistent : IsConsistent defaults
defaults-IsConsistent = record {
  later_2 = omega arith;
  later_3 = omega arith;
  later_4 = omega arith;
  wider_2 = omega arith;
  wider_3 = omega arith;
  wider_4 = omega arith;
  wider_5 = omega arith;
  patient = omega arith;
}

abbrev nothing_set : Environment
nothing_set name = none

from_env-nothing_set : from_env nothing_set ≡ ok defaults
unfolding matchmaker.Config.from_env matchmaker.Config.parse_env_range matchmaker.Config.validate
from_env-nothing_set = refl

from_env_valid_example : IsInRange defaults × IsConsistent defaults
from_env_valid_example = from_env_valid nothing_set from_env-nothing_set

scan_bounds_exact_example :
    ((scan_bounds 20000000000 1500 0 defaults).0 ≤ 1650
        × 1650 ≤ (scan_bounds 20000000000 1500 0 defaults).1
      ↔ 1650 ≤ max_skill_rating × abs_diff 1650 1500 ≤ relaxation_window 20000000000 0 defaults)
    × (scan_bounds 20000000000 1500 0 defaults).0 ≤ 1500
    × 1500 ≤ (scan_bounds 20000000000 1500 0 defaults).1
    × (scan_bounds 20000000000 1500 0 defaults).1 ≤ max_skill_rating
scan_bounds_exact_example = scan_bounds_exact defaults 20000000000 0 1500 1650 (omega arith)
