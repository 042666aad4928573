-- ===== src/Engine/Relaxation.antt =====
-- src/engine/relaxation.rs: the window of ratings, which widens while a player waits. `now` is the
-- reading of the clock in `elapsed`.
pub mod Bounds
use matchmaker.Base.{ℕ, min, ltb, if◌then◌else◌, saturating_sub, saturating_add}
use matchmaker.Models.Player.{Instant, elapsed_ms}
use matchmaker.Config.{Config}
use matchmaker.Engine.Bucket.{max_skill_rating}

window_at : ℕ → Config → ℕ
window_at t config =
    if ltb t config.relaxation_stage_1_ms
    then config.relaxation_stage_1_delta
    else if ltb t config.relaxation_stage_2_ms
    then config.relaxation_stage_2_delta
    else if ltb t config.relaxation_stage_3_ms
    then config.relaxation_stage_3_delta
    else if ltb t config.relaxation_stage_4_ms
    then config.relaxation_stage_4_delta
    else config.relaxation_stage_5_delta

pub relaxation_window : Instant → Instant → Config → ℕ
unfolding window_at
relaxation_window now join_timestamp config = window_at (elapsed_ms now join_timestamp) config

stage_at : ℕ → Config → ℕ
stage_at t config =
    if ltb t config.relaxation_stage_1_ms
    then 1
    else if ltb t config.relaxation_stage_2_ms
    then 2
    else if ltb t config.relaxation_stage_3_ms
    then 3
    else if ltb t config.relaxation_stage_4_ms
    then 4
    else 5

pub relaxation_stage : Instant → Instant → Config → ℕ
unfolding stage_at
relaxation_stage now join_timestamp config = stage_at (elapsed_ms now join_timestamp) config

-- The least and the greatest rating of the scan.
unfoldable pub scan_bounds : Instant → ℕ → Instant → Config → ℕ × ℕ
unfolding relaxation_window
scan_bounds now skill_rating join_timestamp config =
    let window = relaxation_window now join_timestamp config in
    (saturating_sub skill_rating window, min (saturating_add skill_rating window) max_skill_rating)
