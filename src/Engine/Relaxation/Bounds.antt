-- ===== src/Engine/Relaxation/Bounds.antt =====
-- src/engine/relaxation.rs: the window lies between the first and the last, and never narrows.
use matchmaker.Base.{ℕ, zero, suc, ◌+◌, ◌*◌, ◌^◌, ◌≤◌, ◌<◌, ◌≡◌, ◌↔◌, arith, abs_diff}
use matchmaker.Models.Player.{Instant, elapsed_ms}
use matchmaker.Config.{Config}
use matchmaker.Config.Valid.{IsConsistent}
use matchmaker.Engine.Bucket.{max_skill_rating}
use matchmaker.Engine.Relaxation.{window_at, relaxation_window, relaxation_stage, scan_bounds}

-- The half-width that the configuration gives a stage.
abbrev pub delta_of : Config → ℕ → ℕ
delta_of c (suc zero) = c.relaxation_stage_1_delta
delta_of c (suc (suc zero)) = c.relaxation_stage_2_delta
delta_of c (suc (suc (suc zero))) = c.relaxation_stage_3_delta
delta_of c (suc (suc (suc (suc zero)))) = c.relaxation_stage_4_delta
delta_of c _ = c.relaxation_stage_5_delta

-- The window is that of the stage, the stage is 1 to 5, and with a consistent configuration the
-- window lies between the first half-width and the last.
window_of_stage :
    (c : Config) (now joined : Instant)
    → IsConsistent c
    → (relaxation_window now joined c ≡ delta_of c (relaxation_stage now joined c))
      × (1 ≤ relaxation_stage now joined c)
      × (relaxation_stage now joined c ≤ 5)
      × (c.relaxation_stage_1_delta ≤ relaxation_window now joined c)
      × (relaxation_window now joined c ≤ c.relaxation_stage_5_delta)
unfolding relaxation_window relaxation_stage
window_of_stage c now joined v = ground arith

-- From the end of stage 4 on, the window is the last half-width.
pub relaxation_window_last :
    (c : Config) (now joined : Instant)
    → IsConsistent c
    → c.relaxation_stage_4_ms ≤ elapsed_ms now joined
    → relaxation_window now joined c ≡ c.relaxation_stage_5_delta
unfolding relaxation_window window_at
relaxation_window_last c now joined v h = ground arith

window_at_mono : (c : Config) (t u : ℕ) → IsConsistent c → t ≤ u → window_at t c ≤ window_at u c
unfolding window_at
window_at_mono c t u v h = ground arith

elapsed_mono :
    (joined t u : Instant)
    → t ≤ u
    → u < joined + 2 ^ 64 * 1000000
    → elapsed_ms t joined ≤ elapsed_ms u joined
elapsed_mono joined t u h k = omega arith

-- With a consistent configuration the window of a player never narrows, as long as its wait in
-- milliseconds fits 64 bits.
relaxation_window_mono :
    (c : Config) (joined t u : Instant)
    → IsConsistent c
    → t ≤ u
    → u < joined + 2 ^ 64 * 1000000
    → relaxation_window t joined c ≤ relaxation_window u joined c
unfolding relaxation_window
relaxation_window_mono c joined t u v h k =
    window_at_mono c (elapsed_ms t joined) (elapsed_ms u joined) v (elapsed_mono joined t u h k)

-- For a player with a valid rating, the bounds of the scan hold exactly the valid ratings that
-- differ from the player's by the window at most; the player's own rating is among them, and the
-- lower bound does not exceed the upper.
pub scan_bounds_exact :
    (c : Config) (now joined : Instant) (rating r : ℕ)
    → rating ≤ max_skill_rating
    → let (least, most) = scan_bounds now rating joined c in
      (((least ≤ r) × (r ≤ most))
        ↔ ((r ≤ max_skill_rating) × (abs_diff r rating ≤ relaxation_window now joined c)))
      × (least ≤ rating)
      × (rating ≤ most)
      × (most ≤ max_skill_rating)
unfolding scan_bounds
scan_bounds_exact c now joined rating r v = ground arith

-- With a consistent configuration, a later scan for a player with a valid rating reaches at least
-- as far, as long as its wait in milliseconds fits 64 bits.
pub scan_bounds_widen :
    (c : Config) (joined t u : Instant) (rating : ℕ)
    → IsConsistent c
    → rating ≤ max_skill_rating
    → t ≤ u
    → u < joined + 2 ^ 64 * 1000000
    → ((scan_bounds u rating joined c).0 ≤ (scan_bounds t rating joined c).0)
      × ((scan_bounds t rating joined c).1 ≤ (scan_bounds u rating joined c).1)
unfolding scan_bounds
scan_bounds_widen c joined t u rating v r h k =
    ground (arith, relaxation_window_mono c joined t u v h k)
