-- ===== src/App/Logic.antt =====
-- src/app/supervisor_logic.hpp.
use spout_relay.Base.{
  ℕ, ℤ, pos, Bool, true, false, ◌==◌, ◌!=◌, ltb_ℤ, leb_ℤ, ◌&&◌, ◌||◌, if◌then◌else◌,
}

unfoldable pub can_seamless_handoff : Bool → Bool → Bool → ℕ → ℕ → ℕ → ℕ → Bool
can_seamless_handoff requested encoder_alive rtsp_connected new_w new_h current_w current_h =
    requested && (encoder_alive && (rtsp_connected && (new_w == current_w && new_h == current_h)))

unfoldable pub resolution_changed : ℕ → ℕ → ℕ → ℕ → Bool
resolution_changed frame_w frame_h current_w current_h =
    frame_w != current_w || frame_h != current_h

-- The result, and the reference argument `source_responded` after the call.
unfoldable pub should_reset_connect_timer_once : Bool → Bool × Bool
should_reset_connect_timer_once source_responded =
    if source_responded then (false, source_responded) else (true, true)

unfoldable pub should_force_spout_recovery : ℤ → ℤ → Bool
should_force_spout_recovery consecutive max_attempts =
    ltb_ℤ (pos 0) max_attempts && leb_ℤ max_attempts consecutive
