-- ===== src/Metrics/Report.antt =====
-- The two reports of src/metrics/metrics_store.cpp, as the objects that are handed to nlohmann/json.
use spout_relay.Base.{
  ℕ, Bool, ◌||◌, List, [], ◌∷◌, ◌++◌, String, Codes, codes, ℤ, sub_ℕ, if◌then◌else◌,
}
use text.Mathlib.Text.{◌==◌ as str_eq}
use spout_relay.Common.Types.{Float}
use spout_relay.Common.Time.{Tm, iso8601}
use spout_relay.Metrics.Store.{MetricsStore}

-- A value of the object.
pub data Scalar : Type 0 where
  string : Codes → Scalar
  unsigned : ℕ → Scalar
  signed : ℤ → Scalar
  real : Float → Scalar
  boolean : Bool → Scalar

abbrev pub Object : Type 0
Object = List (String × Scalar)

-- Two readings of the system clock: the milliseconds since the epoch for the uptime, and the same for
-- the time stamp, with its parts.
pub record Now : Type 0 where
  pub system_ms : ℕ
  pub stamp_ms : ℕ
  pub utc : Tm

abbrev iso8601_now : Now → Codes
iso8601_now now = iso8601 now.utc now.stamp_ms

-- `ts` is there with a time stamp only.
unfoldable pub time_stamp : Bool → Now → Object
unfolding iso8601
time_stamp with_ts now = if with_ts then ("ts", string (iso8601_now now)) ∷ [] else []

unfoldable pub uptime : Bool → Now → MetricsStore → Object
uptime with_ts now m =
    if with_ts then ("uptime_ms", signed (sub_ℕ now.system_ms m.session_start_ms)) ∷ [] else []

-- `build_metrics_json` before `dump`.
unfoldable pub metrics_object : Bool → Now → MetricsStore → Object
unfolding uptime time_stamp
metrics_object with_ts now m =
    (("state", string (codes m.current_state))
      ∷ ("sender_name", string (codes m.sender_name))
      ∷ ("sender_width", unsigned m.sender_width)
      ∷ ("sender_height", unsigned m.sender_height)
      ∷ ("sender_fps", real m.sender_fps)
      ∷ ("bitrate_kbps", real m.bitrate_kbps)
      ∷ ("current_fps", real m.current_fps)
      ∷ ("rtsp_url", string (codes m.rtsp_url))
      ∷ ("encoder_codec", string (codes m.encoder_codec))
      ∷ [])
    ++ uptime with_ts now m
    ++ (("frames_received", unsigned m.frames_received)
        ∷ ("frames_encoded", unsigned m.frames_encoded)
        ∷ ("frames_dropped", unsigned m.frames_dropped)
        ∷ ("rtsp_errors", unsigned m.rtsp_errors)
        ∷ ("reconnect_attempts", unsigned m.reconnect_attempts)
        ∷ ("device_lost_recoveries", unsigned m.device_lost_recoveries)
        ∷ [])
    ++ time_stamp with_ts now

unfoldable pub is_healthy : String → Bool
is_healthy state =
    str_eq state "STREAMING"
    || str_eq state "CONNECTING_OUTPUT"
    || str_eq state "PROBING"
    || str_eq state "IDLE"
    || str_eq state "PLACEHOLDER"

-- `build_health_json` before `dump`.
unfoldable pub health_object : Bool → Now → MetricsStore → Object
unfolding is_healthy time_stamp
health_object with_ts now m =
    (("healthy", boolean (is_healthy m.current_state))
      ∷ ("state", string (codes m.current_state))
      ∷ [])
    ++ time_stamp with_ts now
