-- ===== src/Metrics/Store.antt =====
-- src/metrics/metrics_store.cpp. The counters are `uint64_t` and wrap; the mutex makes each call one
-- step, so it has no state of its own here.
use spout_relay.Base.{ℕ, ◌+◌, ◌%◌, ◌^◌, String}
use spout_relay.Common.Types.{Float}

abbrev pub u64 : ℕ → ℕ
u64 n = n % 2 ^ 64

pub record MetricsStore : Type 0 where
  pub frames_received : ℕ
  pub frames_encoded : ℕ
  pub frames_dropped : ℕ
  pub rtsp_errors : ℕ
  pub reconnect_attempts : ℕ
  pub device_lost_recoveries : ℕ
  pub current_state : String
  pub sender_name : String
  pub sender_width : ℕ
  pub sender_height : ℕ
  pub sender_fps : Float
  pub bitrate_kbps : Float
  pub current_fps : Float
  pub rtsp_url : String
  pub encoder_codec : String
  pub session_start_ms : ℕ
  pub last_metrics_payload : String
  pub last_health_payload : String

abbrev pub empty_store : MetricsStore
empty_store = record {
  frames_received = 0;
  frames_encoded = 0;
  frames_dropped = 0;
  rtsp_errors = 0;
  reconnect_attempts = 0;
  device_lost_recoveries = 0;
  current_state = "";
  sender_name = "";
  sender_width = 0;
  sender_height = 0;
  sender_fps = 0;
  bitrate_kbps = 0;
  current_fps = 0;
  rtsp_url = "";
  encoder_codec = "";
  session_start_ms = 0;
  last_metrics_payload = "";
  last_health_payload = "";
}

abbrev pub set_state : String → MetricsStore → MetricsStore
set_state state m = record m { current_state = state }

abbrev pub set_sender_info : String → ℕ → ℕ → Float → MetricsStore → MetricsStore
set_sender_info name w h fps m = record m {
  sender_name = name;
  sender_width = w;
  sender_height = h;
  sender_fps = fps;
}

abbrev pub set_bitrate_kbps : Float → MetricsStore → MetricsStore
set_bitrate_kbps kbps m = record m { bitrate_kbps = kbps }

abbrev pub set_current_fps : Float → MetricsStore → MetricsStore
set_current_fps fps m = record m { current_fps = fps }

abbrev pub set_rtsp_url : String → MetricsStore → MetricsStore
set_rtsp_url url m = record m { rtsp_url = url }

abbrev pub set_encoder_codec : String → MetricsStore → MetricsStore
set_encoder_codec codec m = record m { encoder_codec = codec }

abbrev pub increment_frames_received : MetricsStore → MetricsStore
increment_frames_received m = record m { frames_received = u64 (m.frames_received + 1) }

abbrev pub increment_frames_encoded : MetricsStore → MetricsStore
increment_frames_encoded m = record m { frames_encoded = u64 (m.frames_encoded + 1) }

abbrev pub increment_frames_dropped : MetricsStore → MetricsStore
increment_frames_dropped m = record m { frames_dropped = u64 (m.frames_dropped + 1) }

abbrev pub increment_rtsp_errors : MetricsStore → MetricsStore
increment_rtsp_errors m = record m { rtsp_errors = u64 (m.rtsp_errors + 1) }

abbrev pub increment_reconnect_attempts : MetricsStore → MetricsStore
increment_reconnect_attempts m = record m { reconnect_attempts = u64 (m.reconnect_attempts + 1) }

abbrev pub increment_device_lost_recoveries : MetricsStore → MetricsStore
increment_device_lost_recoveries m = record m {
  device_lost_recoveries = u64 (m.device_lost_recoveries + 1);
}

abbrev pub reset_session_counters : MetricsStore → MetricsStore
reset_session_counters m = record m {
  frames_received = 0;
  frames_encoded = 0;
  frames_dropped = 0;
  rtsp_errors = 0;
  reconnect_attempts = 0;
  device_lost_recoveries = 0;
}

-- `now_ms` is `time_utils::system_now_ms()`.
abbrev pub mark_session_start : ℕ → MetricsStore → MetricsStore
mark_session_start now_ms m = record m { session_start_ms = now_ms }
