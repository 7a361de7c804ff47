-- ===== src/Config/Types.antt =====
-- `AppConfig` of src/config/config_loader.hpp.
use spout_relay.Base.{Bool, String, ℤ}
use spout_relay.Common.Types.{EncoderConfig, RtspConfig}

pub record AppSettings : Type 0 where
  pub instance_name : String
  pub log_dir : String
  pub metrics_path : String
  pub health_path : String

pub record SpoutSettings : Type 0 where
  pub sender_name : String
  pub poll_interval_ms : ℤ
  pub frame_timeout_ms : ℤ
  pub sender_missing_timeout_ms : ℤ
  pub prefer_dx11 : Bool
  pub stalled_recovery_max_attempts : ℤ

pub record PlaceholderSettings : Type 0 where
  pub enabled : Bool
  pub width : ℤ
  pub height : ℤ
  pub message : String
  pub background_hex : String
  pub text_hex : String
  pub show_sender_name : Bool

pub record RuntimeSettings : Type 0 where
  pub shutdown_grace_ms : ℤ
  pub emit_metrics_interval_ms : ℤ
  pub emit_health_interval_ms : ℤ

pub record AppConfig : Type 0 where
  pub app : AppSettings
  pub spout : SpoutSettings
  pub placeholder : PlaceholderSettings
  pub encoder : EncoderConfig
  pub rtsp : RtspConfig
  pub runtime : RuntimeSettings
