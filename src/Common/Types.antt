-- ===== src/Common/Types.antt =====
-- src/common/types.hpp: the publisher's states, frames and the settings of encoder and RTSP.
use spout_relay.Base.{ℕ, List, [], Option, none, String, ℤ, Bool, false}

pub data PublisherState : Type 0 where
  init idle probing placeholder connecting_output streaming stalled reconfiguring
        reconnecting_output recovering_device stopping fatal :
      PublisherState

unfoldable pub state_name : PublisherState → String
state_name init = "INIT"
state_name idle = "IDLE"
state_name probing = "PROBING"
state_name placeholder = "PLACEHOLDER"
state_name connecting_output = "CONNECTING_OUTPUT"
state_name streaming = "STREAMING"
state_name stalled = "STALLED"
state_name reconfiguring = "RECONFIGURING"
state_name reconnecting_output = "RECONNECTING_OUTPUT"
state_name recovering_device = "RECOVERING_DEVICE"
state_name stopping = "STOPPING"
state_name fatal = "FATAL"

pub data PixelFormat : Type 0 where
  bgra rgba rgb bgr : PixelFormat

-- The bit pattern of a `float` or a `double`; nothing here looks into it.
abbrev pub Float : Type 0
Float = ℕ

-- `gpu_texture` is a borrowed pointer: an address, or none for nullptr.
pub record FrameBuffer : Type 0 where
  pub pixels : List ℕ
  pub width : ℕ
  pub height : ℕ
  pub format : PixelFormat
  pub gpu_texture : Option ℕ

abbrev pub empty_buffer : FrameBuffer
empty_buffer = record { pixels = []; width = 0; height = 0; format = bgra; gpu_texture = none }

pub record FrameMeta : Type 0 where
  pub sequence : ℕ
  pub timestamp_us : ℕ
  pub width : ℕ
  pub height : ℕ

abbrev pub empty_meta : FrameMeta
empty_meta = record { sequence = 0; timestamp_us = 0; width = 0; height = 0 }

pub record SenderInfo : Type 0 where
  pub name : String
  pub width : ℕ
  pub height : ℕ
  pub fps : Float
  pub valid : Bool

abbrev pub empty_sender : SenderInfo
empty_sender = record { name = ""; width = 0; height = 0; fps = 0; valid = false }

pub record EncoderConfig : Type 0 where
  pub codec : String
  pub fallback_codec : String
  pub bitrate_kbps : ℤ
  pub fps : ℤ
  pub gop_size : ℤ
  pub max_b_frames : ℤ
  pub preset : String
  pub tune : String
  pub threads : ℤ

pub record RtspConfig : Type 0 where
  pub url : String
  pub connect_timeout_ms : ℤ
  pub send_timeout_ms : ℤ
  pub max_reconnect_attempts : ℤ
  pub reconnect_delay_ms : ℤ
  pub reconnect_max_delay_ms : ℤ
  pub reconnect_backoff_multiplier : Float
