-- ===== src/Encoder/Types.antt =====
-- The state of src/encoder/encoder_controller.cpp: `Impl`, and the class's own fields. A pointer to an
-- FFmpeg or Direct3D object is whether it is held.
use spout_relay.Base.{
  ℕ, Bool, true, false, List, [], Option, none, some, String, ℤ, pos, narrow, ◌≡◌,
}
use spout_relay.Common.Types.{FrameBuffer, EncoderConfig}

pub record EncodedPacket : Type 0 where
  pub payload : List ℕ
  pub pts : ℤ
  pub dts : ℤ
  pub duration : ℤ
  pub is_key_frame : Bool
  pub time_base_num : ℤ
  pub time_base_den : ℤ

pub data AvPixelFormat : Type 0 where
  yuv420p nv12 av_bgra av_rgba d3d11 no_format : AvPixelFormat
  other_format : ℕ → AvPixelFormat

-- `AVCodecContext`, as far as the code sets it.
pub record CodecContext : Type 0 where
  pub codec_id : ℤ
  pub bit_rate : ℤ
  pub rc_max_rate : ℤ
  pub rc_buffer_size : ℤ
  pub width : ℤ
  pub height : ℤ
  pub time_base_num : ℤ
  pub time_base_den : ℤ
  pub gop_size : ℤ
  pub max_b_frames : ℤ
  pub pix_fmt : AvPixelFormat
  pub thread_count : Option ℤ
  pub hw_frames : Bool
  pub options : List (String × String)
  pub extradata : List ℕ

-- A frame given to `avcodec_send_frame`: its presentation time, whether it is forced to be an IDR,
-- and the source frame that it was last filled from.
pub record SentFrame : Type 0 where
  pub pts : ℕ
  pub idr : Bool
  pub picture : Option FrameBuffer

-- `last_hw_frame` holds, if allocated, whether it has a buffer. `picture` is what the conversion
-- frame was last filled from. `sent` is what the codec was given since it was opened, newest first, and
-- `null_call` says whether a call went through an empty `d3d_ctx` since then.
pub record Encoder : Type 0 where
  pub codec_ctx : Option CodecContext
  pub sws_ctx : Bool
  pub yuv_frame : Bool
  pub pkt : Bool
  pub frame_count : ℕ
  pub codec_name : String
  pub force_next_idr : Bool
  pub gpu_path : Bool
  pub hw_device_ctx : Bool
  pub hw_frames_ctx : Bool
  pub pool_format : AvPixelFormat
  pub last_hw_frame : Option Bool
  pub d3d_ctx : Bool
  pub d3d_device : Bool
  pub width : ℕ
  pub height : ℕ
  pub config : EncoderConfig
  pub picture : Option FrameBuffer
  pub sent : List SentFrame
  pub null_call : Bool

abbrev pub default_config : EncoderConfig
default_config = record {
  codec = "h264_nvenc";
  fallback_codec = "h264_mf";
  bitrate_kbps = pos 4000;
  fps = pos 30;
  gop_size = pos 30;
  max_b_frames = pos 0;
  preset = "fast";
  tune = "zerolatency";
  threads = pos 0;
}

-- `std::make_unique<EncoderController>()`.
abbrev pub new_encoder : Encoder
new_encoder = record {
  codec_ctx = none;
  sws_ctx = false;
  yuv_frame = false;
  pkt = false;
  frame_count = 0;
  codec_name = "";
  force_next_idr = false;
  gpu_path = false;
  hw_device_ctx = false;
  hw_frames_ctx = false;
  pool_format = no_format;
  last_hw_frame = none;
  d3d_ctx = false;
  d3d_device = false;
  width = 0;
  height = 0;
  config = default_config;
  picture = none;
  sent = [];
  null_call = false;
}

unfoldable pub reset : Encoder → Encoder
reset e = record e {
  pkt = false;
  yuv_frame = false;
  sws_ctx = false;
  last_hw_frame = none;
  hw_frames_ctx = false;
  hw_device_ctx = false;
  d3d_ctx = false;
  d3d_device = false;
  codec_ctx = none;
  frame_count = 0;
  force_next_idr = false;
  codec_name = "";
  gpu_path = false;
  width = 0;
  height = 0;
  picture = none;
  sent = [];
  null_call = false;
}

unfoldable pub request_next_idr : Encoder → Encoder
request_next_idr e = record e { force_next_idr = true }

-- What `get_codec_info()` hands to the RTSP client; colour metadata is left out.
pub record CodecInfo : Type 0 where
  pub codec_id : ℤ
  pub width : ℤ
  pub height : ℤ
  pub fps : ℤ
  pub bit_rate : ℤ
  pub time_base_num : ℤ
  pub time_base_den : ℤ
  pub extradata : List ℕ

unfoldable pub codec_info_of : Option CodecContext → EncoderConfig → CodecInfo
codec_info_of none config = record {
  codec_id = pos 0;
  width = pos 0;
  height = pos 0;
  fps = pos 30;
  bit_rate = pos 0;
  time_base_num = pos 1;
  time_base_den = pos 30;
  extradata = [];
}
codec_info_of (some ctx) config = record {
  codec_id = ctx.codec_id;
  width = ctx.width;
  height = ctx.height;
  fps = config.fps;
  bit_rate = narrow ctx.bit_rate;
  time_base_num = ctx.time_base_num;
  time_base_den = ctx.time_base_den;
  extradata = ctx.extradata;
}

unfoldable pub get_codec_info : Encoder → CodecInfo
unfolding codec_info_of
get_codec_info e = codec_info_of e.codec_ctx e.config

-- What holds of an encoder that `init` set up: the objects that `encode` calls through are held.
pub record IsReady (e : Encoder) : Type 0 where
  pub open_codec : (c : CodecContext) × (e.codec_ctx ≡ some c)
  pub packet : e.pkt ≡ true
  pub gpu_objects :
      e.gpu_path ≡ true → (e.hw_frames_ctx ≡ true) × ((b : Bool) × (e.last_hw_frame ≡ some b))
  pub gpu_context : e.gpu_path ≡ true → e.d3d_ctx ≡ true
  pub no_null_call : e.null_call ≡ false
  pub cpu_objects : e.gpu_path ≡ false → (e.sws_ctx ≡ true) × (e.yuv_frame ≡ true)
