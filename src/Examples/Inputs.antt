-- ===== src/Examples/Inputs.antt =====
-- Settings, answers and states that the examples share.
use spout_relay.Base.{ℕ, ◌*◌, ltb, true, false, [], ◌∷◌, none, some, pos, pos_part}
use spout_relay.Common.Types.{RtspConfig, FrameBuffer, FrameMeta, rgba}
use spout_relay.Common.Backoff.{FloatOps}
use spout_relay.Config.Types.{AppConfig}
use spout_relay.Placeholder.Gdi.{Gdi}
use spout_relay.Spout.Monitor.{Reception}
use spout_relay.Encoder.Types.{EncodedPacket, CodecInfo, default_config, yuv420p, nv12}
use spout_relay.Encoder.Init.{GpuAnswers, CodecAnswers}
use spout_relay.Encoder.Encode.{EncodeAnswers, packet, again}
use spout_relay.Rtsp.Client.{ConnectAnswers, SendAnswers}
use spout_relay.App.Supervisor.State.{Platform, InitAnswers}
use spout_relay.App.Supervisor.EncodeThread.{Round}
use spout_relay.App.Supervisor.Resources.{OutputAnswers}
use spout_relay.App.Supervisor.Handlers.Connecting.{ConnectingInputs}
use spout_relay.App.Supervisor.Handlers.Placeholder.{PlaceholderInputs}
use spout_relay.App.Supervisor.Handlers.Recovery.{ReconfiguringInputs, ReconnectingInputs}
use spout_relay.App.Supervisor.Run.{Inputs, captures, encodes}

-- Floats whose bit patterns are the integers that they stand for.
abbrev pub whole_floats : FloatOps
whole_floats = record { of_int = pos_part; mul = λ x y. x * y; lt = ltb; to_int = pos }

abbrev pub platform : Platform
platform = record { float = whole_floats; per_second = λ n ms. n; kilobits = λ n ms. n }

abbrev pub rtsp_settings : RtspConfig
rtsp_settings = record {
  url = "rtsp://localhost:8554/live";
  connect_timeout_ms = pos 5000;
  send_timeout_ms = pos 5000;
  max_reconnect_attempts = pos 3;
  reconnect_delay_ms = pos 1000;
  reconnect_max_delay_ms = pos 30000;
  reconnect_backoff_multiplier = 2;
}

-- A GDI that draws nothing.
abbrev pub no_gdi : Gdi
no_gdi = record {
  dc = false;
  dib = false;
  bits = false;
  dib_selected = false;
  brush = false;
  font = λ i. false;
  font_selected = λ i. false;
  paint = λ calls. [];
  utf16 = λ s. [];
}

abbrev pub settings : AppConfig
settings = record {
  app = record {
    instance_name = "relay";
    log_dir = "logs";
    metrics_path = "m.json";
    health_path = "h.json";
  };
  spout = record {
    sender_name = "game";
    poll_interval_ms = pos 5;
    frame_timeout_ms = pos 3000;
    sender_missing_timeout_ms = pos 10000;
    prefer_dx11 = true;
    stalled_recovery_max_attempts = pos 3;
  };
  placeholder = record {
    enabled = true;
    width = pos 2;
    height = pos 2;
    message = "NO SIGNAL";
    background_hex = "#000000";
    text_hex = "#FFFFFF";
    show_sender_name = false;
  };
  encoder = default_config;
  rtsp = rtsp_settings;
  runtime = record {
    shutdown_grace_ms = pos 5000;
    emit_metrics_interval_ms = pos 1000;
    emit_health_interval_ms = pos 5000;
  };
}

abbrev pub good_start : InitAnswers
good_start = record { log_failure = none; system_now_ms = 1000; directx = true }

abbrev pub picture : FrameBuffer
picture = record {
  pixels = 1 ∷ 2 ∷ 3 ∷ 255 ∷ [];
  width = 1;
  height = 1;
  format = rgba;
  gpu_texture = none;
}

abbrev pub picture_meta : FrameMeta
picture_meta = record { sequence = 7; timestamp_us = 70; width = 1; height = 1 }

abbrev pub reception : Reception
reception = record {
  sender_size = some (1, 1);
  device_removed = false;
  received = true;
  sender_width = 1;
  sender_height = 1;
  updated = false;
  sender_name = "game";
  sender_fps = 60;
  frame_new = true;
  texture = none;
  dxgi_format = 28;
  image = λ pixels. pixels;
  now_us = 70;
}

abbrev pub no_gpu : GpuAnswers
no_gpu = record {
  device_alloc = false;
  device_init = false;
  frames_alloc = false;
  frames_init = false;
}

abbrev pub codec : CodecAnswers
codec = record {
  found = true;
  context_alloc = true;
  codec_id = pos 27;
  formats = some (nv12 ∷ yuv420p ∷ []);
  gpu = no_gpu;
  open_error = none;
  extradata = 9 ∷ [];
  hw_frame_alloc = true;
  packet_alloc = true;
  sws_context = true;
  sws_colorspace = true;
  frame_alloc = true;
  frame_buffer = true;
}

abbrev pub good_connection : ConnectAnswers
good_connection = record {
  alloc_error = none;
  new_stream = true;
  extradata_alloc = true;
  header_error = none;
  packet_alloc = true;
}

abbrev pub output : OutputAnswers
output = record {
  gpu_device = false;
  sender_live = true;
  sender_format = 28;
  codecs = λ i. codec;
  rtsp = good_connection;
}

abbrev pub encoding : EncodeAnswers
encoding = record {
  device_removed = false;
  frame_alloc = true;
  pool_buffer = true;
  keep_ref = true;
  send_alloc = true;
  send_ref = true;
  make_writable = true;
  send = true;
  drained =
      packet
        (record { payload = 5 ∷ 6 ∷ []; pts = pos 0; dts = pos 0; duration = pos 1; key = true })
      ∷ again
      ∷ [];
}

abbrev pub sending : SendAnswers
sending = record { packet_data = true; written = true }

abbrev pub encode_round_inputs : Round
encode_round_inputs = record {
  now_wait = 1000;
  now_received = 2000;
  now_due = 3000000;
  now_age = 3000000;
  now_reset = 3000000;
  now_stamp = 3000000;
  now_metrics = 3000000;
  now_metrics_reset = 3000000;
  encode = encoding;
  sends = λ i. sending;
}

abbrev pub packet_of : ℕ → EncodedPacket
packet_of n = record {
  payload = n ∷ [];
  pts = pos n;
  dts = pos n;
  duration = pos 1;
  is_key_frame = false;
  time_base_num = pos 1;
  time_base_den = pos 30;
}

abbrev pub stream : CodecInfo
stream = record {
  codec_id = pos 27;
  width = pos 1;
  height = pos 1;
  fps = pos 30;
  bit_rate = pos 4000000;
  time_base_num = pos 1;
  time_base_den = pos 30;
  extradata = [];
}

abbrev pub connecting : ConnectingInputs
connecting = record {
  stop = false;
  last = none;
  polls = λ i. record { stop = false; reception = reception; took_us = 10; late_us = 0 };
  stop_after = false;
  output = output;
  now_pump = 2000;
  now_streaming = 2000;
}

abbrev pub reconfiguring_inputs : ReconfiguringInputs
reconfiguring_inputs = record {
  stop = false;
  last = none;
  output = record output { rtsp = record good_connection { header_error = some "refused" } };
  now_pump = 2000;
  now_streaming = 2000;
}

abbrev pub reconnecting_inputs : ReconnectingInputs
reconnecting_inputs = record {
  stop = false;
  last = none;
  stop_after = false;
  output = output;
  now_streaming = 2000;
}

abbrev pub placeholder_inputs : PlaceholderInputs
placeholder_inputs = record {
  stop = false;
  last = none;
  gdi = no_gdi;
  output = output;
  now_started = 2000;
  now_probe = 3000;
  now_probe_reset = 3000;
  found = false;
  now_cooldown = 4000;
  now_due = 5000;
  now_frame = 5000;
  now_stamp = 5000;
  now_failed = 5000;
  encode = encoding;
  sends = λ i. sending;
  now_metrics = 5000;
  now_metrics_reset = 5000;
}

-- A round in which the sender answers and nothing fails.
abbrev pub round_inputs : Inputs
round_inputs = record {
  background = captures reception 1000 1000 ∷ encodes encode_round_inputs ∷ [];
  stop = false;
  last = some encode_round_inputs;
  idle = record { stop = false; now = 1000 };
  probing = record {
    stop = false;
    found = true;
    now_expired = 1000;
    now_reset = 1000;
    now_cooldown = 1000;
  };
  placeholder = placeholder_inputs;
  connecting = connecting;
  streaming = record {
    stop = false;
    last = none;
    has_device = true;
    device_removed = false;
    now_alive = 1000;
    now_stall = 1000;
  };
  stalled = record {
    stop = false;
    last = none;
    has_device = true;
    device_removed = false;
    now_alive = 1000;
    now_missing = 1000;
    found_missing = true;
    now_prolonged = 1000;
    found_prolonged = true;
  };
  reconfiguring = reconfiguring_inputs;
  reconnecting = reconnecting_inputs;
  recovering = record { stop = false; last = none; reopened = true };
}
