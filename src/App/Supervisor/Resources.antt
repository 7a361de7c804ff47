-- ===== src/App/Supervisor/Resources.antt =====
-- `init_encoder_and_rtsp` and the teardown helpers of src/app/supervisor.cpp.
use spout_relay.Base.{
  ℕ, Bool, true, false, not, [], ◌∷◌, Option, none, some, String, to_int, if◌then◌else◌, Outcome,
  done, ◌>>=◌,
}
use spout_relay.Logging.Sink.{
  info, str, log_event, log_error, log_encoder_initialized, log_publish_stopped,
}
use spout_relay.Metrics.Store.{set_encoder_codec}
use spout_relay.Spout.Monitor.{set_gpu_mode, get_sender_dxgi_format}
use spout_relay.Encoder.Types.{Encoder, new_encoder, get_codec_info}
use spout_relay.Encoder.Init.{CodecAnswers}
use spout_relay.Encoder.Init
use spout_relay.Rtsp.Client.{RtspClient, ConnectAnswers, new_client}
use spout_relay.Rtsp.Client
use spout_relay.App.Supervisor.State.{Platform, Supervisor, log, measure}
use spout_relay.App.Supervisor.EncodeThread.{Round, stop_encode_thread}

-- The answers of SpoutDX about the device and the sender, of the codecs, and of the RTSP session.
pub record OutputAnswers : Type 0 where
  pub gpu_device : Bool
  pub sender_live : Bool
  pub sender_format : ℕ
  pub codecs : ℕ → CodecAnswers
  pub rtsp : ConnectAnswers

-- The session over an encoder that is ready: `rtsp_client_->connect`.
unfoldable pub connect_rtsp : OutputAnswers → Encoder → Supervisor → Bool × String × Supervisor
connect_rtsp a e s =
    let (connected, error, c) = Client.connect a.rtsp s.config.rtsp (get_codec_info e) new_client in
    let s' : Supervisor = record s { rtsp_client = some c } in
    if not connected
    then (false, error, log (log_error "RTSP_CONNECT_FAILED" error []) s')
    else (true, error, s')

-- The receive path follows the encoder's.
unfoldable pub choose_path : Bool → Supervisor → Supervisor
choose_path gpu s =
    log
      (log_event info (if gpu then "gpu_zero_copy_enabled" else "gpu_zero_copy_disabled")
        (("codec", str s.config.encoder.codec) ∷ []))
      (record s { spout_monitor = set_gpu_mode gpu s.spout_monitor })

unfoldable pub init_encoder_and_rtsp :
    OutputAnswers → ℕ → ℕ → Supervisor → Bool × String × Supervisor
init_encoder_and_rtsp a width height s =
    let config = s.config.encoder in
    let format = get_sender_dxgi_format a.sender_live a.sender_format s.spout_monitor in
    let (ready, error, e) =
      Init.init a.codecs config width height a.gpu_device format new_encoder in
    let s' : Supervisor = record s { encoder = some e } in
    if not ready
    then (false, error, log (log_error "ENCODER_INIT_FAILED" error []) s')
    else connect_rtsp a e (
        measure (set_encoder_codec config.codec) (
          log
            (log_encoder_initialized config.codec (to_int width) (to_int height) config.fps
              config.bitrate_kbps)
            (choose_path e.gpu_path s')))

-- `if (frame_pump_) { frame_pump_->stop(); frame_pump_.reset(); }`; the thread of the pump is joined.
unfoldable pub drop_pump : Supervisor → Supervisor
drop_pump s = record s { frame_pump = none }

-- The packets of the final flush are dropped, and so is the encoder with all that `reset` frees.
unfoldable pub teardown_encoder : Supervisor → Supervisor
teardown_encoder s = record s {
  encoder = none;
  spout_monitor = set_gpu_mode false s.spout_monitor;
  initial_frame_buf = record s.initial_frame_buf { gpu_texture = none };
}

-- `publish_stopped` is logged for a session that is still up.
unfoldable pub note_stopped : Option RtspClient → Supervisor → Supervisor
note_stopped none s = s
note_stopped (some c) s = if c.connected then log (log_publish_stopped "teardown") s else s

unfoldable pub teardown_rtsp : Supervisor → Supervisor
teardown_rtsp s = record (note_stopped s.rtsp_client s) { rtsp_client = none }

unfoldable pub teardown_streaming : Platform → Option Round → Supervisor → Outcome Supervisor
teardown_streaming pf last s = do
  s' ← stop_encode_thread pf last s
  done (teardown_encoder (teardown_rtsp (drop_pump s')))
