-- ===== src/App/Supervisor/Handlers/Placeholder.antt =====
-- `handle_placeholder` of src/app/supervisor.cpp.
use spout_relay.Base.{
  ℕ, suc, ◌+◌, Bool, true, false, not, ◌&&◌, ◌||◌, ◌!=◌, leb, List, [], ◌∷◌, Option, none, some, ℤ,
  pos, ltb_ℤ, to_int, if◌then◌else◌, is_some, is_empty, length, Outcome, done, ◌>>=◌, deref,
  null_encoder, null_rtsp_client,
}
use spout_relay.Common.Types.{stopping, connecting_output, FrameMeta}
use spout_relay.Common.Time.{expired, elapsed_us, elapsed_ms}
use spout_relay.Logging.Sink.{info, err, str, num, log_event, log_error, log_publish_started}
use spout_relay.Metrics.Store.{increment_frames_encoded, set_current_fps, set_bitrate_kbps}
use spout_relay.Spout.Monitor.{probe_sender}
use spout_relay.Spout.Monitor
use spout_relay.Encoder.Types.{EncodedPacket, request_next_idr}
use spout_relay.Encoder.Encode.{EncodeAnswers, encode}
use spout_relay.Rtsp.Client.{RtspClient, SendAnswers, send_packet}
use spout_relay.Placeholder.Gdi.{Gdi}
use spout_relay.Placeholder.Renderer.{render_placeholder_frame}
use spout_relay.App.Logic.{can_seamless_handoff}
use spout_relay.App.Supervisor.State.{Platform, Supervisor, log, measure, transition, poll_stop}
use spout_relay.App.Supervisor.EncodeThread.{Round, frame_interval_us}
use spout_relay.App.Supervisor.Resources.{
  OutputAnswers, init_encoder_and_rtsp, teardown_encoder, teardown_rtsp, teardown_streaming,
}

-- `gdi` is what GDI does; the readings of the clock stand in their order.
pub record PlaceholderInputs : Type 0 where
  pub stop : Bool
  pub last : Option Round
  pub gdi : Gdi
  pub output : OutputAnswers
  pub now_started : ℕ
  pub now_probe : ℕ
  pub now_probe_reset : ℕ
  pub found : Bool
  pub now_cooldown : ℕ
  pub now_due : ℕ
  pub now_frame : ℕ
  pub now_stamp : ℕ
  pub now_failed : ℕ
  pub encode : EncodeAnswers
  pub sends : ℕ → SendAnswers
  pub now_metrics : ℕ
  pub now_metrics_reset : ℕ

-- `rtsp_client_ && rtsp_client_->is_connected()`.
unfoldable pub rtsp_up : Option RtspClient → Bool
rtsp_up none = false
rtsp_up (some c) = c.connected

-- `static_cast<uint32_t>` of a setting that is positive.
abbrev pub size_setting : ℤ → ℕ
size_setting (pos n) = n
size_setting _ = 0

-- `n ? n : fallback`.
abbrev pub size_or : ℕ → ℕ → ℕ
size_or n fallback = if n != 0 then n else fallback

-- The end of the start: the picture is on the air.
unfoldable pub placeholder_started : PlaceholderInputs → ℕ → ℕ → Supervisor → Supervisor
placeholder_started a w h s = record s {
  current_width = w;
  current_height = h;
  placeholder_active = true;
  placeholder_frame_timer = a.now_started;
  placeholder_probe_timer = a.now_started;
  placeholder_frames_since_last = 0;
  placeholder_bytes_since_last = 0;
  placeholder_metrics_sw = a.now_started;
}

-- A new session for the picture. The flag says whether the handler goes on.
unfoldable pub open_output : PlaceholderInputs → ℕ → ℕ → Supervisor → Bool × Supervisor
open_output a w h s =
    let (ready, _, s') = init_encoder_and_rtsp a.output w h s in
    if not ready then (false, teardown_encoder (teardown_rtsp s')) else (
      true,
      placeholder_started a w h (
          log (log_event info "placeholder_started" (("name", str s.config.spout.sender_name) ∷ []))
            (log (log_publish_started s.config.rtsp.url (to_int w) (to_int h) s.config.encoder.fps)
              s')),
    )

-- Seamless: the picture goes out over the session that is up, first as an IDR.
unfoldable pub take_over_session :
    PlaceholderInputs → ℕ → ℕ → Supervisor → Outcome (Bool × Supervisor)
take_over_session a w h s = do
  e ← deref null_encoder s.encoder
  done (
    true,
    placeholder_started a w h (
        log
          (log_event info "placeholder_seamless" (
            ("name", str s.config.spout.sender_name)
            ∷ ("width", num (pos w))
            ∷ ("height", num (pos h))
            ∷ []))
          (record s { encoder = some (request_next_idr e) })),
  )

-- The first visit: render the picture, then take over the session or open one.
unfoldable pub start_placeholder : PlaceholderInputs → Supervisor → Outcome (Bool × Supervisor)
start_placeholder a s = do
  let w = size_or s.last_source_width (size_setting s.config.placeholder.width)
  let h = size_or s.last_source_height (size_setting s.config.placeholder.height)
  let frame = render_placeholder_frame a.gdi s.config.placeholder s.config.spout.sender_name w h
  let s₁ : Supervisor = record s { placeholder_frame = frame }
  let meta : FrameMeta = record { sequence = 0; timestamp_us = 0; width = w; height = h }
  let seamless =
      can_seamless_handoff s.seamless_handoff (is_some s.encoder) (rtsp_up s.rtsp_client) w h
        s.current_width s.current_height
  let s₂ : Supervisor = record s₁ {
    placeholder_meta = meta;
    placeholder_content_changed = true;
    seamless_handoff = false;
  }
  if is_empty frame.pixels || (frame.width != w || frame.height != h)
      then done (
        false,
        log
            (log_event err "placeholder_render_failed"
              (("width", num (pos w)) ∷ ("height", num (pos h)) ∷ []))
            s₁,
      )
      else if seamless
      then take_over_session a w h s₂
      else done (open_output a w h s₂)

-- A session that is up is kept for a seamless hand-over, any other is closed.
unfoldable pub keep_session : Supervisor → Supervisor
keep_session s =
    if is_some s.encoder && rtsp_up s.rtsp_client
    then (record s { seamless_handoff = true })
    else teardown_encoder (teardown_rtsp s)

-- The source is back: on to CONNECTING_OUTPUT.
unfoldable pub leave_placeholder : PlaceholderInputs → Supervisor → Supervisor
leave_placeholder a s =
    let kept = keep_session (
      log
        (log_event info "placeholder_source_found" (("name", str s.config.spout.sender_name) ∷ []))
        s) in
    transition connecting_output (record kept {
      placeholder_active = false;
      placeholder_cooldown_timer = a.now_cooldown;
      placeholder_cooldown_active = true;
    })

-- The sending loop: the bytes sent are counted up to the packet that fails.
unfoldable pub send_placeholder :
    (ℕ → SendAnswers) → ℕ → List EncodedPacket → ℕ → RtspClient → Bool × ℕ × RtspClient
send_placeholder answers i [] bytes c = (true, bytes, c)
send_placeholder answers i (p ∷ packets) bytes c =
    let (sent, c') = send_packet (answers i) p c in
    let rest = send_placeholder answers (suc i) packets (bytes + length p.payload) c' in
    if not sent then (false, bytes, c') else rest

-- The failure of encoding or sending: the session is closed, and opened again on the next visit.
unfoldable pub placeholder_failed : Supervisor → Supervisor
placeholder_failed s = record (teardown_encoder (teardown_rtsp s)) { placeholder_active = false }

module _ (pf : Platform) where
  unfoldable pub count_placeholder : PlaceholderInputs → Supervisor → Supervisor
  count_placeholder a s =
      let frames = suc s.placeholder_frames_since_last in
      let elapsed = elapsed_ms a.now_metrics s.placeholder_metrics_sw in
      let counted = measure increment_frames_encoded s in
      if leb 1000 elapsed
      then (record (measure (set_bitrate_kbps (pf.kilobits s.placeholder_bytes_since_last elapsed))
          (measure (set_current_fps (pf.per_second frames elapsed)) counted)) {
            placeholder_frames_since_last = 0;
            placeholder_bytes_since_last = 0;
            placeholder_metrics_sw = a.now_metrics_reset;
          })
      else record counted { placeholder_frames_since_last = frames }

  -- One frame of the picture, when it is due.
  unfoldable pub send_picture : PlaceholderInputs → Supervisor → Outcome Supervisor
  send_picture a s = do
    e ← deref null_encoder s.encoder
    let info : FrameMeta = record s.placeholder_meta { timestamp_us = a.now_stamp }
    let (encoded, packets, e') =
        encode a.encode s.placeholder_frame s.placeholder_content_changed [] e
    let s₁ : Supervisor = record s {
      placeholder_frame_timer = a.now_frame;
      placeholder_meta = info;
      encoder = some e';
    }
    let s₂ : Supervisor = record s₁ { placeholder_content_changed = false }
    if not encoded
        then done (
            placeholder_failed
              (log (log_error "ENCODER_ENCODE_FAILED" "placeholder encode() returned false" []) s₁))
        else if is_empty packets
        then done s₂
        else do
          c ← deref null_rtsp_client s.rtsp_client
          let (sent, bytes, c') =
              send_placeholder a.sends 0 packets s.placeholder_bytes_since_last c
          let s₃ : Supervisor = record s₂ {
            rtsp_client = some c';
            placeholder_bytes_since_last = bytes;
          }
          if not sent
              then done
                  (record (placeholder_failed
                    (log (log_error "RTSP_SEND_FAILED" "placeholder send_packet failed" []) s₃)) {
                      placeholder_frames_since_last = 0;
                      placeholder_bytes_since_last = 0;
                      placeholder_metrics_sw = a.now_failed;
                    })
              else done (count_placeholder a s₃)

  unfoldable pub send_if_due : PlaceholderInputs → Supervisor → Outcome Supervisor
  send_if_due a s = do
    interval ← frame_interval_us s.config.encoder.fps
    if ltb_ℤ (pos (elapsed_us a.now_due s.placeholder_frame_timer)) interval
        then done s
        else send_picture a s

  -- Behind the start: look for the source every poll interval, then send.
  unfoldable pub run_placeholder : PlaceholderInputs → Supervisor → Outcome Supervisor
  run_placeholder a s =
      if expired a.now_probe s.placeholder_probe_timer s.config.spout.poll_interval_ms
      then (let s₁ : Supervisor = record s { placeholder_probe_timer = a.now_probe_reset } in
          if probe_sender a.found s.spout_monitor
          then (let (connected, error, m) =
                Monitor.connect s.config.spout.sender_name s.spout_monitor in
              let s₂ : Supervisor = record s₁ { spout_monitor = m } in
              if connected
              then done (leave_placeholder a s₂)
              else send_if_due a (log (log_error "SPOUT_CONNECT_FAILED" error []) s₂))
          else send_if_due a s₁)
      else send_if_due a s

  unfoldable pub handle_placeholder : PlaceholderInputs → Supervisor → Outcome Supervisor
  handle_placeholder a s =
      let s' = poll_stop a.stop s in
      if s'.shutdown_requested
      then (do t ← teardown_streaming pf a.last s'; done (transition stopping t))
      else if not s'.placeholder_active
      then (do
        started ← start_placeholder a s'
        if started.0 then run_placeholder a started.1 else done started.1)
      else run_placeholder a s'
