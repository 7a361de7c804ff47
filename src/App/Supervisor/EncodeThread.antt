-- ===== src/App/Supervisor/EncodeThread.antt =====
-- `encode_publish_thread_func`, `start_encode_thread` and `stop_encode_thread` of
-- src/app/supervisor.cpp. The thread is the function of one round of its loop.
pub mod Exit
pub mod Send
use spout_relay.Base.{
  ℕ, zero, suc, ◌+◌, ◌-◌, ◌*◌, ◌/◌, Bool, true, false, not, ◌||◌, ltb, leb, List, [], ◌∷◌, Option,
  none, some, ℤ, pos, negsuc, ◌*ℤ◌, sub_ℕ, ltb_ℤ, leb_ℤ, if◌then◌else◌, is_some, is_empty, length,
  pos_part, neg_part, Outcome, done, fault, ◌>>=◌, null_encoder, null_rtsp_client, null_frame_pump,
  thread_overwritten, division_by_zero, deref, narrow, ◌+ℤ◌,
}
use spout_relay.Common.Types.{FrameBuffer, FrameMeta, empty_buffer, empty_meta}
use spout_relay.Common.Time.{to_ms, elapsed_us, elapsed_ms}
use spout_relay.Logging.Sink.{log_error, log_frame_received}
use spout_relay.Metrics.Store.{
  increment_frames_received, increment_frames_encoded, increment_frames_dropped,
  increment_rtsp_errors, set_current_fps, set_bitrate_kbps,
}
use spout_relay.Capture.FramePump.{FramePump, Frame, moved, try_pop, wait_pop}
use spout_relay.Encoder.Types.{EncodedPacket}
use spout_relay.Encoder.Encode.{EncodeAnswers, encode}
use spout_relay.Rtsp.Client.{RtspClient, SendAnswers, send_packet}
use spout_relay.App.Logic.{resolution_changed}
use spout_relay.App.Supervisor.State.{Platform, Supervisor, EncodeThread, log, measure}

-- `1'000'000LL / config_.encoder.fps`.
unfoldable pub frame_interval_us : ℤ → Outcome ℤ
frame_interval_us (pos zero) = fault division_by_zero
frame_interval_us (pos (suc n)) = done (pos (1000000 / suc n))
frame_interval_us (negsuc n) = done (sub_ℕ 0 (1000000 / suc n))

-- `std::min(a, b)`.
abbrev min_ℤ : ℤ → ℤ → ℤ
min_ℤ a b = if ltb_ℤ b a then b else a

-- What one round meets: the readings of the clock in their order, and the answers below it.
pub record Round : Type 0 where
  pub now_wait : ℕ
  pub now_received : ℕ
  pub now_due : ℕ
  pub now_age : ℕ
  pub now_reset : ℕ
  pub now_stamp : ℕ
  pub now_metrics : ℕ
  pub now_metrics_reset : ℕ
  pub encode : EncodeAnswers
  pub sends : ℕ → SendAnswers

-- `for (auto& pkt : packets) if (!rtsp_client_->send_packet(pkt)) ...`
unfoldable pub send_all :
    (ℕ → SendAnswers) → ℕ → List EncodedPacket → RtspClient → Bool × RtspClient
send_all answers i [] c = (true, c)
send_all answers i (p ∷ packets) c =
    let (sent, c') = send_packet (answers i) p c in
    let rest = send_all answers (suc i) packets c' in if not sent then (false, c') else rest

unfoldable pub bytes_of : List EncodedPacket → ℕ
bytes_of [] = 0
bytes_of (p ∷ packets) = length p.payload + bytes_of packets

abbrev pub keep_thread : EncodeThread → Supervisor → Supervisor
keep_thread t s = record s { encode_thread = some t }

-- `initial_frame_buf_ = std::move(freeze_buf); initial_frame_meta_ = freeze_meta;`
abbrev pub save_freeze : EncodeThread → Supervisor → Supervisor
save_freeze t s = record s {
  initial_frame_buf = t.freeze_buf;
  initial_frame_meta = t.freeze_meta;
  encode_thread = some (record t { freeze_buf = moved t.freeze_buf });
}

-- An early `return` behind `save_freeze`.
abbrev pub leave : EncodeThread → Supervisor → Supervisor
leave t s = record (save_freeze t s) {
  encode_thread = some (record t { freeze_buf = moved t.freeze_buf; returned = true });
}

module _ (pf : Platform) where
  -- The rates of the last second, once a second.
  unfoldable pub report : Round → List EncodedPacket → EncodeThread → Supervisor → Supervisor
  report a packets t s =
      if is_empty packets
      then keep_thread t s
      else let frames = suc t.frames_since_last in
        let bytes = t.bytes_since_last + bytes_of packets in
        let elapsed = elapsed_ms a.now_metrics t.metrics_sw in
        let counted = measure increment_frames_encoded s in
        if leb 1000 elapsed
        then keep_thread
            (record t {
              frames_since_last = 0;
              bytes_since_last = 0;
              metrics_sw = a.now_metrics_reset;
            })
            (measure (set_bitrate_kbps (pf.kilobits bytes elapsed))
              (measure (set_current_fps (pf.per_second frames elapsed)) counted))
        else keep_thread (record t { frames_since_last = frames; bytes_since_last = bytes }) counted

  -- Encoding the freeze frame and sending what comes out.
  unfoldable pub publish : Round → EncodeThread → Supervisor → Outcome Supervisor
  publish a t s = do
    e ← deref null_encoder s.encoder
    let (encoded, packets, e') = encode a.encode t.freeze_buf t.content_changed [] e
    let s₁ : Supervisor = record s { encoder = some e' }
    if not encoded
        then done (
            leave t
              (record (measure increment_frames_dropped
                (log (log_error "ENCODER_ENCODE_FAILED" "encode() returned false" []) s₁)) {
                  encode_error_flag = true;
                }))
        else if is_empty packets
        then done (report a packets (record t { content_changed = false }) s₁)
        else do
          c ← deref null_rtsp_client s.rtsp_client
          let (sent, c') = send_all a.sends 0 packets c
          let s₂ : Supervisor = record s₁ { rtsp_client = some c' }
          let t' : EncodeThread = record t { content_changed = false }
          if not sent
              then done (
                  leave t'
                    (record (measure increment_rtsp_errors
                      (log (log_error "RTSP_SEND_FAILED" "send_packet failed" []) s₂)) {
                        rtsp_error_flag = true;
                      }))
              else done (report a packets t' s₂)

  -- From the test of the send interval to the end of the round.
  unfoldable pub send_due : Round → ℤ → FramePump → EncodeThread → Supervisor → Outcome Supervisor
  send_due a interval p t s =
      if ltb_ℤ (pos (elapsed_us a.now_due t.frame_sw)) interval
      then done (keep_thread t s)
      else if not t.has_freeze
      then done (keep_thread t s)
      else if ltb_ℤ s.config.spout.frame_timeout_ms (sub_ℕ (to_ms a.now_age) p.last_source_alive_ms)
      then done (keep_thread (record t { frame_sw = a.now_reset }) s)
      else publish a
          (record t {
            frame_sw = a.now_reset;
            freeze_meta = record t.freeze_meta { timestamp_us = a.now_stamp };
          })
          s

  -- A new frame, or none, from the pump.
  unfoldable pub receive :
      Round → ℤ → Option Frame → FramePump → EncodeThread → Supervisor → Outcome Supervisor
  receive a interval none p t s = send_due a interval p t (record s { frame_pump = some p })
  receive a interval (some (buf, info)) p t s =
      let t' : EncodeThread = record t {
        freeze_buf = buf;
        freeze_meta = info;
        has_freeze = true;
        content_changed = true;
      } in
      let s' : Supervisor = log (log_frame_received info.sequence info.width info.height) (
        measure increment_frames_received
          (record s { frame_pump = some p; last_frame_time_ms = to_ms a.now_received })) in
      if resolution_changed info.width info.height s.current_width s.current_height
      then done (
          leave t' (record s' {
            pending_width = info.width;
            pending_height = info.height;
            resolution_changed_flag = true;
          }))
      else send_due a interval p t' s'

  -- `wait_ms` of the loop.
  unfoldable pub wait_ms : ℤ → ℕ → ℤ → ℤ
  wait_ms interval elapsed poll_interval_ms =
      if ltb_ℤ (pos elapsed) interval
      then min_ℤ (narrow (pos ((pos_part interval - elapsed) / 1000)) +ℤ pos 1)
          (narrow (poll_interval_ms *ℤ pos 2))
      else pos 0

  -- One round of the loop of a thread that has not returned.
  unfoldable pub round : Round → EncodeThread → Supervisor → Outcome Supervisor
  round a t s = do
    interval ← frame_interval_us s.config.encoder.fps
    p ← deref null_frame_pump s.frame_pump
    let wait = wait_ms interval (elapsed_us a.now_wait t.frame_sw) s.config.spout.poll_interval_ms
    let (got, p') = if ltb_ℤ (pos 0) wait then wait_pop p else try_pop p
    receive a interval got p' t s

  -- A round, if the thread is there and still runs.
  unfoldable pub encode_round : Round → Option EncodeThread → Supervisor → Outcome Supervisor
  encode_round a none s = done s
  encode_round a (some t) s = if t.returned then done s else round a t s

  -- The end of the loop by `encode_stop_`.
  unfoldable pub exit_loop : Option EncodeThread → Supervisor → Supervisor
  exit_loop none s = s
  exit_loop (some t) s = if t.returned then s else if t.has_freeze then save_freeze t s else s

  -- `last` is the round that the thread is in when `encode_stop_` is set, if it is in one.
  unfoldable pub finish_round : Option Round → Supervisor → Outcome Supervisor
  finish_round none s = done s
  finish_round (some a) s = encode_round a s.encode_thread s

  unfoldable pub stop_encode_thread : Option Round → Supervisor → Outcome Supervisor
  stop_encode_thread last s = do
    s' ← finish_round last (record s { encode_stop = true })
    done (record (exit_loop s'.encode_thread s') { encode_thread = none })

-- The locals of a thread that starts with the saved frame.
unfoldable pub new_thread : ℕ → Supervisor → EncodeThread
new_thread now s = record {
  returned = false;
  freeze_buf = s.initial_frame_buf;
  freeze_meta = s.initial_frame_meta;
  has_freeze = not (is_empty s.initial_frame_buf.pixels) || is_some s.initial_frame_buf.gpu_texture;
  content_changed = true;
  frame_sw = now;
  metrics_sw = now;
  bytes_since_last = 0;
  frames_since_last = 0;
}

unfoldable pub start_encode_thread : ℕ → Supervisor → Outcome Supervisor
start_encode_thread now s =
    if is_some s.encode_thread
    then fault thread_overwritten
    else done (record s {
      encode_stop = false;
      encode_error_flag = false;
      rtsp_error_flag = false;
      resolution_changed_flag = false;
      encode_thread = some (new_thread now s);
      initial_frame_buf = moved s.initial_frame_buf;
      initial_frame_meta = empty_meta;
    })
