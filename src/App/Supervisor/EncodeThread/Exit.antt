-- ===== src/App/Supervisor/EncodeThread/Exit.antt =====
-- How the encode thread of src/app/supervisor.cpp ends, and what the next one starts with.
use spout_relay.Base.{
  not, ap, is_empty, is_some, ◌||◌, ℕ, Bool, true, false, ◌||◌, List, Option, none, some, is_some,
  ◌≡◌, refl, sym, subst, ◌∙◌, weaken, arith, ℤ, pos, ltb_ℤ, ◌>>=◌, Returns, returns, bind, branch,
  through, if◌then◌else◌,
}
use spout_relay.Common.Types.{FrameBuffer, FrameMeta}
use spout_relay.Encoder.Types.{EncodedPacket}
use spout_relay.Capture.FramePump.{FramePump, Frame}
use spout_relay.App.Supervisor.State.{Platform, Supervisor, EncodeThread}
use spout_relay.App.Supervisor.EncodeThread.{
  Round, report, publish, send_due, receive, round, finish_round, exit_loop, stop_encode_thread,
  new_thread, start_encode_thread,
}
use spout_relay.App.Supervisor.Ownership.Thread.{frame_interval_us-Returns}

unfoldable pub has_returned : Option EncodeThread → Bool
has_returned none = false
has_returned (some t) = t.returned

-- The thread has returned exactly if it has raised one of the flags that the main thread looks at.
pub record IsTold (s : Supervisor) : Type 0 where
  pub told :
      has_returned s.encode_thread
      ≡ (s.encode_error_flag || (s.rtsp_error_flag || s.resolution_changed_flag))

-- No flag is raised.
pub record IsQuiet (s : Supervisor) : Type 0 where
  pub no_encode_error : s.encode_error_flag ≡ false
  pub no_rtsp_error : s.rtsp_error_flag ≡ false
  pub no_resolution : s.resolution_changed_flag ≡ false

module _ (pf : Platform) (a : Round) where
  report-IsTold :
      (packets : List EncodedPacket) (t : EncodeThread) (s : Supervisor)
      → t.returned ≡ false
      → IsQuiet s
      → IsTold (report pf a packets t s)
  unfolding report has_returned if◌then◌else◌
  report-IsTold packets t s r q = ground arith

  publish-IsTold :
      (t : EncodeThread) (s : Supervisor)
      → t.returned ≡ false
      → is_some s.encoder ≡ true
      → is_some s.rtsp_client ≡ true
      → IsQuiet s
      → Returns IsTold (publish pf a t s)
  unfolding publish has_returned
  publish-IsTold t s r enc cl q = through _ enc λ e _.
      branch _ (λ _. returns (ground arith))
        λ _.
          branch _ (λ _. returns (report-IsTold _ _ _ r (ground arith)))
            λ _. through _ cl λ c _.
              branch _ (λ _. returns (ground arith))
                (λ _. returns (report-IsTold _ _ _ r (ground arith)))

  send_due-IsTold :
      (interval : ℤ) (p : FramePump) (t : EncodeThread) (s : Supervisor)
      → t.returned ≡ false
      → is_some s.encoder ≡ true
      → is_some s.rtsp_client ≡ true
      → IsQuiet s
      → Returns IsTold (send_due pf a interval p t s)
  unfolding send_due has_returned
  send_due-IsTold interval p t s r enc cl q =
      branch _ (λ _. returns (ground arith))
        λ _.
          branch _ (λ _. returns (ground arith))
            λ _. branch _ (λ _. returns (ground arith)) (λ _. publish-IsTold _ s r enc cl q)

  receive-IsTold :
      (interval : ℤ) (f : Option Frame) (p : FramePump) (t : EncodeThread) (s : Supervisor)
      → t.returned ≡ false
      → is_some s.encoder ≡ true
      → is_some s.rtsp_client ≡ true
      → IsQuiet s
      → Returns IsTold (receive pf a interval f p t s)
  unfolding receive has_returned
  receive-IsTold interval none p t s r enc cl q =
      send_due-IsTold interval p t _ r enc cl (ground arith)
  receive-IsTold interval (some (buf, info)) p t s r enc cl q =
      branch _ (λ _. returns (ground arith))
        (λ _. send_due-IsTold interval p _ _ r enc cl (ground arith))

  -- The encode thread never ends unnoticed: after a round that it enters with no flag raised, over an
  -- encoder, a session and a pump and with a positive `encoder.fps`, it has returned exactly if it has
  -- raised the flag of an encode error, of an RTSP error or of a new resolution.
  pub round-IsTold :
      (t : EncodeThread) (s : Supervisor)
      → ltb_ℤ (pos 0) s.config.encoder.fps ≡ true
      → t.returned ≡ false
      → is_some s.frame_pump ≡ true
      → is_some s.encoder ≡ true
      → is_some s.rtsp_client ≡ true
      → IsQuiet s
      → Returns IsTold (round pf a t s)
  unfolding round
  round-IsTold t s fps r pump enc cl q =
      bind (frame_interval_us-Returns s.config.encoder.fps fps)
        λ interval _. through _ pump λ p _. receive-IsTold interval _ _ t s r enc cl q

-- The frame that is left when the thread is joined: the one on the air, or the one that a thread
-- which had returned put aside.
unfoldable pub left_by : EncodeThread → Supervisor → FrameBuffer × FrameMeta
left_by t s =
    if t.returned
    then (s.initial_frame_buf, s.initial_frame_meta)
    else if t.has_freeze
    then (t.freeze_buf, t.freeze_meta)
    else (s.initial_frame_buf, s.initial_frame_meta)

-- A thread that holds a frame to be encoded as a new picture, and knows that it has one exactly if the
-- frame has pixels or a texture.
pub record Holds (frame : FrameBuffer × FrameMeta) (s : Supervisor) : Type 0 where
  pub thread : EncodeThread
  pub running : s.encode_thread ≡ some thread
  pub buffer : thread.freeze_buf ≡ frame.0
  pub meta : thread.freeze_meta ≡ frame.1
  pub usable : thread.has_freeze ≡ not (is_empty frame.0.pixels) || is_some frame.0.gpu_texture
  pub changed : thread.content_changed ≡ true
  pub quiet : IsQuiet s

exit_loop-left :
    (pf : Platform) (t : EncodeThread) (s : Supervisor)
    → ((exit_loop pf (some t) s).initial_frame_buf ≡ (left_by t s).0)
      × ((exit_loop pf (some t) s).initial_frame_meta ≡ (left_by t s).1)
unfolding exit_loop left_by if◌then◌else◌
exit_loop-left pf t s = ground arith

start_encode_thread-Holds :
    (now : ℕ) (s : Supervisor)
    → s.encode_thread ≡ none
    → Returns (Holds (s.initial_frame_buf, s.initial_frame_meta)) (start_encode_thread now s)
unfolding start_encode_thread new_thread
start_encode_thread-Holds now s e =
    branch _ (λ h. cc)
      λ _. returns (record {
        thread = _;
        running = refl;
        buffer = refl;
        meta = refl;
        usable = refl;
        changed = refl;
        quiet = record { no_encode_error = refl; no_rtsp_error = refl; no_resolution = refl };
      })

abbrev joined_from : Platform → Option EncodeThread → Supervisor → Supervisor
joined_from pf o s = record (exit_loop pf o (record s { encode_stop = true })) {
  encode_thread = none;
}

as_left :
    {f g : FrameBuffer × FrameMeta} {u : Supervisor}
    → Holds f u
    → (f.0 ≡ g.0) × (f.1 ≡ g.1)
    → Holds g u
as_left h e = record {
  thread = h.thread;
  running = h.running;
  buffer = h.buffer ∙ e.0;
  meta = h.meta ∙ e.1;
  usable =
      h.usable ∙ ap (λ (b : FrameBuffer). not (is_empty b.pixels) || is_some b.gpu_texture) e.0;
  changed = h.changed;
  quiet = h.quiet;
}

-- When the encode thread is joined between two of its rounds and another is started, the new one starts with the frame that
-- the old one had on the air, or had put aside when it returned, as a new picture and with no flag
-- raised, and it has a frame to send exactly if that frame has pixels or a texture.
pub restart-Holds :
    (pf : Platform) (now : ℕ) (t : EncodeThread) (s : Supervisor)
    → s.encode_thread ≡ some t
    → Returns
        (Holds (left_by t s))
        (do joined ← stop_encode_thread pf none s; start_encode_thread now joined)
unfolding stop_encode_thread finish_round left_by ◌>>=◌
restart-Holds pf now t s e =
    subst (λ o. Returns (Holds (left_by t s)) (start_encode_thread now (joined_from pf o s)))
      (sym e)
      (weaken (start_encode_thread-Holds now (joined_from pf (some t) s) refl)
        (λ u h. as_left h (exit_loop-left pf t (record s { encode_stop = true }))))
