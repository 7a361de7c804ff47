-- ===== src/App/Supervisor/Ownership/Thread.antt =====
-- The encode thread of src/app/supervisor.cpp leaves alone what the main thread holds.
use spout_relay.Base.{
  ℕ, true, Option, none, some, is_some, ◌≡◌, refl, arith, ℤ, pos, ltb_ℤ, suc, zero, negsuc, List,
  Returns, returns, bind, branch, through, inl, inr, ◌⊎◌, if◌then◌else◌, ◌>>=◌,
}
use spout_relay.Encoder.Types.{EncodedPacket}
use spout_relay.Capture.FramePump.{FramePump, Frame}
use spout_relay.App.Supervisor.State.{Platform, Supervisor, EncodeThread}
use spout_relay.App.Supervisor.EncodeThread.{
  Round, frame_interval_us, report, publish, send_due, receive, round, encode_round, exit_loop,
  finish_round, stop_encode_thread, start_encode_thread,
}
use spout_relay.App.Supervisor.Ownership.Defs.{Kept, IsPublishing}

pub frame_interval_us-Returns :
    (fps : ℤ) → ltb_ℤ (pos 0) fps ≡ true → Returns (λ _. Unit {0}) (frame_interval_us fps)
unfolding frame_interval_us
frame_interval_us-Returns (pos zero) h = ground arith
frame_interval_us-Returns (pos (suc n)) h = returns tt
frame_interval_us-Returns (negsuc n) h = ground arith

-- The thread and all that it works on are there, and the rest is as it was.
pub record Works (s t : Supervisor) : Type 0 where
  pub kept : Kept s t
  pub thread : is_some t.encode_thread ≡ true
  pub pump : is_some t.frame_pump ≡ true
  pub encoder : is_some t.encoder ≡ true
  pub client : is_some t.rtsp_client ≡ true

module _ (pf : Platform) (a : Round) (r : Supervisor) where
  report-Works :
      (packets : List EncodedPacket) (t : EncodeThread) (s : Supervisor)
      → Works r s
      → Works r (report pf a packets t s)
  unfolding report if◌then◌else◌
  report-Works packets t s w = ground arith

  publish-Works :
      (t : EncodeThread) (s : Supervisor) → Works r s → Returns (Works r) (publish pf a t s)
  unfolding publish
  publish-Works t s w = through _ w.encoder λ e _.
      branch _ (λ _. returns (ground arith))
        (λ _.
          branch _ (λ _. returns (report-Works _ _ _ (ground arith)))
            (λ _. through _ w.client λ c _.
              branch _ (λ _. returns (ground arith))
                (λ _. returns (report-Works _ _ _ (ground arith)))))

  send_due-Works :
      (interval : ℤ) (p : FramePump) (t : EncodeThread) (s : Supervisor)
      → Works r s
      → Returns (Works r) (send_due pf a interval p t s)
  unfolding send_due
  send_due-Works interval p t s w =
      branch _ (λ _. returns (ground arith))
        (λ _.
          branch _ (λ _. returns (ground arith))
            (λ _. branch _ (λ _. returns (ground arith)) (λ _. publish-Works _ s w)))

  receive-Works :
      (interval : ℤ) (f : Option Frame) (p : FramePump) (t : EncodeThread) (s : Supervisor)
      → Works r s
      → Returns (Works r) (receive pf a interval f p t s)
  unfolding receive
  receive-Works interval none p t s w = send_due-Works interval p t _ (ground arith)
  receive-Works interval (some (buf, info)) p t s w =
      branch _ (λ _. returns (ground arith)) (λ _. send_due-Works interval p _ _ (ground arith))

  round-Works :
      (t : EncodeThread) (s : Supervisor)
      → ltb_ℤ (pos 0) s.config.encoder.fps ≡ true
      → Works r s
      → Returns (Works r) (round pf a t s)
  unfolding round
  round-Works t s fps w =
      bind (frame_interval_us-Returns s.config.encoder.fps fps)
        λ interval _. through _ w.pump λ p _. receive-Works interval _ _ t s w

  pub encode_round-Works :
      (o : Option EncodeThread) (s : Supervisor)
      → ltb_ℤ (pos 0) s.config.encoder.fps ≡ true
      → Works r s
      → Returns (Works r) (encode_round pf a o s)
  unfolding encode_round
  encode_round-Works none s fps w = returns w
  encode_round-Works (some t) s fps w = branch _ (λ _. returns w) (λ _. round-Works t s fps w)

-- A thread that is not there, or one with all that it works on.
abbrev pub CanStop : Supervisor → Type 0
CanStop s =
    (s.encode_thread ≡ none) ⊎ (IsPublishing s × (ltb_ℤ (pos 0) s.config.encoder.fps ≡ true))

-- The thread is joined, and what it worked on is still held.
pub record Stopped (s t : Supervisor) : Type 0 where
  pub kept : Kept s t
  pub no_thread : t.encode_thread ≡ none
  pub pump : is_some t.frame_pump ≡ is_some s.frame_pump
  pub encoder : is_some t.encoder ≡ is_some s.encoder
  pub client : is_some t.rtsp_client ≡ is_some s.rtsp_client

module _ (pf : Platform) where
  exit_loop-Stopped :
      (r : Supervisor) (o : Option EncodeThread) (s : Supervisor)
      → Works r s
      → IsPublishing r
      → Stopped r (record (exit_loop pf o s) { encode_thread = none })
  unfolding exit_loop if◌then◌else◌
  exit_loop-Stopped r none s w h = ground arith
  exit_loop-Stopped r (some t) s w h = ground arith

  finish_round-Works :
      (last : Option Round) (r s : Supervisor)
      → ltb_ℤ (pos 0) s.config.encoder.fps ≡ true
      → Works r s
      → Returns (Works r) (finish_round pf last s)
  unfolding finish_round
  finish_round-Works none r s fps w = returns w
  finish_round-Works (some a) r s fps w = encode_round-Works pf a r s.encode_thread s fps w

  stop_idle :
      (last : Option Round) (s : Supervisor)
      → s.encode_thread ≡ none
      → Returns (Stopped s) (stop_encode_thread pf last s)
  unfolding stop_encode_thread finish_round encode_round exit_loop ◌>>=◌
  stop_idle none s e = rw e (returns (ground arith))
  stop_idle (some a) s e = rw e (returns (ground arith))

  stop_running :
      (last : Option Round) (s : Supervisor)
      → IsPublishing s
      → ltb_ℤ (pos 0) s.config.encoder.fps ≡ true
      → Returns (Stopped s) (stop_encode_thread pf last s)
  unfolding stop_encode_thread
  stop_running last s h fps =
      bind (finish_round-Works last s (record s { encode_stop = true }) fps (ground arith))
        λ t w. returns (exit_loop-Stopped s t.encode_thread t w h)

  -- The join returns: the thread neither faults on its way out nor takes anything along.
  pub stop_encode_thread-Stopped :
      (last : Option Round) (s : Supervisor)
      → CanStop s
      → Returns (Stopped s) (stop_encode_thread pf last s)
  stop_encode_thread-Stopped last s (inl e) = stop_idle last s e
  stop_encode_thread-Stopped last s (inr (h, fps)) = stop_running last s h fps

-- A thread that starts where none is joinable.
pub record Started (s t : Supervisor) : Type 0 where
  pub kept : Kept s t
  pub thread : is_some t.encode_thread ≡ true
  pub pump : t.frame_pump ≡ s.frame_pump
  pub encoder : t.encoder ≡ s.encoder
  pub client : t.rtsp_client ≡ s.rtsp_client

pub start_encode_thread-Started :
    (now : ℕ) (s : Supervisor)
    → s.encode_thread ≡ none
    → Returns (Started s) (start_encode_thread now s)
unfolding start_encode_thread
start_encode_thread-Started now s e =
    branch _ (λ h. cc)
      (λ _. returns (record {
        kept = record {
          machine = refl;
          config = refl;
          active = refl;
          requested = refl;
          told = refl;
        };
        thread = refl;
        pump = refl;
        encoder = refl;
        client = refl;
      }))
