-- ===== src/App/Supervisor/Escalation.antt =====
-- How src/app/supervisor.cpp escalates: a stall that lasts, a session that does not come back, and a
-- session that goes on with another source.
use spout_relay.Base.{
  suc, Bool, true, false, ◌&&◌, none, some, is_some, ◌≡◌, refl, sym, ap, ◌∙◌, subst, arith, pos,
  ltb_ℤ, leb_ℤ, inl, Returns, returns, bind, branch, through, if◌then◌else◌,
}
use spout_relay.Common.Types.{
  PublisherState, FrameBuffer, FrameMeta, probing, connecting_output, streaming, stalled,
  reconnecting_output, fatal,
}
use spout_relay.Encoder.Types.{Encoder, request_next_idr}
use spout_relay.App.StateMachine.{can_transition, contains, valid_transitions, same}
use spout_relay.App.Logic.{can_seamless_handoff, should_force_spout_recovery}
use spout_relay.Spout.Monitor.{disconnect, set_gpu_mode}
use spout_relay.App.Supervisor.State.{Platform, Supervisor, transition, poll_stop}
use spout_relay.App.Supervisor.Resources.{drop_pump, teardown_encoder, teardown_rtsp}
use spout_relay.App.Supervisor.Handlers.Placeholder.{rtsp_up}
use spout_relay.App.Supervisor.Handlers.Connecting.{
  ConnectingInputs, connect_source, switch_source, go_streaming,
}
use spout_relay.App.Supervisor.Handlers.Stalled.{drop_source, reconnect_or_force}
use spout_relay.App.Supervisor.Handlers.Recovery.{ReconnectingInputs, handle_reconnecting_output}
use spout_relay.App.Supervisor.Ownership.Defs.{IsReleased}
use spout_relay.App.Supervisor.Ownership.Thread.{start_encode_thread-Started}
use spout_relay.App.Supervisor.Ownership.Helpers.{
  teardown_rtsp-RtspDropped, teardown_streaming-Torn, transition-eq,
}

-- A permitted transition changes the state and nothing else that is looked at here.
pub record Entered (to : PublisherState) (s t : Supervisor) : Type 0 where
  pub place : t.state_machine.current ≡ to
  pub pump : t.frame_pump ≡ s.frame_pump
  pub encoder : t.encoder ≡ s.encoder
  pub client : t.rtsp_client ≡ s.rtsp_client
  pub thread : t.encode_thread ≡ s.encode_thread
  pub recoveries : t.consecutive_stall_recoveries ≡ s.consecutive_stall_recoveries
  pub receiver : t.spout_monitor ≡ s.spout_monitor

pub transition-Entered :
    (from to : PublisherState) (s : Supervisor)
    → s.state_machine.current ≡ from
    → contains valid_transitions from to ≡ true
    → Entered to s (transition to s)
unfolding can_transition
transition-Entered from to s e v =
    subst (Entered to s) (sym (transition-eq to s (rw e v))) (record {
      place = refl;
      pump = refl;
      encoder = refl;
      client = refl;
      thread = refl;
      recoveries = refl;
      receiver = refl;
    })

-- The whole relay starts over: source and output are given up, and the count with them.
pub record IsForced (t : Supervisor) : Type 0 where
  pub receiver_down : t.spout_monitor.connected ≡ false
  pub place : t.state_machine.current ≡ probing
  pub no_pump : t.frame_pump ≡ none
  pub no_encoder : t.encoder ≡ none
  pub no_client : t.rtsp_client ≡ none
  pub count : t.consecutive_stall_recoveries ≡ 0

-- Only the session is opened anew: encoder and pump are kept, and the recovery counted.
pub record IsRetried (s t : Supervisor) : Type 0 where
  pub place : t.state_machine.current ≡ reconnecting_output
  pub pump : t.frame_pump ≡ s.frame_pump
  pub encoder : t.encoder ≡ s.encoder
  pub no_client : t.rtsp_client ≡ none
  pub count : t.consecutive_stall_recoveries ≡ suc s.consecutive_stall_recoveries

abbrev pub Recovery : Bool → Supervisor → Supervisor → Type 0
Recovery true s t = IsForced t
Recovery false s t = IsRetried s t

recovery :
    (b : Bool) {s t u : Supervisor} → IsForced t → IsRetried s u → Recovery b s (if b then t else u)
unfolding if◌then◌else◌
recovery true f r = f
recovery false f r = r

forced :
    (s : Supervisor)
    → s.state_machine.current ≡ stalled
    → s.consecutive_stall_recoveries ≡ 0
    → IsForced (transition probing (teardown_encoder (teardown_rtsp (drop_source s))))
unfolding teardown_encoder drop_source drop_pump disconnect set_gpu_mode contains valid_transitions
    same if◌then◌else◌
forced s e z =
    let d = teardown_rtsp-RtspDropped (drop_source s) in
    let n =
      transition-Entered stalled probing (teardown_encoder (teardown_rtsp (drop_source s)))
        (ground (arith, d)) refl in
    ground (arith, n, d)

retried :
    (s : Supervisor)
    → s.state_machine.current ≡ stalled
    → IsRetried s (
        transition reconnecting_output (
          teardown_rtsp
            (record s { consecutive_stall_recoveries = suc s.consecutive_stall_recoveries })))
unfolding contains valid_transitions same
retried s e =
    let s' : Supervisor = record s {
      consecutive_stall_recoveries = suc s.consecutive_stall_recoveries;
    } in
    let d = teardown_rtsp-RtspDropped s' in
    let n =
      transition-Entered stalled reconnecting_output (teardown_rtsp s') (ground (arith, d)) refl in
    ground (arith, n, d)

-- In STALLED, at a stall that lasts while the sender is alive: the first recoveries open the RTSP session anew and
-- keep encoder and pump, each counted; once as many in a row as the settings allow (a positive
-- number) have not helped, source and output are given up together, with the pump gone and the Spout
-- receiver disconnected, the relay goes back to PROBING and the count to 0.
pub reconnect_or_force-Recovery :
    (s : Supervisor)
    → s.state_machine.current ≡ stalled
    → let allowed = s.config.spout.stalled_recovery_max_attempts in
      Recovery
        (ltb_ℤ (pos 0) allowed && leb_ℤ allowed (pos (suc s.consecutive_stall_recoveries)))
        s
        (reconnect_or_force s)
unfolding reconnect_or_force should_force_spout_recovery
reconnect_or_force-Recovery s e = recovery _ (forced _ e refl) (retried s e)

-- In FATAL with nothing held.
pub record IsGivenUp (t : Supervisor) : Type 0 where
  pub place : t.state_machine.current ≡ fatal
  pub released : IsReleased t

-- Once as many attempts to reconnect as the settings allow have failed, the next visit of
-- RECONNECTING_OUTPUT makes none: it releases the encode thread, the pump, the session and the
-- encoder and goes to FATAL, unless a request to stop has come; no encode thread runs then.
pub handle_reconnecting_output-IsGivenUp :
    (pf : Platform) (a : ReconnectingInputs) (s : Supervisor)
    → s.state_machine.current ≡ reconnecting_output
    → s.encode_thread ≡ none
    → s.shutdown_requested ≡ false
    → a.stop ≡ false
    → ltb_ℤ s.config.rtsp.max_reconnect_attempts (pos (suc s.reconnect_attempts)) ≡ true
    → Returns IsGivenUp (handle_reconnecting_output pf a s)
unfolding handle_reconnecting_output poll_stop contains valid_transitions same
handle_reconnecting_output-IsGivenUp pf a s e thread go go' over =
    branch _ (λ stop. (ground arith))
      λ _.
        branch _
          (λ _. bind (teardown_streaming-Torn pf a.last _ (inl thread)) λ t torn.
            let n = transition-Entered reconnecting_output fatal t (ground arith) refl in
            returns (ground (arith, n)))
          (λ under. (ground arith))

-- On the air over the session that was up, whose next frame will be an IDR.
pub record IsHandedOver (s t : Supervisor) : Type 0 where
  pub place : t.state_machine.current ≡ streaming
  pub client : t.rtsp_client ≡ s.rtsp_client
  pub old_encoder : Encoder
  pub held : s.encoder ≡ some old_encoder
  pub encoder : t.encoder ≡ some (request_next_idr old_encoder)
  pub thread : is_some t.encode_thread ≡ true
  pub pump : is_some t.frame_pump ≡ true

go_streaming-IsHandedOver :
    (a : ConnectingInputs) (e : Encoder) (r s : Supervisor)
    → s.state_machine.current ≡ connecting_output
    → s.encode_thread ≡ none
    → s.rtsp_client ≡ r.rtsp_client
    → r.encoder ≡ some e
    → s.encoder ≡ some (request_next_idr e)
    → Returns (IsHandedOver r) (go_streaming a s)
unfolding go_streaming contains valid_transitions same transition
go_streaming-IsHandedOver a e r s place thread client held enc =
    bind (start_encode_thread-Started a.now_streaming _ thread) λ t st.
      let n = transition-Entered connecting_output streaming t (ground arith) refl in
      returns (record {
        place = n.place;
        client = n.client ∙ st.client ∙ client;
        old_encoder = e;
        held = held;
        encoder = n.encoder ∙ st.encoder ∙ enc;
        thread = ap is_some n.thread ∙ st.thread;
        pump = ap is_some n.pump ∙ ap is_some st.pump;
      })

-- In CONNECTING_OUTPUT, without an encode thread, when a source of the size that is on the air
-- answers while a session that is up was kept for it along with its encoder, the relay
-- goes to STREAMING over that very session: the RTSP client is left untouched, so no viewer is cut
-- off, and the encoder is the same but for the request that its next frame be an IDR.
pub connect_source-IsHandedOver :
    (a : ConnectingInputs) (buf : FrameBuffer) (meta : FrameMeta) (s : Supervisor)
    → s.state_machine.current ≡ connecting_output
    → s.encode_thread ≡ none
    → s.seamless_handoff ≡ true
    → is_some s.encoder ≡ true
    → rtsp_up s.rtsp_client ≡ true
    → meta.width ≡ s.current_width
    → meta.height ≡ s.current_height
    → Returns (IsHandedOver s) (connect_source a buf meta s)
unfolding connect_source switch_source can_seamless_handoff
connect_source-IsHandedOver a buf meta s place thread asked enc up w h =
    branch _
      (λ _. through _ enc λ e held. go_streaming-IsHandedOver a e s _ place thread refl held refl)
      (λ no. (ground arith))
