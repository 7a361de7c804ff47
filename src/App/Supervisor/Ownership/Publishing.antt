-- ===== src/App/Supervisor/Ownership/Publishing.antt =====
-- The handlers of STREAMING and STALLED in src/app/supervisor.cpp.
use spout_relay.Base.{
  Bool, true, false, Option, none, some, is_some, ◌≡◌, refl, arith, inl, inr, Returns, returns,
  bind, branch, choose, weaken,
}
use spout_relay.Common.Types.{
  PublisherState, streaming, stalled, stopping, recovering_device, probing, reconnecting_output,
  reconfiguring, placeholder, idle,
}
use spout_relay.Capture.FramePump.{FramePump}
use spout_relay.App.StateMachine.{contains, valid_transitions, same}
use spout_relay.App.Supervisor.State.{Platform, Supervisor, transition, poll_stop}
use spout_relay.App.Supervisor.EncodeThread.{Round, stop_encode_thread}
use spout_relay.App.Supervisor.Resources.{
  drop_pump, teardown_encoder, teardown_rtsp, teardown_streaming,
}
use spout_relay.App.Supervisor.Handlers.Streaming.{StreamingInputs, watch_source, handle_streaming}
use spout_relay.App.Supervisor.Handlers.Stalled.{
  StalledInputs, drop_source, hand_to_placeholder, sender_disappeared, reconnect_or_force,
  prolonged_stall, stay_stalled, handle_stalled,
}
use spout_relay.App.Supervisor.Ownership.Defs.{Inv, IsPublishing, IsSound}
use spout_relay.App.Supervisor.Ownership.Thread.{stop_encode_thread-Stopped}
use spout_relay.App.Supervisor.Ownership.Helpers.{
  teardown_rtsp-RtspDropped, teardown_streaming-Torn, enter, own, stay, Kept-refl,
}

-- In the state `from`, with the thread and all that it works on.
record Publishing (from : PublisherState) (s : Supervisor) : Type 0 where
  place : s.state_machine.current ≡ from
  usable : IsSound s.config s.state_machine s.sinks.metrics.current_state
  publishing : IsPublishing s

-- The thread has been joined; encoder, session and pump are still held.
record Joined (from : PublisherState) (s : Supervisor) : Type 0 where
  place : s.state_machine.current ≡ from
  usable : IsSound s.config s.state_machine s.sinks.metrics.current_state
  no_thread : s.encode_thread ≡ none
  pump : is_some s.frame_pump ≡ true
  encoder : is_some s.encoder ≡ true
  inactive : s.placeholder_active ≡ false

-- Nothing is left of the output, or of the source.
record Cleared (from : PublisherState) (s : Supervisor) : Type 0 where
  place : s.state_machine.current ≡ from
  usable : IsSound s.config s.state_machine s.sinks.metrics.current_state
  no_thread : s.encode_thread ≡ none
  no_pump : s.frame_pump ≡ none
  inactive : s.placeholder_active ≡ false

-- What a joined thread leaves, and whether a stop has been asked for.
record JoinedAs (from : PublisherState) (stop : Bool) (s : Supervisor) : Type 0 where
  joined : Joined from s
  requested : s.shutdown_requested ≡ stop

module _ (pf : Platform) (last : Option Round) (from : PublisherState) where
  join :
      (s : Supervisor)
      → Publishing from s
      → Returns (JoinedAs from s.shutdown_requested) (stop_encode_thread pf last s)
  join s h =
      weaken (stop_encode_thread-Stopped pf last s (inr (h.publishing, h.usable.has_fps)))
        λ t st. (ground arith)

  -- The thread is joined, then all is torn down.
  join_and_clear :
      (s : Supervisor)
      → Joined from s
      → Returns
          (λ t. Cleared from t × (t.shutdown_requested ≡ s.shutdown_requested))
          (teardown_streaming pf none s)
  join_and_clear s j =
      weaken (teardown_streaming-Torn pf none s (inl j.no_thread)) λ t torn. ground arith

to_stopping :
    (from : PublisherState) (s : Supervisor)
    → contains valid_transitions from stopping ≡ true
    → Cleared from s
    → s.shutdown_requested ≡ true
    → Inv (transition stopping s)
to_stopping from s v c stop = enter from stopping s c.place v (ground arith) c.usable

to_probing :
    (from : PublisherState) (s : Supervisor)
    → contains valid_transitions from probing ≡ true
    → Cleared from s
    → Inv (transition probing s)
to_probing from s v c = enter from probing s c.place v (ground arith) c.usable

to_recovering :
    (from : PublisherState) (s : Supervisor)
    → contains valid_transitions from recovering_device ≡ true
    → Joined from s
    → Inv (transition recovering_device s)
to_recovering from s v j = enter from recovering_device s j.place v (ground arith) j.usable

to_reconnecting :
    (from : PublisherState) (s : Supervisor)
    → contains valid_transitions from reconnecting_output ≡ true
    → Joined from s
    → Inv (transition reconnecting_output (teardown_rtsp s))
to_reconnecting from s v j =
    let d = teardown_rtsp-RtspDropped s in
    enter from reconnecting_output _ (ground (arith, d)) v (ground (arith, d)) (ground (arith, d))

watch_source-Inv :
    (a : StreamingInputs) (o : Option FramePump) (s : Supervisor)
    → Publishing streaming s
    → Inv (watch_source a o s)
unfolding watch_source contains valid_transitions same
watch_source-Inv a none s h = stay streaming Kept-refl h.place h.publishing h.usable
watch_source-Inv a (some p) s h =
    choose Inv _ (λ _. enter streaming stalled _ h.place refl (ground arith) h.usable)
      (λ _. stay streaming Kept-refl h.place h.publishing h.usable)

pub handle_streaming-Inv :
    (pf : Platform) (a : StreamingInputs) (s : Supervisor)
    → s.state_machine.current ≡ streaming
    → Inv s
    → Returns Inv (handle_streaming pf a s)
unfolding handle_streaming poll_stop contains valid_transitions same
handle_streaming-Inv pf a s e inv =
    let o : IsPublishing s = own streaming e inv in
    let u = inv.usable in
    branch _
      (λ stop. bind (join pf a.last streaming _ (ground arith)) λ t j.
        bind (join_and_clear pf none streaming t j.joined)
          λ v c. returns (to_stopping streaming v refl c.0 (ground arith)))
      (λ _.
        branch _
          (λ _.
            bind (join pf a.last streaming _ (ground arith))
              λ t j. returns (to_recovering streaming t refl j.joined))
          (λ _.
            branch _
              (λ _. bind (join pf a.last streaming _ (ground arith)) λ t j.
                bind (join_and_clear pf none streaming t j.joined)
                  λ v c. returns (to_probing streaming v refl c.0))
              (λ _.
                branch _
                  (λ _.
                    bind (join pf a.last streaming _ (ground arith))
                      λ t j. returns (to_reconnecting streaming t refl j.joined))
                  (λ _.
                    branch _
                      (λ _. bind (join pf a.last streaming _ (ground arith)) λ t j. returns (
                        enter streaming reconfiguring _ j.joined.place refl (ground arith)
                          j.joined.usable))
                      (λ _. returns (watch_source-Inv a s.frame_pump _ (ground arith)))))))

drop_source-Cleared : (s : Supervisor) → Joined stalled s → Cleared stalled (drop_source s)
unfolding drop_source drop_pump
drop_source-Cleared s j = ground arith

close_output :
    (from : PublisherState) (s : Supervisor)
    → Cleared from s
    → Cleared from (teardown_encoder (teardown_rtsp s))
unfolding teardown_encoder
close_output from s c = ground (arith, teardown_rtsp-RtspDropped s)

hand_to_placeholder-Inv : (s : Supervisor) → Joined stalled s → Inv (hand_to_placeholder s)
unfolding hand_to_placeholder contains valid_transitions same
hand_to_placeholder-Inv s j =
    let c = drop_source-Cleared s j in
    enter stalled placeholder _ c.place refl (ground arith) c.usable

sender_disappeared-Inv : (s : Supervisor) → Joined stalled s → Inv (sender_disappeared s)
unfolding sender_disappeared contains valid_transitions same
sender_disappeared-Inv s j =
    choose Inv _ (λ _. hand_to_placeholder-Inv s j)
      (λ _.
        let c = close_output stalled _ (drop_source-Cleared s j) in
        enter stalled idle _ c.place refl (ground arith) c.usable)

reconnect_or_force-Inv : (s : Supervisor) → Joined stalled s → Inv (reconnect_or_force s)
unfolding reconnect_or_force contains valid_transitions same
reconnect_or_force-Inv s j =
    choose Inv _
      (λ _.
        to_probing stalled _ refl (close_output stalled _ (drop_source-Cleared _ (ground arith))))
      (λ _. to_reconnecting stalled _ refl (ground arith))

prolonged_stall-Inv :
    (a : StalledInputs) (s : Supervisor) → Joined stalled s → Inv (prolonged_stall a s)
unfolding prolonged_stall
prolonged_stall-Inv a s j =
    choose Inv _ (λ _. hand_to_placeholder-Inv _ (ground arith)) (λ _. reconnect_or_force-Inv s j)

stay_stalled-Inv :
    (pf : Platform) (a : StalledInputs) (s : Supervisor)
    → Publishing stalled s
    → Returns Inv (stay_stalled pf a s)
unfolding stay_stalled
stay_stalled-Inv pf a s h =
    branch _
      (λ _.
        bind (join pf a.last stalled _ (ground arith))
          λ t j. returns (sender_disappeared-Inv t j.joined))
      (λ _.
        branch _
          (λ _. bind (join pf a.last stalled s h) λ t j. returns (prolonged_stall-Inv a t j.joined))
          (λ _. returns (stay stalled Kept-refl h.place h.publishing h.usable)))

pub handle_stalled-Inv :
    (pf : Platform) (a : StalledInputs) (s : Supervisor)
    → s.state_machine.current ≡ stalled
    → Inv s
    → Returns Inv (handle_stalled pf a s)
unfolding handle_stalled poll_stop contains valid_transitions same
handle_stalled-Inv pf a s e inv =
    let o : IsPublishing s = own stalled e inv in
    let u = inv.usable in
    branch _
      (λ stop. bind (join pf a.last stalled _ (ground arith)) λ t j.
        bind (join_and_clear pf none stalled t j.joined)
          λ v c. returns (to_stopping stalled v refl c.0 (ground arith)))
      (λ _.
        branch _
          (λ _.
            bind (join pf a.last stalled _ (ground arith))
              λ t j. returns (to_recovering stalled t refl j.joined))
          (λ _.
            branch _ (λ _. returns (enter stalled streaming _ e refl (ground arith) u))
              (λ _.
                branch _
                  (λ _. bind (join pf a.last stalled _ (ground arith)) λ t j.
                    bind (join_and_clear pf none stalled t j.joined)
                      λ v c. returns (to_probing stalled v refl c.0))
                  (λ _.
                    branch _
                      (λ _.
                        bind (join pf a.last stalled _ (ground arith))
                          λ t j. returns (to_reconnecting stalled t refl j.joined))
                      (λ _. stay_stalled-Inv pf a _ (ground arith))))))
