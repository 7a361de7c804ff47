-- ===== src/App/Supervisor/Ownership/Run.antt =====
-- The loop of `Supervisor::run` in src/app/supervisor.cpp, with the two threads beside it.
use spout_relay.Base.{
  ℕ, Bool, false, ◌||◌, List, [], ◌∷◌, Option, none, some, ◌≡◌, refl, ◌∙◌, ap, sym, subst, arith,
  inl, inr, ◌⊎◌, Returns, returns, bind, branch, weaken,
}
use spout_relay.Common.Types.{
  PublisherState, init, idle, probing, placeholder, connecting_output, streaming, stalled,
  reconfiguring, reconnecting_output, recovering_device, stopping, fatal,
}
use spout_relay.Spout.Monitor.{Reception, SpoutMonitor}
use spout_relay.Capture.FramePump.{FramePump}
use spout_relay.App.StateMachine.{StateMachine}
use spout_relay.App.Supervisor.State.{Platform, Sinks, Supervisor, EncodeThread, poll_stop}
use spout_relay.App.Supervisor.EncodeThread.{Round, encode_round}
use spout_relay.App.Supervisor.Resources.{drop_pump, teardown_encoder}
use spout_relay.App.Supervisor.Run.{
  Background, encodes, captures, Inputs, capture_round, background_round, run_background,
  handle_fatal, dispatch, run_loop,
}
use spout_relay.App.Supervisor.Ownership.Defs.{Owned, Inv, IsSound, IsPublishing, IsReleased}
use spout_relay.App.Supervisor.Ownership.Thread.{
  CanStop, encode_round-Works, stop_encode_thread-Stopped,
}
use spout_relay.App.Supervisor.Ownership.Helpers.{teardown_rtsp-RtspDropped, own, stay}
use spout_relay.App.Supervisor.Ownership.Waiting.{handle_idle-Inv, handle_probing-Inv}
use spout_relay.App.Supervisor.Ownership.Placeholder.{handle_placeholder-Inv}
use spout_relay.App.Supervisor.Ownership.Connecting.{handle_connecting_output-Inv}
use spout_relay.App.Supervisor.Ownership.Publishing.{handle_streaming-Inv, handle_stalled-Inv}
use spout_relay.App.Supervisor.Ownership.Recovery.{
  handle_recovering_device-Inv, handle_reconfiguring-Inv, handle_reconnecting_output-Inv,
}

-- A thread is running in STREAMING and STALLED only, over all that it needs.
abbrev Threaded : Supervisor → Type 0
Threaded s =
    (s.encode_thread ≡ none)
    ⊎ (IsPublishing s
        × ((s.state_machine.current ≡ streaming) ⊎ (s.state_machine.current ≡ stalled)))

threaded :
    (p : PublisherState) (s : Supervisor) → s.state_machine.current ≡ p → Owned p s → Threaded s
threaded init s e o = inl o.no_thread
threaded idle s e o = inl o.no_thread
threaded probing s e o = inl o.no_thread
threaded placeholder s e o = inl o.no_thread
threaded connecting_output s e o = inl o.no_thread
threaded streaming s e o = inr (o, inl e)
threaded stalled s e o = inr (o, inr e)
threaded reconfiguring s e o = inl o.no_thread
threaded reconnecting_output s e o = inl o.no_thread
threaded recovering_device s e o = inl o.no_thread
threaded stopping s e o = inl o.no_thread
threaded fatal s e o = inl o.no_thread

can_stop : (s : Supervisor) → Inv s → Threaded s → CanStop s
can_stop s inv (inl e) = inl e
can_stop s inv (inr (h, _)) = inr (h, inv.usable.has_fps)

pub Inv-CanStop : (s : Supervisor) → Inv s → CanStop s
Inv-CanStop s inv = can_stop s inv (threaded s.state_machine.current s refl inv.owned)

captured :
    (p : PublisherState) (q q' : FramePump) (m : SpoutMonitor) (s : Supervisor)
    → s.frame_pump ≡ some q
    → Owned p s
    → Owned p (record s { frame_pump = some q'; spout_monitor = m })
captured init q q' m s e o = ground arith
captured _ q q' m s e o = ground arith

-- What stays as it is while the threads run.
pub record Same (s t : Supervisor) : Type 0 where
  pub inv : Inv t
  pub requested : t.shutdown_requested ≡ s.shutdown_requested

pub capture_round-Same :
    (a : Reception) (alive now : ℕ) (o : Option FramePump) (s : Supervisor)
    → s.frame_pump ≡ o
    → Inv s
    → Same s (capture_round a alive now o s)
unfolding capture_round
capture_round-Same a alive now none s e inv = record { inv = inv; requested = refl }
capture_round-Same a alive now (some q) s e inv = record {
  inv = record {
    owned = captured s.state_machine.current q _ _ s e inv.owned;
    usable = inv.usable;
  };
  requested = refl;
}

placed :
    (p : PublisherState) {s : Supervisor}
    → s.state_machine.current ≡ p
    → Owned p s
    → IsSound s.config s.state_machine s.sinks.metrics.current_state
    → Inv s
placed p {s} e o u = record { owned = subst (λ q. Owned q s) (sym e) o; usable = u }

polled_as :
    (p : PublisherState) (s : Supervisor) (b : Bool)
    → Owned p s
    → Owned p (record s { shutdown_requested = s.shutdown_requested || b })
polled_as init s b o = ground arith
polled_as _ s b o = ground arith

-- A request to stop that is seen leaves what the state owns.
pub polled : (s : Supervisor) (b : Bool) → Inv s → Inv (poll_stop b s)
unfolding poll_stop
polled s b inv = record {
  owned = polled_as s.state_machine.current s b inv.owned;
  usable = inv.usable;
}

module _ (pf : Platform) where
  encode_round-Same :
      (a : Round) (o : Option EncodeThread) (s : Supervisor)
      → s.encode_thread ≡ o
      → Threaded s
      → Inv s
      → Returns (Same s) (encode_round pf a o s)
  unfolding encode_round
  encode_round-Same a none s e h inv = returns (record { inv = inv; requested = refl })
  encode_round-Same a (some t) s e (inl no_thread) inv = cc
  encode_round-Same a (some t) s e (inr (h, place)) inv =
      weaken (encode_round-Works pf a s (some t) s inv.usable.has_fps (ground arith)) λ u w.
        record {
          inv = elim place [
            | inl e ↦ stay streaming w.kept e (ground arith) inv.usable
            | inr e ↦ stay stalled w.kept e (ground arith) inv.usable
          ];
          requested = w.kept.requested;
        }

  background_round-Same :
      (b : Background) (s : Supervisor) → Inv s → Returns (Same s) (background_round pf b s)
  unfolding background_round
  background_round-Same (encodes a) s inv =
      encode_round-Same a s.encode_thread s refl (threaded s.state_machine.current s refl inv.owned)
        inv
  background_round-Same (captures a alive now) s inv =
      returns (capture_round-Same a alive now s.frame_pump s refl inv)

  pub run_background-Same :
      (bs : List Background) (s : Supervisor) → Inv s → Returns (Same s) (run_background pf bs s)
  unfolding run_background
  run_background-Same [] s inv = returns (record { inv = inv; requested = refl })
  run_background-Same (b ∷ bs) s inv = bind (background_round-Same b s inv) λ t k.
      weaken (run_background-Same bs t k.inv)
        λ u l. record { inv = l.inv; requested = l.requested ∙ k.requested }

  handle_fatal-Inv :
      (last : Option Round) (s : Supervisor)
      → s.state_machine.current ≡ fatal
      → Inv s
      → Returns Inv (handle_fatal pf last s)
  unfolding handle_fatal drop_pump teardown_encoder
  handle_fatal-Inv last s e inv =
      let o : IsReleased s = own fatal e inv in
      bind (stop_encode_thread-Stopped pf last _ (inl o.no_thread)) λ t st.
        let d = teardown_rtsp-RtspDropped (record t { frame_pump = none }) in
        returns (
          placed fatal
            (ap (λ (m : StateMachine Sinks). m.current) (d.kept.machine ∙ st.kept.machine) ∙ e)
            (ground (arith, d)) (ground (arith, d)))

  pub dispatch-Inv :
      (p : PublisherState) (a : Inputs) (s : Supervisor)
      → s.state_machine.current ≡ p
      → s.shutdown_requested ≡ false
      → Inv s
      → Returns Inv (dispatch pf p a s)
  unfolding dispatch
  dispatch-Inv init a s e go inv = returns inv
  dispatch-Inv idle a s e go inv = returns (handle_idle-Inv a.idle s e inv)
  dispatch-Inv probing a s e go inv = returns (handle_probing-Inv a.probing s e inv)
  dispatch-Inv placeholder a s e go inv = handle_placeholder-Inv pf a.placeholder s e inv
  dispatch-Inv connecting_output a s e go inv = handle_connecting_output-Inv a.connecting pf s e inv
  dispatch-Inv streaming a s e go inv = handle_streaming-Inv pf a.streaming s e inv
  dispatch-Inv stalled a s e go inv = handle_stalled-Inv pf a.stalled s e inv
  dispatch-Inv reconfiguring a s e go inv = handle_reconfiguring-Inv pf a.reconfiguring s e inv
  dispatch-Inv reconnecting_output a s e go inv =
      handle_reconnecting_output-Inv pf a.reconnecting s e inv
  dispatch-Inv recovering_device a s e go inv = handle_recovering_device-Inv pf a.recovering s e inv
  dispatch-Inv stopping a s e go inv = let o = own stopping e inv in cc
  dispatch-Inv fatal a s e go inv = handle_fatal-Inv a.last s e inv

  -- From a state that holds the objects which belong to it and is named in the metrics, with the
  -- callback of `init` installed and a positive `encoder.fps` and `spout.poll_interval_ms`, any number
  -- of rounds of the loop, whatever the threads, the network and the senders do in them, call through
  -- no empty pointer of the supervisor, overwrite no running thread and divide by no zero, and end in
  -- a state that again holds the objects which belong to it and is named in the metrics.
  pub run_loop-Inv :
      (rounds : List Inputs) (s : Supervisor) → Inv s → Returns Inv (run_loop pf rounds s)
  unfolding run_loop
  run_loop-Inv [] s inv = returns inv
  run_loop-Inv (a ∷ rest) s inv = bind (run_background-Same a.background s inv) λ t k.
      let u = poll_stop a.stop t in
      let inv' = polled t a.stop k.inv in
      branch _ (λ _. returns inv')
        λ go. bind (dispatch-Inv u.state_machine.current a u refl go inv') (run_loop-Inv rest)
