-- ===== src/App/Supervisor/Ownership/Defs.antt =====
-- The invariant of the loop of `Supervisor::run`, and what the helpers leave alone.
use spout_relay.Base.{true, false, none, some, String, is_some, ◌≡◌, pos, ltb_ℤ}
use spout_relay.Common.Types.{
  PublisherState, state_name, init, idle, probing, placeholder, connecting_output, streaming,
  stalled, reconfiguring, reconnecting_output, recovering_device, stopping, fatal,
}
use spout_relay.Config.Types.{AppConfig}
use spout_relay.App.StateMachine.{StateMachine}
use spout_relay.App.Supervisor.State.{Supervisor, Sinks, on_transition}

-- What `ConfigLoader::load` makes sure of, as far as the loop needs it.
pub record IsUsable (c : AppConfig) : Type 0 where
  pub has_fps : ltb_ℤ (pos 0) c.encoder.fps ≡ true
  pub polls : ltb_ℤ (pos 0) c.spout.poll_interval_ms ≡ true

-- The same, and the metrics name the current state: the callback of `Supervisor::init` is installed.
pub record IsSound (c : AppConfig) (m : StateMachine Sinks) (name : String) : Type 0 where
  pub has_fps : ltb_ℤ (pos 0) c.encoder.fps ≡ true
  pub polls : ltb_ℤ (pos 0) c.spout.poll_interval_ms ≡ true
  pub callback : m.callback ≡ some on_transition
  pub told : name ≡ state_name m.current

-- Nothing is held: no thread, pump, session or encoder.
pub record IsReleased (s : Supervisor) : Type 0 where
  pub no_thread : s.encode_thread ≡ none
  pub no_pump : s.frame_pump ≡ none
  pub no_encoder : s.encoder ≡ none
  pub no_client : s.rtsp_client ≡ none

-- The encode thread runs over an encoder, a session and a pump.
pub record IsPublishing (s : Supervisor) : Type 0 where
  pub thread : is_some s.encode_thread ≡ true
  pub pump : is_some s.frame_pump ≡ true
  pub encoder : is_some s.encoder ≡ true
  pub client : is_some s.rtsp_client ≡ true
  pub inactive : s.placeholder_active ≡ false

-- No source is taken: at most a session is kept for a seamless hand-over.
pub record IsWaiting (s : Supervisor) : Type 0 where
  pub no_thread : s.encode_thread ≡ none
  pub no_pump : s.frame_pump ≡ none
  pub inactive : s.placeholder_active ≡ false

-- The placeholder, once it is on the air, has an encoder and a session.
pub record IsShowing (s : Supervisor) : Type 0 where
  pub no_thread : s.encode_thread ≡ none
  pub no_pump : s.frame_pump ≡ none
  pub encoder : s.placeholder_active ≡ true → is_some s.encoder ≡ true
  pub client : s.placeholder_active ≡ true → is_some s.rtsp_client ≡ true

pub record IsReconfiguring (s : Supervisor) : Type 0 where
  pub no_thread : s.encode_thread ≡ none
  pub pump : is_some s.frame_pump ≡ true
  pub inactive : s.placeholder_active ≡ false

pub record IsReconnecting (s : Supervisor) : Type 0 where
  pub no_thread : s.encode_thread ≡ none
  pub pump : is_some s.frame_pump ≡ true
  pub encoder : is_some s.encoder ≡ true
  pub inactive : s.placeholder_active ≡ false

pub record IsRecovering (s : Supervisor) : Type 0 where
  pub no_thread : s.encode_thread ≡ none
  pub inactive : s.placeholder_active ≡ false

-- STOPPING is entered on a request to stop only, with the encode thread joined.
pub record IsStopping (s : Supervisor) : Type 0 where
  pub no_thread : s.encode_thread ≡ none
  pub requested : s.shutdown_requested ≡ true

abbrev pub Owned : PublisherState → Supervisor → Type 0
Owned init s = IsReleased s
Owned idle s = IsWaiting s
Owned probing s = IsWaiting s
Owned placeholder s = IsShowing s
Owned connecting_output s = IsWaiting s
Owned streaming s = IsPublishing s
Owned stalled s = IsPublishing s
Owned reconfiguring s = IsReconfiguring s
Owned reconnecting_output s = IsReconnecting s
Owned recovering_device s = IsRecovering s
Owned stopping s = IsStopping s
Owned fatal s = IsReleased s

pub record Inv (s : Supervisor) : Type 0 where
  pub owned : Owned s.state_machine.current s
  pub usable : IsSound s.config s.state_machine s.sinks.metrics.current_state

-- Of the state `t` that a run from `s` comes to: what the main thread decides on is as before.
pub record Kept (s t : Supervisor) : Type 0 where
  pub machine : t.state_machine ≡ s.state_machine
  pub config : t.config ≡ s.config
  pub active : t.placeholder_active ≡ s.placeholder_active
  pub requested : t.shutdown_requested ≡ s.shutdown_requested
  pub told : t.sinks.metrics.current_state ≡ s.sinks.metrics.current_state
