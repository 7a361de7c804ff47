-- ===== src/App/Program.antt =====
-- src/main.cpp. What `console_ctrl_handler` does is in the requests to stop of `run`; the texts written
-- to the console are left out.
pub mod Exit
use spout_relay.Base.{
  ℕ, Bool, true, false, not, ◌||◌, List, [], ◌∷◌, Option, none, some, String, ℤ, pos, ◌⊎◌,
  if◌then◌else◌, Outcome, done, ◌>>=◌,
}
use text.Mathlib.Text.{◌==◌ as str_eq}
use spout_relay.Common.Types.{RtspConfig}
use spout_relay.Encoder.Types.{default_config}
use spout_relay.Config.Types.{AppConfig}
use spout_relay.Config.Json.{Contents, Json}
use spout_relay.Config.Loader.{Loaded, load}
use spout_relay.App.Supervisor.State.{Platform, Supervisor, InitAnswers, new_supervisor}
use spout_relay.App.Supervisor.State
use spout_relay.App.Supervisor.EncodeThread.{Round}
use spout_relay.App.Supervisor.Run
use spout_relay.App.Supervisor.Run.{Inputs}

-- `AppConfig config;`. The multiplier is the bit pattern of `2.0f`.
unfoldable pub default_settings : AppConfig
default_settings = record {
  app = record {
    instance_name = "spoutrelay-publisher-01";
    log_dir = "./logs";
    metrics_path = "./state/metrics.json";
    health_path = "./state/health.json";
  };
  spout = record {
    sender_name = "";
    poll_interval_ms = pos 50;
    frame_timeout_ms = pos 300;
    sender_missing_timeout_ms = pos 800;
    prefer_dx11 = true;
    stalled_recovery_max_attempts = pos 10;
  };
  placeholder = record {
    enabled = false;
    width = pos 1280;
    height = pos 720;
    message = "NO SIGNAL";
    background_hex = "#000000";
    text_hex = "#FFFFFF";
    show_sender_name = true;
  };
  encoder = default_config;
  rtsp = record {
    url = "";
    connect_timeout_ms = pos 5000;
    send_timeout_ms = pos 5000;
    max_reconnect_attempts = pos 5;
    reconnect_delay_ms = pos 1000;
    reconnect_max_delay_ms = pos 30000;
    reconnect_backoff_multiplier = 1073741824;
  };
  runtime = record {
    shutdown_grace_ms = pos 3000;
    emit_metrics_interval_ms = pos 1000;
    emit_health_interval_ms = pos 1000;
  };
}

-- The loop over `argv[1]` onwards: the path, or none where the usage is asked for.
unfoldable pub parse_args : List String → String → Option String
parse_args [] path = some path
parse_args (arg ∷ []) path = if str_eq arg "--help" || str_eq arg "-h" then none else some path
parse_args (arg ∷ value ∷ rest) path =
    let behind = parse_args rest value in
    let next = parse_args (value ∷ rest) path in
    if str_eq arg "--config" || str_eq arg "-c"
    then behind
    else if str_eq arg "--help" || str_eq arg "-h"
    then none
    else next

-- What the program meets: its arguments, the file system, and what the supervisor meets.
pub record World (J : Json) : Type 0 where
  pub args : List String
  pub file : String → Option (Contents J.Value)
  pub now : ℕ
  pub start : InitAnswers
  pub rounds : List Inputs
  pub last : Option Round

-- The exit code, and the supervisor at the end of `run`, if it came to that.
abbrev pub Ended : Type 0
Ended = ℕ × Option Supervisor

module _ (pf : Platform) (J : Json) (w : World J) where
  unfoldable pub run_ready : Bool → Supervisor → Outcome Ended
  run_ready ready s =
      if not ready
      then (do u ← Run.destroy pf w.last s; done (1, none))
      else (do t ← Run.run pf w.rounds w.last s; u ← Run.destroy pf w.last t; done (0, some t))

  unfoldable pub run_loaded : Loaded → Outcome Ended
  run_loaded (loaded, error, config) =
      if not loaded
      then done (1, none)
      else let (ready, _, s) = State.init w.start config (new_supervisor w.now default_settings) in
        run_ready ready s

  unfoldable pub run_from : Option String → Outcome Ended
  run_from none = done (0, none)
  run_from (some path) =
      let config_path = if str_eq path "" then "config/config.json" else path in
      load pf.float J config_path (w.file config_path) default_settings >>= run_loaded

  unfoldable pub main : Outcome Ended
  main = run_from (parse_args w.args "")
