-- ===== src/Examples/Running.antt =====
-- The theorems on the supervisor at concrete inputs.
use spout_relay.Base.{
  true, false, [], ◌∷◌, Option, none, some, ◌≡◌, ◌≢◌, refl, ◌>>=◌, Returns, if◌then◌else◌,
}
use spout_relay.Common.Types.{
  PublisherState, idle, probing, connecting_output, streaming, stalled, reconnecting_output,
  reconfiguring, fatal, state_name,
}
use spout_relay.App.Supervisor.Resources
use spout_relay.Encoder.Init
use spout_relay.Rtsp.Client
use spout_relay.Encoder.Types.{new_encoder, get_codec_info}
use spout_relay.Rtsp.Client.{RtspClient, new_client}
use spout_relay.Capture.FramePump.{new_pump}
use spout_relay.App.Supervisor.State.{Supervisor, EncodeThread, new_supervisor, on_transition}
use spout_relay.App.Supervisor.State
use spout_relay.Logging.Sink
use spout_relay.Logging.Sink.{closed_sink}
use spout_relay.Spout.Monitor
use spout_relay.Metrics.Store.{empty_store}
use spout_relay.App.Supervisor.State.Reports.{IsReported, transitions, transitions-IsReported}
use spout_relay.App.Supervisor.EncodeThread.{round, stop_encode_thread, start_encode_thread}
use spout_relay.App.Supervisor.EncodeThread.Exit.{
  IsTold, Holds, left_by, round-IsTold, restart-Holds,
}
use spout_relay.App.Supervisor.Handlers.Connecting.{first_frame, connect_source, given_up}
use spout_relay.App.Supervisor.Handlers.Placeholder.{rtsp_up}
use spout_relay.App.Supervisor.Handlers.Stalled.{reconnect_or_force}
use spout_relay.App.Supervisor.Handlers.Recovery.{handle_reconfiguring, handle_reconnecting_output}
use spout_relay.App.Supervisor.Run.{Inputs, run_loop, run}
use spout_relay.App.Supervisor.Escalation.{
  IsForced, IsGivenUp, IsHandedOver, reconnect_or_force-Recovery,
  handle_reconnecting_output-IsGivenUp, connect_source-IsHandedOver,
}
use spout_relay.App.Supervisor.Reconfiguration.{IsStuck, handle_reconfiguring-IsStuck}
use spout_relay.App.Supervisor.Retries.{LeadsOut, run_loop-LeadsOut}
use spout_relay.App.Supervisor.Ownership.Defs.{Inv}
use spout_relay.App.Supervisor.Ownership.FirstFrame.{first_frame-ends}
use spout_relay.App.Supervisor.Ownership.Run.{run_loop-Inv}
use spout_relay.App.Supervisor.Ownership.Stop.{IsLeft, run_loop-IsLeft}
use spout_relay.App.Supervisor.Ownership.Shutdown.{IsAtRest, run-IsAtRest}
use spout_relay.Examples.Inputs.{
  platform, settings, good_start, round_inputs, encode_round_inputs, picture, picture_meta,
  connecting, reconfiguring_inputs, reconnecting_inputs,
}

abbrev client_up : RtspClient
client_up = record new_client { connected = true; pkt = true }

abbrev thread : EncodeThread
thread = record {
  returned = false;
  freeze_buf = picture;
  freeze_meta = picture_meta;
  has_freeze = true;
  content_changed = true;
  frame_sw = 0;
  metrics_sw = 0;
  bytes_since_last = 0;
  frames_since_last = 0;
}

-- A supervisor in a state, with an encoder, a session and a pump.
abbrev in_state : PublisherState → Option EncodeThread → Supervisor
in_state p t = record (new_supervisor 0 settings) {
  state_machine = record { current = p; callback = some on_transition };
  sinks = record {
    log = closed_sink;
    metrics = record empty_store { current_state = state_name p };
  };
  encode_thread = t;
  frame_pump = some new_pump;
  encoder = some new_encoder;
  rtsp_client = some client_up;
}

started : (State.init good_start settings (new_supervisor 0 settings)).0 ≡ true
unfolding State.init if◌then◌else◌ Sink.init State.init_monitor Monitor.init
started = refl

run-IsAtRest_example : Returns IsAtRest (
    run platform
      (round_inputs ∷ round_inputs ∷ round_inputs ∷ round_inputs ∷ [])
      (some encode_round_inputs)
      (State.init good_start settings (new_supervisor 0 settings)).2)
run-IsAtRest_example =
    run-IsAtRest platform good_start settings settings 0
      (round_inputs ∷ round_inputs ∷ round_inputs ∷ round_inputs ∷ []) (some encode_round_inputs)
      (record { has_fps = refl; polls = refl }) started

run_loop-Inv_example :
    Returns Inv
      (run_loop platform (round_inputs ∷ round_inputs ∷ []) (in_state streaming (some thread)))
unfolding new_supervisor
run_loop-Inv_example =
    run_loop-Inv platform (round_inputs ∷ round_inputs ∷ []) (in_state streaming (some thread))
      (record {
        owned = record {
          thread = refl;
          pump = refl;
          encoder = refl;
          client = refl;
          inactive = refl;
        };
        usable = record { has_fps = refl; polls = refl; callback = refl; told = refl };
      })

first_frame-ends_example : first_frame connecting (in_state connecting_output none) ≢ given_up
unfolding new_supervisor
first_frame-ends_example = first_frame-ends connecting (in_state connecting_output none) refl

round-IsTold_example :
    Returns IsTold (round platform encode_round_inputs thread (in_state streaming (some thread)))
unfolding new_supervisor
round-IsTold_example =
    round-IsTold platform encode_round_inputs thread (in_state streaming (some thread)) refl refl
      refl refl refl (record { no_encode_error = refl; no_rtsp_error = refl; no_resolution = refl })

restart-Holds_example : Returns (Holds (picture, picture_meta)) (do
  joined ← stop_encode_thread platform none (in_state reconnecting_output (some thread))
  start_encode_thread 9000 joined)
unfolding new_supervisor left_by if◌then◌else◌
restart-Holds_example =
    restart-Holds platform 9000 thread (in_state reconnecting_output (some thread)) refl

abbrev stalled_often : Supervisor
stalled_often = record (in_state stalled none) { consecutive_stall_recoveries = 2 }

reconnect_or_force-Recovery_example : IsForced (reconnect_or_force stalled_often)
unfolding new_supervisor
reconnect_or_force-Recovery_example = reconnect_or_force-Recovery stalled_often refl

abbrev given_up_often : Supervisor
given_up_often = record (in_state reconnecting_output none) { reconnect_attempts = 3 }

handle_reconnecting_output-IsGivenUp_example :
    Returns IsGivenUp (handle_reconnecting_output platform reconnecting_inputs given_up_often)
unfolding new_supervisor
handle_reconnecting_output-IsGivenUp_example =
    handle_reconnecting_output-IsGivenUp platform reconnecting_inputs given_up_often refl refl refl
      refl refl

abbrev kept_session : Supervisor
kept_session = record (in_state connecting_output none) {
  seamless_handoff = true;
  current_width = 1;
  current_height = 1;
}

connect_source-IsHandedOver_example :
    Returns
      (IsHandedOver kept_session)
      (connect_source connecting picture picture_meta kept_session)
unfolding new_supervisor rtsp_up
connect_source-IsHandedOver_example =
    connect_source-IsHandedOver connecting picture picture_meta kept_session refl refl refl refl
      refl refl refl

handle_reconfiguring-IsStuck_example :
    Returns IsStuck
      (handle_reconfiguring platform reconfiguring_inputs (in_state reconfiguring none))
unfolding new_supervisor Resources.init_encoder_and_rtsp if◌then◌else◌ Init.init
    Resources.teardown_encoder Resources.teardown_rtsp Resources.note_stopped State.poll_stop
    Resources.connect_rtsp Client.connect get_codec_info
handle_reconfiguring-IsStuck_example =
    handle_reconfiguring-IsStuck platform reconfiguring_inputs (in_state reconfiguring none) refl
      refl refl refl

abbrev reported : Supervisor
reported = record (in_state idle none) {
  sinks = record (new_supervisor 0 settings).sinks {
    metrics = record (new_supervisor 0 settings).sinks.metrics { current_state = "IDLE" };
  };
}

transitions-IsReported_example :
    IsReported (transitions (probing ∷ fatal ∷ connecting_output ∷ []) reported)
unfolding new_supervisor state_name
transitions-IsReported_example =
    transitions-IsReported (probing ∷ fatal ∷ connecting_output ∷ []) reported
      (record { callback = refl; name = refl })

abbrev asked : Inputs
asked = record round_inputs { stop = true }

run_loop-IsLeft_example :
    Returns IsLeft (
      run_loop platform
        (round_inputs ∷ asked ∷ round_inputs ∷ [])
        (in_state streaming (some thread)))
    × (run_loop platform
          (round_inputs ∷ asked ∷ round_inputs ∷ [])
          (in_state streaming (some thread))
        ≡ run_loop platform
            (round_inputs ∷ record asked { last = none } ∷ [])
            (in_state streaming (some thread)))
unfolding new_supervisor
run_loop-IsLeft_example =
    run_loop-IsLeft platform (round_inputs ∷ []) asked (record asked { last = none })
      (round_inputs ∷ []) [] (in_state streaming (some thread)) refl refl refl
      (record {
        owned = record {
          thread = refl;
          pump = refl;
          encoder = refl;
          client = refl;
          inactive = refl;
        };
        usable = record { has_fps = refl; polls = refl; callback = refl; told = refl };
      })

abbrev failing : Supervisor
failing = record (in_state reconnecting_output none) { reconnect_attempts = 2 }

run_loop-LeadsOut_example : LeadsOut platform (round_inputs ∷ round_inputs ∷ []) failing
unfolding new_supervisor
run_loop-LeadsOut_example =
    run_loop-LeadsOut platform (round_inputs ∷ round_inputs ∷ []) failing
      (record {
        owned = record { no_thread = refl; pump = refl; encoder = refl; inactive = refl };
        usable = record { has_fps = refl; polls = refl; callback = refl; told = refl };
      })
      refl refl
