-- ===== src/App/MetricsWriter.antt =====
-- `Supervisor::metrics_writer_thread_func` of src/app/supervisor.cpp. `log` gets the lines of this thread.
pub mod Told
pub mod Story
pub mod Files
use spout_relay.Base.{
  ℕ, Bool, true, false, not, ◌&&◌, List, [], ◌∷◌, Option, none, some, String, if◌then◌else◌,
}
use text.Mathlib.Text.{◌==◌ as str_eq}
use spout_relay.Common.AtomicFile.{Disk}
use spout_relay.Common.Time.{Stopwatch, expired}
use spout_relay.Config.Types.{AppConfig}
use spout_relay.Logging.Sink.{LogSink, str, info, log_error, log_event}
use spout_relay.Metrics.Report.{Object}
use spout_relay.Metrics.Store.{MetricsStore}
use spout_relay.Metrics.Save.{Outside, Saved, save_metrics, save_health}

pub record Writer : Type 0 where
  pub metrics_sw : Stopwatch
  pub health_sw : Stopwatch
  pub metrics_last_error : String
  pub health_last_error : String
  pub metrics : MetricsStore
  pub log : LogSink
  pub disk : Disk

-- The thread's start at `now`.
abbrev pub new_writer : ℕ → MetricsStore → LogSink → Disk → Writer
new_writer now metrics log disk = record {
  metrics_sw = now;
  health_sw = now;
  metrics_last_error = "";
  health_last_error = "";
  metrics = metrics;
  log = log;
  disk = disk;
}

-- The local `error` of the lambda, which the save was given.
abbrev pub local_error : Option String → String
local_error none = ""
local_error (some error) = error

-- The rest of the lambda `save`: what is logged, and the new `last_error`.
unfoldable pub note : String → String → Bool → String → String → LogSink → String × LogSink
unfolding log_error log_event
note target path ok error last_error log =
    let fields = ("target", str target) ∷ ("path", str path) ∷ [] in
    if not (str_eq error "")
    then (if not (str_eq error last_error)
        then (error, log_error "STATE_FILE_WRITE_FAILED" error fields log)
        else (last_error, log))
    else if ok && not (str_eq last_error "")
    then ("", log_event info "state_file_write_recovered" fields log)
    else (last_error, log)

-- What one save meets: what other threads did to the store since the last one, and the outside.
pub record SaveInputs : Type 0 where
  pub others : MetricsStore → MetricsStore
  pub outside : Outside

-- One round: the readings of the steady clock for each stopwatch, and the saves.
pub record RoundInputs : Type 0 where
  pub metrics_now : ℕ
  pub metrics_reset : ℕ
  pub health_now : ℕ
  pub health_reset : ℕ
  pub metrics_save : SaveInputs
  pub health_save : SaveInputs

module _ (dump : Object → String) (config : AppConfig) where
  -- `save("metrics", …, true)`
  unfoldable pub write_metrics : SaveInputs → Writer → Writer
  unfolding save_metrics note
  write_metrics a w =
      let saved =
        save_metrics dump a.outside config.app.metrics_path (some "") (a.others w.metrics) w.disk in
      let noted =
        note "metrics" config.app.metrics_path saved.ok (local_error saved.error)
          w.metrics_last_error w.log in
      record w {
        metrics_last_error = noted.0;
        log = noted.1;
        metrics = saved.store;
        disk = saved.disk;
      }

  -- `save("health", …, false)`
  unfoldable pub write_health : SaveInputs → Writer → Writer
  unfolding save_health note
  write_health a w =
      let saved =
        save_health dump a.outside config.app.health_path (some "") (a.others w.metrics) w.disk in
      let noted =
        note "health" config.app.health_path saved.ok (local_error saved.error) w.health_last_error
          w.log in
      record w {
        health_last_error = noted.0;
        log = noted.1;
        metrics = saved.store;
        disk = saved.disk;
      }

  unfoldable pub metrics_due : RoundInputs → Writer → Writer
  unfolding write_metrics
  metrics_due a w =
      if expired a.metrics_now w.metrics_sw config.runtime.emit_metrics_interval_ms
      then record (write_metrics a.metrics_save w) { metrics_sw = a.metrics_reset }
      else w

  unfoldable pub health_due : RoundInputs → Writer → Writer
  unfolding write_health
  health_due a w =
      if expired a.health_now w.health_sw config.runtime.emit_health_interval_ms
      then record (write_health a.health_save w) { health_sw = a.health_reset }
      else w

  -- The rounds until the request to shut down is seen.
  unfoldable pub rounds : List RoundInputs → Writer → Writer
  unfolding metrics_due health_due
  rounds [] w = w
  rounds (a ∷ rest) w = rounds rest (health_due a (metrics_due a w))

  -- The whole thread: the rounds and the final flush.
  unfoldable pub metrics_writer_thread_func :
      List RoundInputs → SaveInputs → SaveInputs → Writer → Writer
  unfolding rounds write_metrics write_health
  metrics_writer_thread_func inputs last_metrics last_health w =
      write_health last_health (write_metrics last_metrics (rounds inputs w))
