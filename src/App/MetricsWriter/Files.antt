-- ===== src/App/MetricsWriter/Files.antt =====
-- What the thread `metrics_writer_thread_func` of src/app/supervisor.cpp leaves in its two files.
use spout_relay.Base.{true, List, [], ◌∷◌, some, String, ◌≡◌, ◌≢◌, refl, sym, ◌∙◌, arith, choose}
use spout_relay.Common.AtomicFile.{tmp_path}
use spout_relay.Config.Types.{AppConfig}
use spout_relay.Metrics.Store.{MetricsStore}
use spout_relay.Metrics.Report.{Object, Now}
use spout_relay.Metrics.Save.Current.{IsQuiet, IsDump}
use spout_relay.Metrics.Save.Reports.{
  IsHeldMetrics, IsHeldHealth, IsHeldMetrics-same, IsHeldHealth-same, IsFresh-health,
  save_metrics-IsSaved, save_health-IsSaved, save_metrics-IsApart, save_health-IsApart,
}
use spout_relay.Metrics.Save.{build_health_json, Saved, save_metrics, save_health}
use spout_relay.App.MetricsWriter.Told.{note_open}
use spout_relay.App.MetricsWriter.{
  Writer, local_error, SaveInputs, RoundInputs, write_metrics, write_health, metrics_due,
  health_due, rounds, metrics_writer_thread_func,
}

-- Other threads do not touch the kept payloads, nor anything in the middle of a save.
pub record IsCalm (a : SaveInputs) : Type 0 where
  pub quiet : IsQuiet a.outside
  pub metrics_payload :
      (m : MetricsStore) → (a.others m).last_metrics_payload ≡ m.last_metrics_payload
  pub health_payload : (m : MetricsStore) → (a.others m).last_health_payload ≡ m.last_health_payload

pub data AreCalm : List RoundInputs → Type 0 where
  none_left : AreCalm []
  one_more :
      {a : RoundInputs} {rest : List RoundInputs}
      → IsCalm a.metrics_save
      → IsCalm a.health_save
      → AreCalm rest
      → AreCalm (a ∷ rest)

-- The two files and their temporary files are four.
pub record AreSeparate (config : AppConfig) : Type 0 where
  pub files : config.app.health_path ≢ config.app.metrics_path
  pub health_tmp : config.app.metrics_path ≢ tmp_path config.app.health_path
  pub metrics_tmp : config.app.health_path ≢ tmp_path config.app.metrics_path

module _ (dump : Object → String) (laws : IsDump dump) (config : AppConfig)
    (apart : AreSeparate config) where
  -- Each kept payload is that of the report in its file, if there is one.
  pub record IsKeeping (w : Writer) : Type 0 where
    pub metrics_file : IsHeldMetrics dump config.app.metrics_path w.metrics w.disk
    pub health_file : IsHeldHealth dump config.app.health_path w.metrics w.disk

  write_metrics-IsKeeping :
      (a : SaveInputs) (w : Writer)
      → IsCalm a
      → IsKeeping w
      → IsKeeping (write_metrics dump config a w)
  unfolding write_metrics
  write_metrics-IsKeeping a w calm k =
      let m = a.others w.metrics in
      let path = config.app.metrics_path in
      let r : Saved = save_metrics dump a.outside path (some "") m w.disk in
      let saved = save_metrics-IsSaved dump laws a.outside path "" m w.disk calm.quiet (
        IsHeldMetrics-same dump path w.metrics m w.disk w.disk (calm.metrics_payload w.metrics) refl
          k.metrics_file) in
      let other = save_metrics-IsApart dump a.outside path "" m w.disk calm.quiet.undisturbed in
      record {
        metrics_file = saved.held;
        health_file =
            IsHeldHealth-same dump config.app.health_path w.metrics r.store w.disk r.disk
              (other.part_kept ∙ calm.health_payload w.metrics)
              (other.file_kept config.app.health_path apart.files apart.metrics_tmp) k.health_file;
      }

  -- After a save of the report of the health: unless a failure is open, the file holds the present one.
  record IsHealthWritten (w : Writer) : Type 0 where
    keeping : IsKeeping w
    fresh :
        w.health_last_error ≡ ""
        → (now : Now) × (w.disk.files config.app.health_path
            ≡ some (build_health_json dump true now w.metrics))

  write_health-IsHealthWritten :
      (a : SaveInputs) (w : Writer)
      → IsCalm a
      → IsKeeping w
      → IsHealthWritten (write_health dump config a w)
  unfolding write_health
  write_health-IsHealthWritten a w calm k =
      let m = a.others w.metrics in
      let path = config.app.health_path in
      let r : Saved = save_health dump a.outside path (some "") m w.disk in
      let saved = save_health-IsSaved dump laws a.outside path "" m w.disk calm.quiet (
        IsHeldHealth-same dump path w.metrics m w.disk w.disk (calm.health_payload w.metrics) refl
          k.health_file) in
      let other = save_health-IsApart dump a.outside path "" m w.disk calm.quiet.undisturbed in
      record {
        keeping = record {
          metrics_file =
              IsHeldMetrics-same dump config.app.metrics_path w.metrics r.store w.disk r.disk
                (other.part_kept ∙ calm.metrics_payload w.metrics)
                (other.file_kept config.app.metrics_path (λ e. apart.files (sym e))
                  apart.health_tmp)
                k.metrics_file;
          health_file = saved.held;
        };
        fresh = λ closed_out.
            let (message, said) = saved.answered in
            let none_open : local_error r.error ≡ "" =
              note_open "health" path r.ok (local_error r.error) w.health_last_error w.log
                closed_out in
            IsFresh-health dump laws path r.store r.disk
              (saved.fresh (ground (arith, said, none_open)));
      }

  metrics_due-IsKeeping :
      (a : RoundInputs) (w : Writer)
      → IsCalm a.metrics_save
      → IsKeeping w
      → IsKeeping (metrics_due dump config a w)
  unfolding metrics_due
  metrics_due-IsKeeping a w calm k =
      choose IsKeeping _
        (λ _.
          let t = write_metrics-IsKeeping a.metrics_save w calm k in
          record { metrics_file = t.metrics_file; health_file = t.health_file })
        (λ _. k)

  health_due-IsKeeping :
      (a : RoundInputs) (w : Writer)
      → IsCalm a.health_save
      → IsKeeping w
      → IsKeeping (health_due dump config a w)
  unfolding health_due
  health_due-IsKeeping a w calm k =
      choose IsKeeping _
        (λ _.
          let t = (write_health-IsHealthWritten a.health_save w calm k).keeping in
          record { metrics_file = t.metrics_file; health_file = t.health_file })
        (λ _. k)

  rounds-IsKeeping :
      (inputs : List RoundInputs) (w : Writer)
      → AreCalm inputs
      → IsKeeping w
      → IsKeeping (rounds dump config inputs w)
  unfolding rounds
  rounds-IsKeeping [] w none_left k = k
  rounds-IsKeeping (a ∷ rest) w (one_more metrics health calm) k =
      rounds-IsKeeping rest _ calm
        (health_due-IsKeeping a _ health (metrics_due-IsKeeping a w metrics k))

-- When the thread ends and no failure of the health report is open, the health file holds the report of
-- the store as it then is, whatever failed before and however often the files were written. The
-- conditions: no other thread changes the store in the middle of a save or changes the kept payloads,
-- exceptions carry a text, `dump` never returns the empty text and tells different health reports apart,
-- the paths differ, and at the start each kept payload is that of the report in its file, if one was
-- written.
pub metrics_writer_thread_func-health :
    (dump : Object → String) (laws : IsDump dump) (config : AppConfig) (apart : AreSeparate config)
    (inputs : List RoundInputs) (last_metrics last_health : SaveInputs) (w : Writer)
    → AreCalm inputs
    → IsCalm last_metrics
    → IsCalm last_health
    → IsKeeping dump laws config apart w
    → (metrics_writer_thread_func dump config inputs last_metrics last_health w).health_last_error
      ≡ ""
    → (now : Now) × ((metrics_writer_thread_func dump config inputs last_metrics last_health
            w).disk.files
          config.app.health_path
        ≡ some (
            build_health_json dump true now
              (metrics_writer_thread_func dump config inputs last_metrics last_health w).metrics))
unfolding metrics_writer_thread_func
metrics_writer_thread_func-health dump laws config apart inputs last_metrics last_health w calm mc
      hc k =
    (write_health-IsHealthWritten dump laws config apart last_health _ hc (
      write_metrics-IsKeeping dump laws config apart last_metrics _ mc
        (rounds-IsKeeping dump laws config apart inputs w calm k))).fresh
