-- ===== src/App/MetricsWriter/Story.antt =====
-- Which lines `metrics_writer_thread_func` of src/app/supervisor.cpp writes to the log.
use spout_relay.Base.{true, false, some, Bool, List, [], ◌∷◌, String, if◌then◌else◌, ◌≡◌}
use spout_relay.Config.Types.{AppConfig}
use spout_relay.Logging.Sink.{Line}
use spout_relay.Common.Time.{expired}
use spout_relay.Metrics.Report.{Object}
use spout_relay.Metrics.Save.{Saved, save_metrics, save_health}
use spout_relay.App.MetricsWriter.{
  local_error, Writer, SaveInputs, RoundInputs, write_metrics, write_health, metrics_due,
  health_due, rounds, metrics_writer_thread_func,
}
use spout_relay.App.MetricsWriter.Told.{Report, Told, note-IsTold}

-- The saves of the thread, newest first.
pub data Event : Type 0 where
  of_metrics : Report → Event
  of_health : Report → Event

-- From the saves to the last errors of both targets and the lines, newest first.
pub data Story (metrics_path health_path : String)
    : List Event → String → String → List Line → Type 0 where
  start : Story metrics_path health_path [] "" "" []
  saved_metrics :
      {events : List Event} {m h m' : String} {lines lines' : List Line} {r : Report}
      → Story metrics_path health_path events m h lines
      → Told "metrics" metrics_path r m lines m' lines'
      → Story metrics_path health_path (of_metrics r ∷ events) m' h lines'
  saved_health :
      {events : List Event} {m h h' : String} {lines lines' : List Line} {r : Report}
      → Story metrics_path health_path events m h lines
      → Told "health" health_path r h lines h' lines'
      → Story metrics_path health_path (of_health r ∷ events) m h' lines'

-- A test that chooses two things at once.
choose_both :
    {A B : Type 0} (P : A → B → Type 0) (b : Bool) {x y : A} {u v : B}
    → P x u
    → P y v
    → P (if b then x else y) (if b then u else v)
unfolding if◌then◌else◌
choose_both P true p q = p
choose_both P false p q = q

module _ (dump : Object → String) (config : AppConfig) where
  abbrev pub report_of : Saved → Report
  report_of saved = record { ok = saved.ok; error = local_error saved.error }

  -- What the saves of a writer report.
  abbrev pub metrics_event : SaveInputs → Writer → Event
  metrics_event a w = of_metrics (
      report_of
        (save_metrics dump a.outside config.app.metrics_path (some "") (a.others w.metrics) w.disk))

  abbrev pub health_event : SaveInputs → Writer → Event
  health_event a w = of_health (
      report_of
        (save_health dump a.outside config.app.health_path (some "") (a.others w.metrics) w.disk))

  -- The saves of the rounds, and those of the whole thread, behind some that came before.
  unfoldable pub events_of : List RoundInputs → Writer → List Event → List Event
  events_of [] w events = events
  events_of (a ∷ rest) w events =
      let w' = metrics_due dump config a w in
      let events' =
        if expired a.metrics_now w.metrics_sw config.runtime.emit_metrics_interval_ms
        then metrics_event a.metrics_save w ∷ events
        else events in
      events_of rest (health_due dump config a w') (
        if expired a.health_now w'.health_sw config.runtime.emit_health_interval_ms
        then health_event a.health_save w' ∷ events'
        else events')

  unfoldable pub thread_events :
      List RoundInputs → SaveInputs → SaveInputs → Writer → List Event → List Event
  thread_events inputs last_metrics last_health w events =
      let w' = rounds dump config inputs w in
      health_event last_health (write_metrics dump config last_metrics w')
      ∷ metrics_event last_metrics w'
      ∷ events_of inputs w events

  pub record IsStory (w : Writer) (events : List Event) : Type 0 where
    pub logger : w.log.logger ≡ true
    pub story :
        Story config.app.metrics_path config.app.health_path events w.metrics_last_error
          w.health_last_error w.log.lines

  write_metrics-IsStory :
      (a : SaveInputs) (w : Writer) (events : List Event)
      → IsStory w events
      → IsStory (write_metrics dump config a w) (metrics_event a w ∷ events)
  unfolding write_metrics
  write_metrics-IsStory a w events h =
      let told =
        note-IsTold "metrics" config.app.metrics_path _ _ w.metrics_last_error w.log h.logger in
      record { logger = told.logger; story = saved_metrics h.story told.told }

  write_health-IsStory :
      (a : SaveInputs) (w : Writer) (events : List Event)
      → IsStory w events
      → IsStory (write_health dump config a w) (health_event a w ∷ events)
  unfolding write_health
  write_health-IsStory a w events h =
      let told =
        note-IsTold "health" config.app.health_path _ _ w.health_last_error w.log h.logger in
      record { logger = told.logger; story = saved_health h.story told.told }

  metrics_round :
      (a : RoundInputs) (w : Writer) (events : List Event)
      → IsStory w events
      → IsStory (metrics_due dump config a w) (
          if expired a.metrics_now w.metrics_sw config.runtime.emit_metrics_interval_ms
          then metrics_event a.metrics_save w ∷ events
          else events)
  unfolding metrics_due
  metrics_round a w events h =
      let t = write_metrics-IsStory a.metrics_save w events h in
      choose_both IsStory _ (record { logger = t.logger; story = t.story }) h

  health_round :
      (a : RoundInputs) (w : Writer) (events : List Event)
      → IsStory w events
      → IsStory (health_due dump config a w) (
          if expired a.health_now w.health_sw config.runtime.emit_health_interval_ms
          then health_event a.health_save w ∷ events
          else events)
  unfolding health_due
  health_round a w events h =
      let t = write_health-IsStory a.health_save w events h in
      choose_both IsStory _ (record { logger = t.logger; story = t.story }) h

  rounds-IsStory :
      (inputs : List RoundInputs) (w : Writer) (events : List Event)
      → IsStory w events
      → IsStory (rounds dump config inputs w) (events_of inputs w events)
  unfolding rounds events_of
  rounds-IsStory [] w events h = h
  rounds-IsStory (a ∷ rest) w events h =
      rounds-IsStory rest _ _ (health_round a _ _ (metrics_round a w events h))

-- If the log is open and holds the story of some saves, as the empty log of the thread's start does,
-- then the log at the end of the thread is the story of those and of all saves that the thread made,
-- save by save, by what it reported: an error whose text is not that of the last error is logged and
-- becomes the last error, an error with the same text is not, a success while a failure is open logs
-- the recovery and clears the last error, and anything else logs nothing.
pub metrics_writer_thread_func-IsStory :
    (dump : Object → String) (config : AppConfig) (inputs : List RoundInputs)
    (last_metrics last_health : SaveInputs) (w : Writer) (events : List Event)
    → IsStory dump config w events
    → IsStory dump config
        (metrics_writer_thread_func dump config inputs last_metrics last_health w)
        (thread_events dump config inputs last_metrics last_health w events)
unfolding metrics_writer_thread_func thread_events
metrics_writer_thread_func-IsStory dump config inputs last_metrics last_health w events h =
    write_health-IsStory dump config last_health _ _ (
      write_metrics-IsStory dump config last_metrics _ _
        (rounds-IsStory dump config inputs w events h))
