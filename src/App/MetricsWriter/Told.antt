-- ===== src/App/MetricsWriter/Told.antt =====
-- What the lambda `save` in `metrics_writer_thread_func` of src/app/supervisor.cpp logs.
use spout_relay.Base.{
  true, false, ◌⊎◌, inl, inr, refl, Bool, not, ◌&&◌, List, [], ◌∷◌, String, if◌then◌else◌, ◌≡◌, ◌≢◌,
  arith, choose,
}
use text.Mathlib.Text.{◌==◌ as str_eq}
use text.Mathlib.TextEquality.{eq_iff}
use spout_relay.Logging.Sink.{
  Line, LogSink, str, info, err, log_error, log_event, assign_all, assign,
}
use spout_relay.App.MetricsWriter.{note}

abbrev pub failure_line : String → String → String → Line
failure_line target path error = record {
  level = err;
  event = "error";
  fields =
      ("code", str "STATE_FILE_WRITE_FAILED")
      ∷ ("message", str error)
      ∷ ("target", str target)
      ∷ ("path", str path)
      ∷ [];
}

abbrev pub recovery_line : String → String → Line
recovery_line target path = record {
  level = info;
  event = "state_file_write_recovered";
  fields = ("target", str target) ∷ ("path", str path) ∷ [];
}

-- What a save reported.
pub record Report : Type 0 where
  pub ok : Bool
  pub error : String

-- What one save must do to its last error and to the log, by what it reported.
pub data Told (target path : String) (r : Report) (last : String) (lines : List Line)
    : String → List Line → Type 0 where
  failed :
      r.error ≢ ""
      → r.error ≢ last
      → Told target path r last lines r.error (failure_line target path r.error ∷ lines)
  failed_again : r.error ≢ "" → r.error ≡ last → Told target path r last lines last lines
  recovered :
      r.error ≡ ""
      → r.ok ≡ true
      → last ≢ ""
      → Told target path r last lines "" (recovery_line target path ∷ lines)
  went_on : r.error ≡ "" → (r.ok ≡ false) ⊎ (last ≡ "") → Told target path r last lines last lines

pub record IsTold (target path : String) (report : Report) (last : String) (log : LogSink)
    (r : String × LogSink) : Type 0 where
  pub logger : r.1.logger ≡ true
  pub told : Told target path report last log.lines r.0 r.1.lines

differs : (s t : String) → not (str_eq s t) ≡ true → s ≢ t
differs s t h = ground (arith, eq_iff s t)

log_error-failure_line :
    (target path error : String) (log : LogSink)
    → log.logger ≡ true
    → log_error "STATE_FILE_WRITE_FAILED" error
        (("target", str target) ∷ ("path", str path) ∷ [])
        log
      ≡ record log { lines = failure_line target path error ∷ log.lines }
unfolding log_error log_event assign_all assign if◌then◌else◌
log_error-failure_line target path error log h = ground (arith, h)

log_event-recovery_line :
    (target path : String) (log : LogSink)
    → log.logger ≡ true
    → log_event info "state_file_write_recovered"
        (("target", str target) ∷ ("path", str path) ∷ [])
        log
      ≡ record log { lines = recovery_line target path ∷ log.lines }
unfolding log_event if◌then◌else◌
log_event-recovery_line target path log h = ground (arith, h)

agrees : (s t : String) → not (str_eq s t) ≡ false → s ≡ t
agrees s t h = ground (arith, eq_iff s t)

unless : (b : Bool) (s : String) → (b && not (str_eq s "")) ≡ false → (b ≡ false) ⊎ (s ≡ "")
unless true s h = inr (agrees s "" h)
unless false s h = inl refl

pub note-IsTold :
    (target path : String) (ok : Bool) (error last : String) (log : LogSink)
    → log.logger ≡ true
    → IsTold target path
        (record { ok = ok; error = error })
        last
        log
        (note target path ok error last log)
unfolding note
note-IsTold target path ok error last log h =
    choose told (not (str_eq error ""))
      (λ some_error.
        choose told (not (str_eq error last))
          (λ other. rw (log_error-failure_line target path error log h) (record {
            logger = h;
            told = failed (differs error "" some_error) (differs error last other);
          }))
          (λ same. record {
            logger = h;
            told = failed_again (differs error "" some_error) (agrees error last same);
          }))
      (λ no_error.
        choose told (ok && not (str_eq last ""))
          (λ back. rw (log_event-recovery_line target path log h) (record {
            logger = h;
            told =
                recovered (agrees error "" no_error) (ground (arith, back))
                  (differs last "" (ground (arith, back)));
          }))
          (λ not_back. record {
            logger = h;
            told = went_on (agrees error "" no_error) (unless ok last not_back);
          }))
  where
    told : String × LogSink → Type 0
    told r = IsTold target path (record { ok = ok; error = error }) last log r

-- Behind a save that leaves no failure open, there was no error.
pub note_open :
    (target path : String) (ok : Bool) (error last : String) (log : LogSink)
    → (note target path ok error last log).0 ≡ ""
    → error ≡ ""
unfolding note if◌then◌else◌
note_open target path ok error last log h = ground (arith, h, eq_iff error "", eq_iff error last)
