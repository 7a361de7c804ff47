-- ===== src/Examples/Files.antt =====
-- The theorems on the state files at concrete inputs.
use spout_relay.Base.{true, false, [], ◌∷◌, none, some, ◌≡◌, inl, refl, arith, ◌==◌, if◌then◌else◌}
use text.Mathlib.TextEquality.{eq_iff}
use spout_relay.Common.AtomicFile.{
  Disk, Answers, closed, failed_after, attempt, k_max_attempts, tmp_path, write,
}
use spout_relay.Common.AtomicFile.Attempts.{IsReport, attempt_lem}
use spout_relay.Common.AtomicFile.Errors.{IsExplained, no_throw, no_throw_after, write-IsExplained}
use spout_relay.Common.AtomicFile.TmpFile.{IsSafe, write-IsSafe}
use spout_relay.Logging.Sink.{LogSink}
use spout_relay.Metrics.Store.{MetricsStore, empty_store}
use spout_relay.Metrics.Report.{Now}
use spout_relay.Metrics.Save.{Outside, Saved, build_health_json, save_health}
use spout_relay.Metrics.Save.Current.{IsQuiet}
use spout_relay.Metrics.Save.Reports.{IsSavedHealth, save_health-IsSaved}
use spout_relay.Metrics.Save.Race.{save_health-stale}
use spout_relay.App.MetricsWriter.{
  Writer, new_writer, SaveInputs, RoundInputs, metrics_writer_thread_func,
}
use spout_relay.App.MetricsWriter.Story.{
  start, IsStory, thread_events, metrics_writer_thread_func-IsStory,
}
use spout_relay.App.MetricsWriter.Files.{
  IsCalm, AreCalm, none_left, one_more, AreSeparate, metrics_writer_thread_func-health,
}
use spout_relay.Examples.Dump.{dump, dump-IsDump}
use spout_relay.Examples.Inputs.{settings}

abbrev old_disk : Disk
old_disk = record { files = λ p. some "old"; history = [] }

-- The reader lets go of the file before the third call.
abbrev busy : Answers
busy = record {
  parents = none;
  opens = true;
  writing = closed;
  moves = λ i. if i == 0 then some 32 else if i == 1 then some 5 else none;
  removes = true;
}

abbrev full : Answers
full = record busy { writing = failed_after "ne" }

write-IsSafe_example :
    IsSafe busy "h.json" "new" old_disk (write busy "h.json" "new" (some "x") old_disk)
write-IsSafe_example = write-IsSafe busy "h.json" "new" (some "x") old_disk

third_call : (write busy "h.json" "new" (some "x") old_disk).ok ≡ true
unfolding write if◌then◌else◌
third_call = refl

attempt_lem_example : IsReport busy.moves k_max_attempts 0 (attempt busy.moves k_max_attempts 0 0)
attempt_lem_example = attempt_lem busy.moves

write-IsExplained_example : IsExplained (write full "h.json" "new" (some "x") old_disk)
write-IsExplained_example =
    write-IsExplained full "h.json" "new" "x" old_disk (λ t e. absurd (ground arith)) no_throw_after

abbrev tick : Now
tick = record {
  system_ms = 3;
  stamp_ms = 3;
  utc = record { year = 2024; month = 5; day = 17; hour = 12; minute = 0; second = 9 };
}

abbrev calm_outside : Outside
calm_outside = record { now = tick; meanwhile = λ m. m; answers = busy }

calm_outside-IsQuiet : IsQuiet calm_outside
calm_outside-IsQuiet = record {
  said = λ t e. absurd (ground arith);
  spoken = no_throw;
  undisturbed = λ m. refl;
}

abbrev streaming_store : MetricsStore
streaming_store = record empty_store { current_state = "STREAMING" }

save_health-IsSaved_example :
    IsSavedHealth dump "h.json" streaming_store old_disk
      (save_health dump calm_outside "h.json" (some "") streaming_store old_disk)
save_health-IsSaved_example =
    save_health-IsSaved dump dump-IsDump calm_outside "h.json" "" streaming_store old_disk
      calm_outside-IsQuiet (inl refl)

-- The state goes from STREAMING to STALLED in the middle of the first save, and back again.
abbrev torn_outside : Outside
torn_outside = record calm_outside { meanwhile = λ m. record m { current_state = "STALLED" } }

abbrev torn : Saved
torn = save_health dump torn_outside "h.json" (some "") streaming_store old_disk

abbrev back : MetricsStore
back = record torn.store { current_state = "STREAMING" }

save_health-stale_example :
    (save_health dump calm_outside "h.json" (some "") back torn.disk
      ≡ record { ok = false; error = some ""; store = back; disk = torn.disk })
    × (torn.disk.files "h.json"
        ≡ some (
            build_health_json dump true tick
              (record streaming_store { current_state = "STALLED" })))
save_health-stale_example =
    save_health-stale dump "h.json" "" torn_outside calm_outside streaming_store back old_disk
      (unfold save_health dump if◌then◌else◌ in refl) refl refl

abbrev calm_save : SaveInputs
calm_save = record { others = λ m. m; outside = calm_outside }

calm_save-IsCalm : IsCalm calm_save
calm_save-IsCalm = record {
  quiet = calm_outside-IsQuiet;
  metrics_payload = λ m. refl;
  health_payload = λ m. refl;
}

-- The first save of the report of the health meets a full disk.
abbrev full_round : RoundInputs
full_round = record {
  metrics_now = 2000000;
  metrics_reset = 2000000;
  health_now = 6000000;
  health_reset = 6000000;
  metrics_save = calm_save;
  health_save = record calm_save { outside = record calm_outside { answers = full } };
}

full_round-AreCalm : AreCalm (full_round ∷ [])
full_round-AreCalm =
    one_more calm_save-IsCalm
      (record {
        quiet = record {
          said = λ t e. absurd (ground arith);
          spoken = no_throw_after;
          undisturbed = λ m. refl;
        };
        metrics_payload = λ m. refl;
        health_payload = λ m. refl;
      })
      none_left

abbrev open_log : LogSink
open_log = record { logger = true; lines = []; flushes = 0 }

abbrev writer : Writer
writer = new_writer 0 streaming_store open_log old_disk

abbrev finished : Writer
finished = metrics_writer_thread_func dump settings (full_round ∷ []) calm_save calm_save writer

metrics_writer_thread_func-IsStory_example :
    IsStory dump settings finished
      (thread_events dump settings (full_round ∷ []) calm_save calm_save writer [])
metrics_writer_thread_func-IsStory_example =
    metrics_writer_thread_func-IsStory dump settings (full_round ∷ []) calm_save calm_save writer []
      (record { logger = refl; story = start })

separate_paths : AreSeparate settings
unfolding tmp_path
separate_paths = record {
  files = ground (arith, eq_iff "h.json" "m.json");
  health_tmp = ground (arith, eq_iff "m.json" "h.json.tmp");
  metrics_tmp = ground (arith, eq_iff "h.json" "m.json.tmp");
}

metrics_writer_thread_func-health_example :
    (now : Now) × (finished.disk.files "h.json"
      ≡ some (build_health_json dump true now finished.metrics))
metrics_writer_thread_func-health_example =
    metrics_writer_thread_func-health dump dump-IsDump settings separate_paths (full_round ∷ [])
      calm_save calm_save writer full_round-AreCalm calm_save-IsCalm calm_save-IsCalm
      (record { metrics_file = inl refl; health_file = inl refl })
      (unfold metrics_writer_thread_func dump if◌then◌else◌ in refl)
