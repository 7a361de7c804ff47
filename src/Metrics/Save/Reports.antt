-- ===== src/Metrics/Save/Reports.antt =====
-- The two instances of Metrics/Save/Current: `save_metrics` and `save_health` of
-- src/metrics/metrics_store.cpp.
use spout_relay.Base.{
  Bool, true, false, some, String, if◌then◌else◌, ◌≡◌, refl, ap, ◌∙◌, ◌++◌, inl, inr,
}
use spout_relay.Common.AtomicFile.{Disk, set_error}
use spout_relay.Metrics.Store.{MetricsStore}
use spout_relay.Metrics.Report.{Object, Now, metrics_object, health_object, time_stamp}
use spout_relay.Metrics.Save.Current.{
  IsQuiet, IsDump, IsSaved, IsFresh, IsHeld, IsApart, save_report, save_report-IsApart,
  save_report-IsSaved,
}
use spout_relay.Metrics.Save.{Outside, Saved, build_health_json, save_metrics, save_health}

abbrev last_metrics : MetricsStore → String
last_metrics m = m.last_metrics_payload

abbrev remember_metrics : String → MetricsStore → MetricsStore
remember_metrics p m = record m { last_metrics_payload = p }

abbrev last_health : MetricsStore → String
last_health m = m.last_health_payload

abbrev remember_health : String → MetricsStore → MetricsStore
remember_health p m = record m { last_health_payload = p }

metrics_object_timeless :
    (a b : Now) (m : MetricsStore) → metrics_object false a m ≡ metrics_object false b m
unfolding metrics_object if◌then◌else◌
metrics_object_timeless a b m = refl

health_object_timeless :
    (a b : Now) (m : MetricsStore) → health_object false a m ≡ health_object false b m
unfolding health_object if◌then◌else◌
health_object_timeless a b m = refl

metrics_object-remember_metrics :
    (b : Bool) (now : Now) (p : String) (m : MetricsStore)
    → metrics_object b now (remember_metrics p m) ≡ metrics_object b now m
unfolding metrics_object
metrics_object-remember_metrics b now p m = refl

health_object-remember_health :
    (b : Bool) (now : Now) (p : String) (m : MetricsStore)
    → health_object b now (remember_health p m) ≡ health_object b now m
unfolding health_object
health_object-remember_health b now p m = refl

-- The predicates at the two reports.
abbrev pub IsHeldMetrics : (Object → String) → String → MetricsStore → Disk → Type 0
IsHeldMetrics = IsHeld metrics_object last_metrics remember_metrics

abbrev pub IsHeldHealth : (Object → String) → String → MetricsStore → Disk → Type 0
IsHeldHealth = IsHeld health_object last_health remember_health

abbrev pub IsSavedMetrics : (Object → String) → String → MetricsStore → Disk → Saved → Type 0
IsSavedMetrics = IsSaved metrics_object last_metrics remember_metrics

abbrev pub IsSavedHealth : (Object → String) → String → MetricsStore → Disk → Saved → Type 0
IsSavedHealth = IsSaved health_object last_health remember_health

pub save_metrics-IsSaved :
    (dump : Object → String) (laws : IsDump dump) (outside : Outside) (path old : String)
    (m : MetricsStore) (d : Disk)
    → IsQuiet outside
    → IsHeldMetrics dump path m d
    → IsSavedMetrics dump path m d (save_metrics dump outside path (some old) m d)
unfolding save_metrics set_error save_report
save_metrics-IsSaved dump laws outside path old m d =
    save_report-IsSaved metrics_object last_metrics remember_metrics dump path laws
      metrics_object_timeless (λ p m. refl) metrics_object-remember_metrics outside m d

-- If the kept payload is that of the report in the file, or none was written yet, and if no other thread
-- changes the store in the middle of the save, exceptions carry a text, and `dump` never returns the
-- empty text, then after `save_health`: without an error the file holds a report whose text without its
-- time stamp is that of the present one; with an error the file and the kept payload are as before, so
-- that the next save tries again; and the kept payload is that of the report in the file in either case.
pub save_health-IsSaved :
    (dump : Object → String) (laws : IsDump dump) (outside : Outside) (path old : String)
    (m : MetricsStore) (d : Disk)
    → IsQuiet outside
    → IsHeldHealth dump path m d
    → IsSavedHealth dump path m d (save_health dump outside path (some old) m d)
unfolding save_health set_error save_report
save_health-IsSaved dump laws outside path old m d =
    save_report-IsSaved health_object last_health remember_health dump path laws
      health_object_timeless (λ p m. refl) health_object-remember_health outside m d

-- A fresh health report is the report of the present state, with the time of the write.
pub IsFresh-health :
    (dump : Object → String) (laws : IsDump dump) (path : String) (m : MetricsStore) (d : Disk)
    → IsFresh health_object last_health remember_health dump path m d
    → (now : Now) × (d.files path ≡ some (build_health_json dump true now m))
IsFresh-health dump laws path m d (now, old, same, file) = (
  now,
  unfold build_health_json health_object if◌then◌else◌ in
      file ∙ ap (λ o. some (dump (o ++ time_stamp true now))) (laws.health now now old m same),
)

-- Saving one report leaves the payload and the file of the other one alone.
pub save_metrics-IsApart :
    (dump : Object → String) (outside : Outside) (path old : String) (m : MetricsStore) (d : Disk)
    → ((m : MetricsStore) → outside.meanwhile m ≡ m)
    → IsApart metrics_object last_metrics remember_metrics dump path last_health m d
        (save_metrics dump outside path (some old) m d)
unfolding save_metrics set_error save_report
save_metrics-IsApart dump outside path old m d undisturbed =
    save_report-IsApart metrics_object last_metrics remember_metrics dump path last_health outside m
      d undisturbed (λ p m. refl)

pub save_health-IsApart :
    (dump : Object → String) (outside : Outside) (path old : String) (m : MetricsStore) (d : Disk)
    → ((m : MetricsStore) → outside.meanwhile m ≡ m)
    → IsApart health_object last_health remember_health dump path last_metrics m d
        (save_health dump outside path (some old) m d)
unfolding save_health set_error save_report
save_health-IsApart dump outside path old m d undisturbed =
    save_report-IsApart health_object last_health remember_health dump path last_metrics outside m d
      undisturbed (λ p m. refl)

pub IsHeldMetrics-same :
    (dump : Object → String) (path : String) (m m' : MetricsStore) (d d' : Disk)
    → m'.last_metrics_payload ≡ m.last_metrics_payload
    → d'.files path ≡ d.files path
    → IsHeldMetrics dump path m d
    → IsHeldMetrics dump path m' d'
IsHeldMetrics-same dump path m m' d d' cached file (inl new) = inl (cached ∙ new)
IsHeldMetrics-same dump path m m' d d' cached file (inr (now, old, kept, there)) =
    inr (now, old, cached ∙ kept, file ∙ there)

pub IsHeldHealth-same :
    (dump : Object → String) (path : String) (m m' : MetricsStore) (d d' : Disk)
    → m'.last_health_payload ≡ m.last_health_payload
    → d'.files path ≡ d.files path
    → IsHeldHealth dump path m d
    → IsHeldHealth dump path m' d'
IsHeldHealth-same dump path m m' d d' cached file (inl new) = inl (cached ∙ new)
IsHeldHealth-same dump path m m' d d' cached file (inr (now, old, kept, there)) =
    inr (now, old, cached ∙ kept, file ∙ there)
