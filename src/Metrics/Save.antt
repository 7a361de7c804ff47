-- ===== src/Metrics/Save.antt =====
-- `save_metrics` and `save_health` of src/metrics/metrics_store.cpp. `dump` is nlohmann's `dump(2)`. The
-- mutex is free between the two times that a report is built: `meanwhile` is what other threads do to the
-- store then.
pub mod Current
pub mod Reports
pub mod Race
use spout_relay.Base.{Bool, true, false, Option, none, some, String, if◌then◌else◌}
use text.Mathlib.Text.{◌==◌ as str_eq}
use spout_relay.Common.AtomicFile.{Answers, Disk, Written, set_error, write}
use spout_relay.Metrics.Store.{MetricsStore}
use spout_relay.Metrics.Report.{Object, Now, metrics_object, health_object}

-- What the world does during one save.
pub record Outside : Type 0 where
  pub now : Now
  pub meanwhile : MetricsStore → MetricsStore
  pub answers : Answers

pub record Saved : Type 0 where
  pub ok : Bool
  pub error : Option String
  pub store : MetricsStore
  pub disk : Disk

module _ (dump : Object → String) where
  unfoldable pub build_metrics_json : Bool → Now → MetricsStore → String
  unfolding metrics_object
  build_metrics_json with_ts now m = dump (metrics_object with_ts now m)

  unfoldable pub build_health_json : Bool → Now → MetricsStore → String
  unfolding health_object
  build_health_json with_ts now m = dump (health_object with_ts now m)

  unfoldable pub save_metrics : Outside → String → Option String → MetricsStore → Disk → Saved
  unfolding build_metrics_json set_error write
  save_metrics outside path error m d =
      let cleared = set_error error "" in
      let payload = build_metrics_json false outside.now m in
      if str_eq payload m.last_metrics_payload
      then (record { ok = false; error = cleared; store = m; disk = d })
      else let m = outside.meanwhile m in
        let written =
          write outside.answers path (build_metrics_json true outside.now m) cleared d in
        (record {
          ok = written.ok;
          error = written.error;
          store = if written.ok then record m { last_metrics_payload = payload } else m;
          disk = written.disk;
        })

  unfoldable pub save_health : Outside → String → Option String → MetricsStore → Disk → Saved
  unfolding build_health_json set_error write
  save_health outside path error m d =
      let cleared = set_error error "" in
      let payload = build_health_json false outside.now m in
      if str_eq payload m.last_health_payload
      then (record { ok = false; error = cleared; store = m; disk = d })
      else let m = outside.meanwhile m in
        let written = write outside.answers path (build_health_json true outside.now m) cleared d in
        (record {
          ok = written.ok;
          error = written.error;
          store = if written.ok then record m { last_health_payload = payload } else m;
          disk = written.disk;
        })
