-- ===== src/Metrics/Save/Race.antt =====
-- What a change of state in the middle of `save_health` of src/metrics/metrics_store.cpp can leave behind:
-- the payload is built from one state and the file from the next one.
use spout_relay.Base.{
  Bool, true, false, Option, some, String, if◌then◌else◌, ◌≡◌, refl, sym, ◌∙◌, arith, choose,
}
use text.Mathlib.TextEquality.{eq_iff}
use spout_relay.Common.AtomicFile.Atomic.{write-IsAtomic}
use spout_relay.Common.AtomicFile.{Disk, set_error, write}
use spout_relay.Metrics.Store.{MetricsStore}
use spout_relay.Metrics.Report.{Object, health_object}
use spout_relay.Metrics.Save.{Outside, Saved, build_health_json, save_health}

module _ (dump : Object → String) (path old : String) where
  save_unchanged :
      (outside : Outside) (m : MetricsStore) (d : Disk)
      → build_health_json dump false outside.now m ≡ m.last_health_payload
      → save_health dump outside path (some old) m d
        ≡ record { ok = false; error = some ""; store = m; disk = d }
  unfolding save_health set_error if◌then◌else◌
  save_unchanged outside m d e =
      ground (arith, eq_iff (build_health_json dump false outside.now m) m.last_health_payload)

  record IsWritten (outside : Outside) (m : MetricsStore) (r : Saved) : Type 0 where
    payload : r.store.last_health_payload ≡ build_health_json dump false outside.now m
    file : r.disk.files path ≡ some (build_health_json dump true outside.now (outside.meanwhile m))

  IsWritten-ok :
      (outside : Outside) (m : MetricsStore) (d after : Disk) (ok : Bool) (error : Option String)
      → (ok ≡ true
          → after.files path ≡ some (build_health_json dump true outside.now (outside.meanwhile m)))
      → ok ≡ true
      → IsWritten outside m (record {
        ok = ok;
        error = error;
        store =
            if ok
            then record (outside.meanwhile m) {
              last_health_payload = build_health_json dump false outside.now m;
            }
            else outside.meanwhile m;
        disk = after;
      })
  unfolding if◌then◌else◌
  IsWritten-ok outside m d after true error file e = record { payload = refl; file = file refl }
  IsWritten-ok outside m d after false error file e = absurd (ground arith)

  save_changed :
      (outside : Outside) (m : MetricsStore) (d : Disk)
      → (save_health dump outside path (some old) m d).ok ≡ true
      → IsWritten outside m (save_health dump outside path (some old) m d)
  unfolding save_health set_error
  save_changed outside m d =
      let content = build_health_json dump true outside.now (outside.meanwhile m) in
      let w = write outside.answers path content (some "") d in
      choose (λ (r : Saved). r.ok ≡ true → IsWritten outside m r) _ (λ _ e. absurd (ground arith))
        (λ _.
          IsWritten-ok outside m d w.disk w.ok w.error
            (write-IsAtomic outside.answers path content (some "") d).replaced)

-- After a successful `save_health`, whatever other threads did in the middle of it, the file names the
-- state of the later moment; yet as soon as the state is again the one of the earlier moment, the next
-- `save_health` finds nothing to write and leaves that file as it is.
pub save_health-stale :
    (dump : Object → String) (path old : String) (outside later : Outside) (m back : MetricsStore)
    (d : Disk)
    → (save_health dump outside path (some old) m d).ok ≡ true
    → back.last_health_payload
      ≡ (save_health dump outside path (some old) m d).store.last_health_payload
    → back.current_state ≡ m.current_state
    → (save_health dump later path
          (some old)
          back
          (save_health dump outside path (some old) m d).disk
        ≡ record {
          ok = false;
          error = some "";
          store = back;
          disk = (save_health dump outside path (some old) m d).disk;
        })
      × ((save_health dump outside path (some old) m d).disk.files path
          ≡ some (build_health_json dump true outside.now (outside.meanwhile m)))
save_health-stale dump path old outside later m back d ok cached state =
    let first = save_changed dump path old outside m d ok in
    let same : build_health_json dump false later.now back
        ≡ build_health_json dump false outside.now m =
      unfold build_health_json health_object if◌then◌else◌ in rw state refl in
    (save_unchanged dump path old later back _ (same ∙ sym first.payload ∙ sym cached), first.file)
