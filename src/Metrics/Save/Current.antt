-- ===== src/Metrics/Save/Current.antt =====
-- What the files of `save_metrics` and `save_health` of src/metrics/metrics_store.cpp hold after a save.
use spout_relay.Base.{
  Bool, true, false, Option, some, String, if◌then◌else◌, ◌≡◌, ◌≢◌, ◌⊎◌, inl, inr, refl, sym, ◌∙◌,
  ap, arith, choose,
}
use text.Mathlib.Text.{◌==◌ as str_eq}
use text.Mathlib.TextEquality.{eq_iff}
use spout_relay.Common.AtomicFile.Atomic.{IsAtomic, write-IsAtomic}
use spout_relay.Common.AtomicFile.Errors.{AreSpoken, IsExplained, write-IsExplained}
use spout_relay.Common.AtomicFile.{Thrown, Disk, Written, what, tmp_path, write}
use spout_relay.Metrics.Store.{MetricsStore}
use spout_relay.Metrics.Report.{Object, Now, health_object}
use spout_relay.Metrics.Save.{Outside, Saved}

-- The exceptions of one save say something, and nobody changes the store in the middle of it.
pub record IsQuiet (outside : Outside) : Type 0 where
  pub said : (t : Thrown) → outside.answers.parents ≡ some t → what t ≢ ""
  pub spoken : AreSpoken outside.answers.writing
  pub undisturbed : (m : MetricsStore) → outside.meanwhile m ≡ m

-- nlohmann's `dump`: no object has an empty text, and the text of a report of the health, which holds a
-- Boolean value and a string, tells what it holds.
pub record IsDump (dump : Object → String) : Type 0 where
  pub nonempty : (a : Object) → dump a ≢ ""
  pub health :
      (a b : Now) (m n : MetricsStore)
      → dump (health_object false a m) ≡ dump (health_object false b n)
      → health_object false a m ≡ health_object false b n

-- One of the two reports: how it is built, the payload of the last write, and how that is kept.
module _ (object : Bool → Now → MetricsStore → Object) (last : MetricsStore → String)
    (remember : String → MetricsStore → MetricsStore) where
  unfoldable pub save_report : (Object → String) → Outside → String → MetricsStore → Disk → Saved
  save_report dump outside path m d =
      let payload = dump (object false outside.now m) in
      if str_eq payload (last m)
      then (record { ok = false; error = some ""; store = m; disk = d })
      else let m = outside.meanwhile m in
        let written = write outside.answers path (dump (object true outside.now m)) (some "") d in
        (record {
          ok = written.ok;
          error = written.error;
          store = if written.ok then remember payload m else m;
          disk = written.disk;
        })

  module _ (dump : Object → String) (path : String) where
    -- The file holds a report, with its time stamp, whose text without it is that of `m`.
    abbrev pub IsFresh : MetricsStore → Disk → Type 0
    IsFresh m d =
        (now : Now) × (old : MetricsStore) × (dump (object false now old)
          ≡ dump (object false now m))
        × (d.files path ≡ some (dump (object true now old)))

    -- The payload that is kept is that of the report in the file, if there is one.
    abbrev pub IsHeld : MetricsStore → Disk → Type 0
    IsHeld m d =
        (last m ≡ "")
        ⊎ ((now : Now) × (old : MetricsStore) × (last m ≡ dump (object false now old))
            × (d.files path ≡ some (dump (object true now old))))

    pub record IsSaved (m : MetricsStore) (d : Disk) (r : Saved) : Type 0 where
      pub fresh : r.error ≡ some "" → IsFresh r.store r.disk
      pub held : IsHeld r.store r.disk
      pub retried : r.error ≢ some "" → last r.store ≡ last m
      pub kept : r.error ≢ some "" → r.disk.files path ≡ d.files path
      pub answered : (message : String) × (r.error ≡ some message)

    module _ (laws : IsDump dump)
        (timeless : (a b : Now) (m : MetricsStore) → object false a m ≡ object false b m)
        (last_remember : (p : String) (m : MetricsStore) → last (remember p m) ≡ p)
        (object_remember : (b : Bool) (now : Now) (p : String) (m : MetricsStore)
          → object b now (remember p m) ≡ object b now m) where
      skipped :
          (now : Now) (m : MetricsStore) (d : Disk)
          → dump (object false now m) ≡ last m
          → IsHeld m d
          → IsFresh m d
      skipped now m d e (inl new) = absurd (laws.nonempty _ (e ∙ new))
      skipped now m d e (inr (before, old, kept, file)) =
          (before, old, sym (e ∙ kept) ∙ ap dump (timeless now before m), file)

      IsSaved-skipped :
          (now : Now) (m : MetricsStore) (d : Disk)
          → dump (object false now m) ≡ last m
          → IsHeld m d
          → IsSaved m d (record { ok = false; error = some ""; store = m; disk = d })
      IsSaved-skipped now m d e held = record {
        fresh = λ _. skipped now m d e held;
        held = held;
        retried = λ _. refl;
        kept = λ _. refl;
        answered = ("", refl);
      }

      IsSaved-written :
          (now : Now) (m : MetricsStore) (d after : Disk) (error : Option String)
          → error ≡ some ""
          → after.files path ≡ some (dump (object true now m))
          → IsSaved m d (record {
            ok = true;
            error = error;
            store = remember (dump (object false now m)) m;
            disk = after;
          })
      IsSaved-written now m d after error e file = record {
        fresh = λ _. (now, m, ap dump (sym (object_remember false now _ m)), file);
        held = inr (now, m, last_remember _ m, file);
        retried = λ ne. absurd (ne e);
        kept = λ ne. absurd (ne e);
        answered = ("", e);
      }

      IsSaved-failed :
          (m : MetricsStore) (d after : Disk) (error : Option String)
          → (message : String) × (error ≡ some message) × (message ≢ "")
          → after.files path ≡ d.files path
          → IsHeld m d
          → IsSaved m d (record { ok = false; error = error; store = m; disk = after })
      IsSaved-failed m d after error (message, said, ne) same held = record {
        fresh = λ e. absurd (ne (ground (arith, said, e)));
        held = held_after held;
        retried = λ _. refl;
        kept = λ _. same;
        answered = (message, said);
      }
        where
          held_after : IsHeld m d → IsHeld m after
          held_after (inl new) = inl new
          held_after (inr (now, old, kept, file)) = inr (now, old, kept, same ∙ file)

      IsSaved-attempt :
          (now : Now) (m : MetricsStore) (d : Disk) (w : Written) (ok : Bool)
          → w.ok ≡ ok
          → IsAtomic path (dump (object true now m)) d w
          → IsExplained w
          → IsHeld m d
          → IsSaved m d (record {
            ok = ok;
            error = w.error;
            store = if ok then remember (dump (object false now m)) m else m;
            disk = w.disk;
          })
      unfolding if◌then◌else◌
      IsSaved-attempt now m d w true e atomic explained held =
          IsSaved-written now m d w.disk w.error (explained.success e) (atomic.replaced e)
      IsSaved-attempt now m d w false e atomic explained held =
          IsSaved-failed m d w.disk w.error (explained.failure e) (atomic.kept e) held

      pub save_report-IsSaved :
          (outside : Outside) (m : MetricsStore) (d : Disk)
          → IsQuiet outside
          → IsHeld m d
          → IsSaved m d (save_report dump outside path m d)
      unfolding save_report
      save_report-IsSaved outside m d quiet held = rw (quiet.undisturbed m) (
          choose (IsSaved m d) _
            (λ e.
              IsSaved-skipped outside.now m d
                (ground (arith, eq_iff (dump (object false outside.now m)) (last m))) held)
            (λ _.
              let w = write outside.answers path (dump (object true outside.now m)) (some "") d in
              IsSaved-attempt outside.now m d w w.ok refl
                (write-IsAtomic outside.answers path (dump (object true outside.now m)) (some "") d)
                (write-IsExplained outside.answers path (dump (object true outside.now m)) "" d
                  quiet.said quiet.spoken)
                held))

    -- What a save leaves alone: another part of the store, and another file.
    pub record IsApart (part : MetricsStore → String) (m : MetricsStore) (d : Disk) (r : Saved)
        : Type 0 where
      pub part_kept : part r.store ≡ part m
      pub file_kept : (p : String) → p ≢ path → p ≢ tmp_path path → r.disk.files p ≡ d.files p

    pub save_report-IsApart :
        (part : MetricsStore → String) (outside : Outside) (m : MetricsStore) (d : Disk)
        → ((m : MetricsStore) → outside.meanwhile m ≡ m)
        → ((p : String) (m : MetricsStore) → part (remember p m) ≡ part m)
        → IsApart part m d (save_report dump outside path m d)
    unfolding save_report
    save_report-IsApart part outside m d undisturbed part-remember =
        let content = dump (object true outside.now (outside.meanwhile m)) in
        let w = write outside.answers path content (some "") d in
        choose (IsApart part m d) _ (λ _. record { part_kept = refl; file_kept = λ p _ _. refl })
          (λ _. record {
            part_kept =
                choose (λ s. part s ≡ part m) w.ok
                  (λ _. part-remember _ (outside.meanwhile m) ∙ ap part (undisturbed m))
                  (λ _. ap part (undisturbed m));
            file_kept = (write-IsAtomic outside.answers path content (some "") d).others;
          })
