-- ===== src/Common/AtomicFile/Errors.antt =====
-- The error text of `atomic_file::write` in src/common/atomic_file.cpp.
use spout_relay.Base.{
  ◌<◌, true, false, Option, none, some, String, if◌then◌else◌, ◌≡◌, ◌≢◌, refl, ap, arith, choose,
  Bool-cases, inl, inr,
}
use Prim.Native.String.{count, ◌++◌ as append}
use text.Mathlib.TextLemmas.{length-append}
use spout_relay.Common.AtomicFile.{
  Thrown, Writing, closed, failed_after, threw_after, Answers, Disk, Written, set_error, what, fail,
  replace_file, replace_or_discard, attempt, k_max_attempts, remove_tmp, write_content, open_tmp,
  guarded, write,
}

-- An exception of the stream says something.
pub data AreSpoken : Writing → Type 0 where
  no_throw : AreSpoken closed
  no_throw_after : {part : String} → AreSpoken (failed_after part)
  spoken_after :
      {part : String} {thrown : Thrown} → what thrown ≢ "" → AreSpoken (threw_after part thrown)

-- The text is empty after a success and only then.
pub record IsExplained (w : Written) : Type 0 where
  pub success : w.ok ≡ true → w.error ≡ some ""
  pub failure : w.ok ≡ false → (message : String) × (w.error ≡ some message) × (message ≢ "")

append-nonempty : (s t : String) → 0 < count s → append s t ≢ ""
append-nonempty s t h e = omega (arith, ap count e, length-append s t)

IsExplained-failure :
    (old message : String) (d : Disk)
    → message ≢ ""
    → IsExplained (record { ok = false; error = set_error (some old) message; disk = d })
unfolding set_error
IsExplained-failure old message d ne = record {
  success = λ e. absurd (ground arith);
  failure = λ _. (message, refl, ne);
}

IsExplained-fail :
    (answers : Answers) (path old message : String) (d : Disk)
    → message ≢ ""
    → IsExplained (fail answers path (some old) message d)
unfolding fail
IsExplained-fail answers path old message d ne =
    IsExplained-failure old message (remove_tmp answers path d) ne

IsExplained-replace_or_discard :
    (answers : Answers) (path : String) (d : Disk)
    → IsExplained (replace_or_discard answers path (some "") d)
unfolding replace_or_discard replace_file if◌then◌else◌
IsExplained-replace_or_discard answers path d =
    elim (Bool-cases (attempt answers.moves k_max_attempts 0 0).moved) [
      | inl h ↦ rw h (record { success = λ _. refl; failure = λ e. absurd (ground arith) })
      | inr h ↦ rw h (
          IsExplained-failure "" _ _ (append-nonempty "MoveFileExW failed (error " _ (omega arith)))
    ]

IsExplained-write_content :
    {writing : Writing} (answers : Answers) (path content : String) (d : Disk)
    → AreSpoken writing
    → IsExplained (write_content writing answers path content (some "") d)
unfolding write_content
IsExplained-write_content answers path content d no_throw =
    IsExplained-replace_or_discard answers path _
IsExplained-write_content answers path content d no_throw_after =
    IsExplained-fail answers path "" _ _ (append-nonempty "failed to write " _ (omega arith))
IsExplained-write_content answers path content d (spoken_after ne) =
    IsExplained-fail answers path "" _ _ ne

IsExplained-open_tmp :
    (answers : Answers) (path content : String) (d : Disk)
    → AreSpoken answers.writing
    → IsExplained (open_tmp answers path content (some "") d)
unfolding open_tmp
IsExplained-open_tmp answers path content d spoken =
    choose IsExplained answers.opens (λ _. IsExplained-write_content answers path content _ spoken)
      (λ _. IsExplained-failure "" _ d (append-nonempty "failed to open " _ (omega arith)))

IsExplained-guarded :
    (thrown : Option Thrown) (answers : Answers) (path content : String) (d : Disk)
    → ((t : Thrown) → thrown ≡ some t → what t ≢ "")
    → AreSpoken answers.writing
    → IsExplained (guarded thrown answers path content (some "") d)
unfolding guarded
IsExplained-guarded none answers path content d _ spoken =
    IsExplained-open_tmp answers path content d spoken
IsExplained-guarded (some t) answers path content d said _ =
    IsExplained-fail answers path "" _ d (said t refl)

-- If the exceptions that `write` may meet carry a text, then with a place for the error the text in it
-- is empty after a success, and some text that is not empty after a failure, whatever it held before.
pub write-IsExplained :
    (answers : Answers) (path content old : String) (d : Disk)
    → ((t : Thrown) → answers.parents ≡ some t → what t ≢ "")
    → AreSpoken answers.writing
    → IsExplained (write answers path content (some old) d)
unfolding write set_error
write-IsExplained answers path content old d said spoken =
    IsExplained-guarded answers.parents answers path content d said spoken
