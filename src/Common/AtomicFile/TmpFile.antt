-- ===== src/Common/AtomicFile/TmpFile.antt =====
-- What becomes of the temporary file of `atomic_file::write` in src/common/atomic_file.cpp.
use spout_relay.Base.{
  true, Option, none, some, String, if◌then◌else◌, ◌≡◌, refl, choose, Bool-cases, inl, inr,
}
use spout_relay.Common.AtomicFile.Atomic.{IsAtomic, put_same, write-IsAtomic}
use spout_relay.Common.AtomicFile.{
  Thrown, Writing, closed, failed_after, threw_after, Answers, Disk, Written, change, put,
  set_error, fail, tmp_path, replace_file, replace_or_discard, attempt, k_max_attempts, remove_tmp,
  write_content, open_tmp, guarded, write,
}

module _ (answers : Answers) (path content : String) (removable : answers.removes ≡ true) where
  IsCleaned : Written → Type 0
  IsCleaned w = w.disk.files (tmp_path path) ≡ none

  remove_tmp-cleaned : (d : Disk) → (remove_tmp answers path d).files (tmp_path path) ≡ none
  unfolding remove_tmp change if◌then◌else◌
  remove_tmp-cleaned d = rw removable (put_same (tmp_path path) none d.files)

  replace_or_discard-IsCleaned :
      (error : Option String) (d : Disk) → IsCleaned (replace_or_discard answers path error d)
  unfolding replace_or_discard replace_file change IsCleaned if◌then◌else◌
  replace_or_discard-IsCleaned error d =
      elim (Bool-cases (attempt answers.moves k_max_attempts 0 0).moved) [
        | inl h ↦ rw h (put_same (tmp_path path) none (put path (d.files (tmp_path path)) d.files))
        | inr h ↦ rw h (remove_tmp-cleaned d)
      ]

  write_content-IsCleaned :
      (writing : Writing) (error : Option String) (d : Disk)
      → IsCleaned (write_content writing answers path content error d)
  unfolding write_content IsCleaned fail
  write_content-IsCleaned closed error d = replace_or_discard-IsCleaned error _
  write_content-IsCleaned (failed_after part) error d = remove_tmp-cleaned _
  write_content-IsCleaned (threw_after part thrown) error d = remove_tmp-cleaned _

  open_tmp-IsCleaned :
      (error : Option String) (d : Disk)
      → answers.opens ≡ true
      → IsCleaned (open_tmp answers path content error d)
  unfolding open_tmp
  open_tmp-IsCleaned error d h =
      choose IsCleaned answers.opens (λ _. write_content-IsCleaned answers.writing error _)
        (λ closed_out. absurd (cc (h, closed_out)))

  guarded-IsCleaned :
      (thrown : Option Thrown) (error : Option String) (d : Disk)
      → (thrown ≡ none → answers.opens ≡ true)
      → IsCleaned (guarded thrown answers path content error d)
  unfolding guarded
  guarded-IsCleaned none error d h = open_tmp-IsCleaned error d (h refl)
  guarded-IsCleaned (some t) error d h = unfold fail IsCleaned in remove_tmp-cleaned d

write_cleaned :
    (answers : Answers) (path content : String) (error : Option String) (d : Disk)
    → answers.removes ≡ true
    → (answers.parents ≡ none → answers.opens ≡ true)
    → (write answers path content error d).disk.files (tmp_path path) ≡ none
unfolding write IsCleaned
write_cleaned answers path content error d removable h =
    guarded-IsCleaned answers path content removable answers.parents (set_error error "") d h

-- What a caller of `write` may rely on.
pub record IsSafe (answers : Answers) (path content : String) (d : Disk) (w : Written)
    : Type 0 where
  pub atomic : IsAtomic path content d w
  pub cleaned :
      answers.removes ≡ true
      → (answers.parents ≡ none → answers.opens ≡ true)
      → w.disk.files (tmp_path path) ≡ none

-- Whatever the file system answers: if `write` returns true, the file holds exactly the new content, and if
-- it returns false, the file is as it was; no file but this and its temporary file is changed; at each
-- moment since the start of the call a reader found either the whole old content or the whole new one;
-- and no temporary file is left, if it can be removed and could be opened unless an exception came first.
pub write-IsSafe :
    (answers : Answers) (path content : String) (error : Option String) (d : Disk)
    → IsSafe answers path content d (write answers path content error d)
write-IsSafe answers path content error d = record {
  atomic = write-IsAtomic answers path content error d;
  cleaned = write_cleaned answers path content error d;
}
