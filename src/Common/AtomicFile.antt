-- ===== src/Common/AtomicFile.antt =====
-- src/common/atomic_file.cpp, as it is built for Windows. What the file system answers to the calls of
-- one `write` is an argument; `history` is a ghost: the contents that a reader could have seen before.
pub mod Atomic
pub mod Attempts
pub mod Errors
pub mod TmpFile
use spout_relay.Base.{
  ℕ, zero, suc, ◌+◌, Bool, true, false, not, ◌||◌, List, [], ◌∷◌, Option, none, some, String, pos,
  to_string, ◌==◌, if◌then◌else◌,
}
use text.Mathlib.Text.{◌==◌ as str_eq}
use Prim.Native.String.{◌++◌ as append}

-- The content of each path; none where there is no file.
abbrev pub Files : Type 0
Files = String → Option String

pub record Disk : Type 0 where
  pub files : Files
  pub history : List Files

unfoldable pub put : String → Option String → Files → Files
put path content files = λ p. if str_eq p path then content else files p

unfoldable pub change : Files → Disk → Disk
change files d = record { files = files; history = d.files ∷ d.history }

-- What an exception says; none for one that is no `std::exception`.
abbrev pub Thrown : Type 0
Thrown = Option String

-- How the stream fared that `content` was put into: closed without an error, or with one or an exception
-- after a part of it had reached the disk.
pub data Writing : Type 0 where
  closed : Writing
  failed_after : String → Writing
  threw_after : String → Thrown → Writing

-- `parents` is the exception of `parent_path` or `create_directories`, if there is one; `moves` says for
-- each call of `MoveFileExW` whether it succeeded (none) or else what `GetLastError` returned; `removes`
-- says whether `fs::remove(tmp, ec)` deletes the file.
pub record Answers : Type 0 where
  pub parents : Option Thrown
  pub opens : Bool
  pub writing : Writing
  pub moves : ℕ → Option ℕ
  pub removes : Bool

-- `error` is the pointer's target; none for nullptr.
unfoldable pub set_error : Option String → String → Option String
set_error none message = none
set_error (some _) message = some message

-- ERROR_SHARING_VIOLATION, ERROR_LOCK_VIOLATION and ERROR_ACCESS_DENIED.
unfoldable pub is_transient_error : ℕ → Bool
is_transient_error code = code == 32 || (code == 33 || code == 5)

abbrev pub k_max_attempts : ℕ
k_max_attempts = 5

-- How the attempts ended, and after how many calls and waits of 20 ms.
pub record Tries : Type 0 where
  pub moved : Bool
  pub last_error : ℕ
  pub calls : ℕ
  pub waits : ℕ

-- The loop from attempt `i` on; `left` is k_max_attempts - i.
unfoldable pub attempt : (ℕ → Option ℕ) → ℕ → ℕ → ℕ → Tries
unfolding is_transient_error
attempt moves zero i last_error = record {
  moved = false;
  last_error = last_error;
  calls = i;
  waits = i;
}
attempt moves (suc left) i last_error = elim (moves i) [
  | none ↦ record { moved = true; last_error = last_error; calls = i + 1; waits = i }
  | some code ↦
      let later = attempt moves left (i + 1) code in
      if not (is_transient_error code) || i + 1 == k_max_attempts
      then record { moved = false; last_error = code; calls = i + 1; waits = i }
      else later
]

pub record Written : Type 0 where
  pub ok : Bool
  pub error : Option String
  pub disk : Disk

unfoldable pub tmp_path : String → String
tmp_path path = append path ".tmp"

-- `fs::remove(tmp, ec)`
unfoldable pub remove_tmp : Answers → String → Disk → Disk
unfolding put change tmp_path
remove_tmp answers path d =
    if answers.removes then change (put (tmp_path path) none d.files) d else d

-- A failure behind which `tmp` is removed.
unfoldable pub fail : Answers → String → Option String → String → Disk → Written
unfolding set_error remove_tmp
fail answers path error message d = record {
  ok = false;
  error = set_error error message;
  disk = remove_tmp answers path d;
}

-- `MoveFileExW` with MOVEFILE_REPLACE_EXISTING: what `tmp` holds stands under `dest` in one step.
unfoldable pub replace_file : Answers → String → Option String → Disk → Written
unfolding attempt put change tmp_path set_error
replace_file answers path error d =
    let tries = attempt answers.moves k_max_attempts 0 0 in
    if tries.moved
    then (record {
      ok = true;
      error = error;
      disk = change (put (tmp_path path) none (put path (d.files (tmp_path path)) d.files)) d;
    })
    else (record {
      ok = false;
      error =
          set_error error
            (append "MoveFileExW failed (error " (append (to_string (pos tries.last_error)) ")"));
      disk = d;
    })

-- The file is complete; after a failed replacement only `tmp` is discarded.
unfoldable pub replace_or_discard : Answers → String → Option String → Disk → Written
unfolding replace_file remove_tmp
replace_or_discard answers path error d =
    let replaced = replace_file answers path error d in
    if replaced.ok
    then replaced
    else record replaced { disk = remove_tmp answers path replaced.disk }

unfoldable pub what : Thrown → String
what (some message) = message
what none = "unknown exception"

-- The stream and what follows it.
unfoldable pub write_content : Writing → Answers → String → String → Option String → Disk → Written
unfolding put change tmp_path fail replace_or_discard what
write_content closed answers path content error d =
    replace_or_discard answers path error (change (put (tmp_path path) (some content) d.files) d)
write_content (failed_after part) answers path content error d =
    fail answers path error (append "failed to write " (tmp_path path))
      (change (put (tmp_path path) (some part) d.files) d)
write_content (threw_after part thrown) answers path content error d =
    fail answers path error (what thrown) (change (put (tmp_path path) (some part) d.files) d)

-- Opening the file empties it.
unfoldable pub open_tmp : Answers → String → String → Option String → Disk → Written
unfolding set_error put change tmp_path write_content
open_tmp answers path content error d =
    if answers.opens
    then write_content answers.writing answers path content error
        (change (put (tmp_path path) (some "") d.files) d)
    else (record {
      ok = false;
      error = set_error error (append "failed to open " (tmp_path path));
      disk = d;
    })

-- The `try` block and its handlers.
unfoldable pub guarded : Option Thrown → Answers → String → String → Option String → Disk → Written
unfolding fail open_tmp what
guarded (some thrown) answers path content error d = fail answers path error (what thrown) d
guarded none answers path content error d = open_tmp answers path content error d

-- `error->clear()` comes first.
unfoldable pub write : Answers → String → String → Option String → Disk → Written
unfolding set_error guarded
write answers path content error d =
    guarded answers.parents answers path content (set_error error "") d
