-- ===== src/Common/AtomicFile/Atomic.antt =====
-- What `atomic_file::write` of src/common/atomic_file.cpp leaves behind, and what a reader can see of it.
use spout_relay.Base.{
  true, false, List, [], ◌∷◌, ◌++◌, Option, none, some, String, if◌then◌else◌, ◌≡◌, ◌≢◌, ◌⊎◌, inl,
  inr, refl, ap, ◌∙◌, arith, Bool-cases, choose,
}
use Prim.Native.String.{count}
use text.Mathlib.TextEquality.{eq_iff}
use text.Mathlib.TextLemmas.{length-append}
use spout_relay.Common.AtomicFile.{
  Files, Disk, put, change, Answers, Written, closed, failed_after, threw_after, tmp_path,
  remove_tmp, fail, attempt, k_max_attempts, replace_file, replace_or_discard, set_error, Thrown,
  Writing, open_tmp, guarded, write_content, write,
}

pub put_same :
    (path : String) (content : Option String) (files : Files)
    → put path content files path ≡ content
unfolding put if◌then◌else◌
put_same path content files = ground (arith, eq_iff path path)

pub put_other :
    (path p : String) (content : Option String) (files : Files)
    → p ≢ path
    → put path content files p ≡ files p
unfolding put if◌then◌else◌
put_other path p content files ne = ground (arith, eq_iff p path)

tmp_path_other : (path : String) → path ≢ tmp_path path
unfolding tmp_path
tmp_path_other path e = absurd (omega (arith, ap count e, length-append path ".tmp"))

abbrev pub Always : (Files → Type 0) → List Files → Type 0
Always P [] = Unit
Always P (files ∷ history) = P files × Always P history

module _ (path content : String) (start : Disk) where
  -- The content of `path` is whole: the one from before or the new one.
  abbrev pub Whole : Files → Type 0
  Whole files = (files path ≡ start.files path) ⊎ (files path ≡ some content)

  -- Everything that could be seen since `start` was whole.
  abbrev pub Since : Disk → Type 0
  Since d = (seen : List Files) × (d.history ≡ seen ++ start.history) × Always Whole seen

  Since_next :
      (files : Files) (d : Disk)
      → d.files path ≡ start.files path
      → Since d
      → Since (change files d)
  unfolding change
  Since_next files d same (seen, e, all) =
      (d.files ∷ seen, ap (λ h. d.files ∷ h) e, (inl same, all))

  -- A state before the replacement.
  record IsKept (d : Disk) : Type 0 where
    same : d.files path ≡ start.files path
    others : (p : String) → p ≢ path → p ≢ tmp_path path → d.files p ≡ start.files p
    whole : Since d

  pub record IsAtomic (w : Written) : Type 0 where
    pub replaced : w.ok ≡ true → w.disk.files path ≡ some content
    pub kept : w.ok ≡ false → w.disk.files path ≡ start.files path
    pub others : (p : String) → p ≢ path → p ≢ tmp_path path → w.disk.files p ≡ start.files p
    pub whole : Since w.disk

  IsKept-put_tmp :
      (x : Option String) (d : Disk) → IsKept d → IsKept (change (put (tmp_path path) x d.files) d)
  unfolding change
  IsKept-put_tmp x d k = record {
    same = put_other (tmp_path path) path x d.files (tmp_path_other path) ∙ k.same;
    others = λ p ne ne'. put_other (tmp_path path) p x d.files ne' ∙ k.others p ne ne';
    whole = Since_next (put (tmp_path path) x d.files) d k.same k.whole;
  }

  IsKept-remove_tmp : (answers : Answers) (d : Disk) → IsKept d → IsKept (remove_tmp answers path d)
  unfolding remove_tmp
  IsKept-remove_tmp answers d k =
      choose IsKept answers.removes (λ _. IsKept-put_tmp none d k) (λ _. k)

  IsAtomic-failure :
      (error : Option String) (d : Disk)
      → IsKept d
      → IsAtomic (record { ok = false; error = error; disk = d })
  IsAtomic-failure error d k = record {
    replaced = λ e. absurd (ground arith);
    kept = λ _. k.same;
    others = k.others;
    whole = k.whole;
  }

  IsAtomic-fail :
      (answers : Answers) (error : Option String) (message : String) (d : Disk)
      → IsKept d
      → IsAtomic (fail answers path error message d)
  unfolding fail
  IsAtomic-fail answers error message d k =
      IsAtomic-failure _ (remove_tmp answers path d) (IsKept-remove_tmp answers d k)

  IsAtomic-moved :
      (error : Option String) (d : Disk)
      → IsKept d
      → d.files (tmp_path path) ≡ some content
      → IsAtomic (record {
        ok = true;
        error = error;
        disk = change (put (tmp_path path) none (put path (d.files (tmp_path path)) d.files)) d;
      })
  unfolding change
  IsAtomic-moved error d k full =
      let moved = put path (d.files (tmp_path path)) d.files in
      record {
        replaced = λ _.
            put_other (tmp_path path) path none moved (tmp_path_other path)
            ∙ put_same path (d.files (tmp_path path)) d.files
            ∙ full;
        kept = λ e. absurd (ground arith);
        others = λ p ne ne'.
            put_other (tmp_path path) p none moved ne'
            ∙ put_other path p (d.files (tmp_path path)) d.files ne
            ∙ k.others p ne ne';
        whole = Since_next (put (tmp_path path) none moved) d k.same k.whole;
      }

  IsAtomic-replace_or_discard :
      (answers : Answers) (error : Option String) (d : Disk)
      → IsKept d
      → d.files (tmp_path path) ≡ some content
      → IsAtomic (replace_or_discard answers path error d)
  unfolding replace_or_discard replace_file if◌then◌else◌
  IsAtomic-replace_or_discard answers error d k full =
      elim (Bool-cases (attempt answers.moves k_max_attempts 0 0).moved) [
        | inl h ↦ rw h (IsAtomic-moved error d k full)
        | inr h ↦
            rw h (IsAtomic-failure _ (remove_tmp answers path d) (IsKept-remove_tmp answers d k))
      ]

  IsAtomic-write_content :
      (writing : Writing) (answers : Answers) (error : Option String) (d : Disk)
      → IsKept d
      → IsAtomic (write_content writing answers path content error d)
  unfolding write_content
  IsAtomic-write_content closed answers error d k =
      IsAtomic-replace_or_discard answers error _ (IsKept-put_tmp (some content) d k)
        (unfold change in put_same (tmp_path path) (some content) d.files)
  IsAtomic-write_content (failed_after part) answers error d k =
      IsAtomic-fail answers error _ _ (IsKept-put_tmp (some part) d k)
  IsAtomic-write_content (threw_after part thrown) answers error d k =
      IsAtomic-fail answers error _ _ (IsKept-put_tmp (some part) d k)

  IsAtomic-open_tmp :
      (answers : Answers) (error : Option String) (d : Disk)
      → IsKept d
      → IsAtomic (open_tmp answers path content error d)
  unfolding open_tmp
  IsAtomic-open_tmp answers error d k =
      choose IsAtomic answers.opens
        (λ _. IsAtomic-write_content answers.writing answers error _ (IsKept-put_tmp (some "") d k))
        (λ _. IsAtomic-failure _ d k)

  IsAtomic-guarded :
      (thrown : Option Thrown) (answers : Answers) (error : Option String) (d : Disk)
      → IsKept d
      → IsAtomic (guarded thrown answers path content error d)
  unfolding guarded
  IsAtomic-guarded none answers error d k = IsAtomic-open_tmp answers error d k
  IsAtomic-guarded (some _) answers error d k = IsAtomic-fail answers error _ d k

pub write-IsAtomic :
    (answers : Answers) (path content : String) (error : Option String) (d : Disk)
    → IsAtomic path content d (write answers path content error d)
unfolding write
write-IsAtomic answers path content error d =
    IsAtomic-guarded path content d answers.parents answers (set_error error "") d
      (record { same = refl; others = λ _ _ _. refl; whole = ([], refl, tt) })
