-- ===== src/Builtin/RoundTrip.antt =====
-- tools/filewrite.go, tools/fileedit.go and tools/fileread.go, one after the other on one file.
use emberbox.Prelude.{
  Option, Bool, true, if◌then◌else◌, is_empty-filled, ℕ, suc, Text, [], ◌≡◌, ◌≢◌, refl, ap, none,
  false, take, drop, All, text_eq, text_eq_iff, Bool-cases, inl, inr, arith,
}
use emberbox.Prelude.Int.{pos}
use emberbox.Errors.{Error, Result, ok}
use emberbox.Builtin.{Files, require_field}
use emberbox.Builtin.FileWrite.{Paths, write}
use emberbox.Builtin.FileEdit.{FileEditInput, count, replace_first, edit}
use emberbox.Builtin.FileRead.{unended, FileReadInput, read, pieces, shown, limit_or}
use emberbox.Builtin.FileRead.Laws.{all_numbered, Fits, scan_lem}

-- What the code relies on in a file system: a file that was written is read back, at once and by
-- opening it.
pub record Stores {W : Type 0} (files : Files W) : Type 0 where
  pub reads_back :
      (path content : Text) (w w' : W)
      → files.write_file path content w ≡ (none, w')
      → files.read_file path w' ≡ ok content
  pub opens :
      (path content : Text) (w w' : W)
      → files.write_file path content w ≡ (none, w')
      → files.open_file path w' ≡ ok (content, none)

same_branch {ℓ} : {A : Type ℓ} (b : Bool) (x : A) → (if b then x else x) ≡ x
same_branch true x = refl
same_branch false x = refl

module _ {W : Type 0} (files : Files W) (paths : Paths W) (edit_input : Text → Result FileEditInput)
    (read_input : Text → Result FileReadInput) where
  write-stored :
      (path content : Text) (w w₁ w₂ : W)
      → path ≢ []
      → paths.mkdir_all (paths.dir path) w ≡ (none, w₁)
      → files.write_file path content w₁ ≡ (none, w₂)
      → (write files paths (record { path = path; content = content }) w).1 ≡ w₂
  unfolding write require_field
  write-stored path content w w₁ w₂ given made wrote =
      rw (is_empty-filled path given, made, wrote) refl

  edit-stored :
      (path content old new : Text) (w w' : W)
      → path ≢ []
      → old ≢ []
      → old ≢ new
      → files.read_file path w ≡ ok content
      → count content old ≡ 1
      → files.write_file path (replace_first content old new) w ≡ (none, w')
      → (edit files edit_input (record { path = path; old_string = old; new_string = new }) w).1
        ≡ w'
  unfolding edit
  edit-stored path content old new w w' given has changes reads once wrote =
      let differ : text_eq old new ≡ false = elim (Bool-cases (text_eq old new)) [
        | inl same ↦ absurd (changes ((text_eq_iff old new).0 same))
        | inr differ ↦ differ
      ] in
      rw (is_empty-filled path given, is_empty-filled old has, differ, reads, once, wrote) refl

  read-stored :
      (path content : Text) (offset limit : ℕ) (w : W)
      → path ≢ []
      → files.open_file path w ≡ ok (content, none)
      → All Fits (pieces content)
      → read files read_input
          (record { path = path; offset = pos offset; limit = pos (suc limit) })
          w
        ≡ shown (ok (take (suc limit) (drop offset (all_numbered 0 (pieces content)))))
  unfolding read require_field
  read-stored path content offset limit w given opened fit =
      let kept : limit_or (pos (suc limit)) ≡ pos (suc limit) = ground arith in
      let no_error = same_branch {A = Option Error} (unended content) none in
      rw (is_empty-filled path given, opened, kept, no_error)
        (ap shown (scan_lem offset (suc limit) (pieces content) fit))

  -- A file that file_write wrote and file_edit then changed is shown by file_read with the change
  -- made: the numbered lines of the new content in the window that offset and limit select. The
  -- directory can be made and both writes go through, the old string is not empty, differs from the
  -- new one and occurs once, and every line of the new content fits into the buffer of file_read.
  pub write-edit-read :
      (path content old new : Text) (offset limit : ℕ) (w w₁ w₂ w₃ : W)
      → Stores files
      → path ≢ []
      → old ≢ []
      → old ≢ new
      → count content old ≡ 1
      → paths.mkdir_all (paths.dir path) w ≡ (none, w₁)
      → files.write_file path content w₁ ≡ (none, w₂)
      → files.write_file path (replace_first content old new) w₂ ≡ (none, w₃)
      → All Fits (pieces (replace_first content old new))
      → let written = (write files paths (record { path = path; content = content }) w).1 in
        let edited =
          (edit files edit_input
            (record { path = path; old_string = old; new_string = new })
            written).1 in
        read files read_input
          (record { path = path; offset = pos offset; limit = pos (suc limit) })
          edited
        ≡ shown (
            ok (
              take
                (suc limit)
                (drop offset (all_numbered 0 (pieces (replace_first content old new))))))
  write-edit-read path content old new offset limit w w₁ w₂ w₃ laws given has changes once made
        first second fit =
      rw
        (
          write-stored path content w w₁ w₂ given made first,
          edit-stored path content old new w₂ w₃ given has changes
              (laws.reads_back path content w₁ w₂ first) once second,
        )
        (read-stored path (replace_first content old new) offset limit w₃ given
          (laws.opens path (replace_first content old new) w₂ w₃ second) fit)
