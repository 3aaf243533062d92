-- ===== src/Tests/BuiltinTests.antt =====
-- The built-in tools at concrete inputs.
use emberbox.Prelude.{refl, sym, ap, Text, ◌∷◌, [], List, none, take, drop, replicate, ◌≡◌, arith}
use emberbox.Prelude.Int.{pos}
use emberbox.Errors.{ok, err, sentinel, eof}
use emberbox.Builtin.{Files}
use emberbox.Builtin.FileWrite.{Paths, write}
use emberbox.Builtin.RoundTrip.{Stores, write-edit-read}
use emberbox.Builtin.FileEdit.{FileEditInput, edit}
use emberbox.Builtin.FileEdit.Laws.{EditOutcome, edit-EditOutcome}
use emberbox.Builtin.FileRead.{pieces, shown, read, scan}
use emberbox.Builtin.FileRead.Laws.{all_numbered, scan_lem}

-- A file system with one file, the world.
abbrev one_file : Files Text
one_file = record {
  read_file = λ path w. ok w;
  write_file = λ path content w. (none, content);
  open_file = λ path w. ok (w, none);
}

abbrev swap : FileEditInput
swap = record { path = b'p' ∷ []; old_string = b'b' ∷ []; new_string = b'x' ∷ [] }

edit-EditOutcome_example :
    EditOutcome one_file swap
      (b'a' ∷ b'b' ∷ b'c' ∷ [])
      (edit one_file (λ s. err (sentinel eof)) swap (b'a' ∷ b'b' ∷ b'c' ∷ []))
edit-EditOutcome_example =
    edit-EditOutcome one_file (λ s. err (sentinel eof)) swap (b'a' ∷ b'b' ∷ b'c' ∷ [])

abbrev three_lines : List Text
three_lines = (b'a' ∷ []) ∷ [] ∷ (b'c' ∷ []) ∷ []

scan_lem_example :
    scan (pos 1) (pos 1) none none 0 0 three_lines
    ≡ ok (take 1 (drop 1 (all_numbered 0 three_lines)))
scan_lem_example = scan_lem 1 1 three_lines (omega arith, (omega arith, (omega arith, tt)))

abbrev long_line : Text
long_line = replicate 65536 b'z'

-- Every directory is there already.
abbrev flat : Paths Text
flat = record {
  dir = λ path. path;
  join_path = λ path name. name;
  mkdir_all = λ path w. (none, w);
  glob_files = λ pattern w. ok [];
}

abbrev stored : Stores one_file
stored = record {
  reads_back = λ path content w w' e. ap (λ r. ok r.1) (sym e);
  opens = λ path content w w' e. ap (λ r. ok (r.1, none)) (sym e);
}

write-edit-read_example :
    let written =
      (write one_file flat
        (record { path = b'p' ∷ []; content = b'a' ∷ b'\n' ∷ b'b' ∷ [] })
        []).1 in
    let edited = (edit one_file (λ s. err (sentinel eof)) swap written).1 in
    read one_file
      (λ s. err (sentinel eof))
      (record { path = b'p' ∷ []; offset = pos 0; limit = pos 3 })
      edited
    ≡ shown (ok (take 3 (drop 0 (all_numbered 0 (pieces (b'a' ∷ b'\n' ∷ b'x' ∷ []))))))
unfolding emberbox.Builtin.FileEdit.count_from emberbox.Prelude.has_prefix
    emberbox.Builtin.FileEdit.replace_first pieces
write-edit-read_example =
    write-edit-read one_file flat (λ s. err (sentinel eof)) (λ s. err (sentinel eof)) (b'p' ∷ [])
      (b'a' ∷ b'\n' ∷ b'b' ∷ []) (b'b' ∷ []) (b'x' ∷ []) 0 2 [] [] (b'a' ∷ b'\n' ∷ b'b' ∷ [])
      (b'a' ∷ b'\n' ∷ b'x' ∷ []) stored (λ e. ground arith) (λ e. ground arith) (λ e. ground arith)
      refl refl refl refl (omega arith, (omega arith, tt))
