-- ===== src/Builtin/FileEdit.antt =====
-- tools/fileedit.go: the exact replacement of a string that occurs once.
pub mod Laws
use emberbox.Prelude.{
  Text, text, ℕ, zero, suc, ◌-◌, ◌++◌, ◌∷◌, [], ◌||◌, Option, none, some, is_empty, text_eq,
  has_prefix, drop, length, itoa, if◌then◌else◌,
}
use emberbox.Errors.{Result, ok, err, Error, message}
use emberbox.Tool.{Tool, ToolResult}
use emberbox.Builtin.{Files, parse_input, err_result, good_result}

pub record FileEditInput : Type 0 where
  pub path : Text
  pub old_string : Text
  pub new_string : Text

-- The occurrences of a string that is not empty after the next `skip` bytes, each begun after the
-- end of the one before.
unfoldable pub count_from : ℕ → Text → Text → ℕ
count_from skip [] sub = 0
count_from (suc skip) (a ∷ s) sub = count_from skip s sub
count_from zero (a ∷ s) sub =
    let found = has_prefix (a ∷ s) sub in
    let rest = count_from (if found then length sub - 1 else 0) s sub in
    if found then suc rest else rest

-- strings.Count(s, sub) of a string that is not empty.
abbrev pub count : Text → Text → ℕ
count s sub = count_from 0 s sub

-- strings.Replace(s, old, new, 1) of a string that is not empty.
unfoldable pub replace_first : Text → Text → Text → Text
replace_first [] old new = []
replace_first (a ∷ s) old new =
    let rest = replace_first s old new in
    if has_prefix (a ∷ s) old then new ++ drop (length old) (a ∷ s) else a ∷ rest

-- The message holds an em dash, in UTF-8.
unfoldable pub ambiguous : ℕ → Text
ambiguous n =
    text "old_string matches "
    ++ (itoa n
        ++ (text " locations "
            ++ (226 ∷ 128 ∷ 148 ∷ text " provide more context to make it unique")))

module _ {W : Type 0} (files : Files W) (unmarshal : Text → Result FileEditInput) where
  abbrev pub edited : FileEditInput → Option Error × W → ToolResult × W
  edited inp (some e, w) = (err_result (text "write error: " ++ message e), w)
  edited inp (none, w) = (good_result (text "edited " ++ (inp.path ++ text " (1 replacement)")), w)

  -- What becomes of the content, by the number of times that it holds the old string.
  abbrev pub after_count : FileEditInput → Text → ℕ → W → ToolResult × W
  after_count inp content zero w = (err_result (text "old_string not found in file"), w)
  after_count inp content (suc zero) w =
      edited inp (files.write_file inp.path (replace_first content inp.old_string inp.new_string) w)
  after_count inp content (suc (suc n)) w = (err_result (ambiguous (suc (suc n))), w)

  abbrev pub after_read : FileEditInput → Result Text → W → ToolResult × W
  after_read inp (err e) w = (err_result (text "cannot read file: " ++ message e), w)
  after_read inp (ok content) w = after_count inp content (count content inp.old_string) w

  unfoldable pub edit : FileEditInput → W → ToolResult × W
  edit inp w =
      let out = after_read inp (files.read_file inp.path w) w in
      if is_empty inp.path || is_empty inp.old_string
      then (err_result (text "path and old_string are required"), w)
      else (if text_eq inp.old_string inp.new_string
          then (err_result (text "old_string and new_string must differ"), w)
          else out)

  abbrev pub on_input : Result FileEditInput → W → Result ToolResult × W
  on_input (err e) w = (err e, w)
  on_input (ok inp) w = let (r, w') = edit inp w in (ok r, w')

  unfoldable pub file_edit_tool : Tool W
  file_edit_tool = record {
    name = text "file_edit";
    execute = λ ctx input w. on_input (parse_input (unmarshal input)) w;
  }
