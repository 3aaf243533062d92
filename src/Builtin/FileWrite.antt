-- ===== src/Builtin/FileWrite.antt =====
-- tools/filewrite.go and tools/glob.go.
use emberbox.Prelude.{
  Text, text, ◌++◌, ◌∷◌, [], List, Option, none, some, is_empty, join, length, itoa, if◌then◌else◌,
}
use emberbox.Errors.{Result, ok, err, Error, message}
use emberbox.Tool.{Tool, ToolResult}
use emberbox.Builtin.{Files, parse_input, require_field, err_result, good_result}

-- path/filepath, and the directories of os.
pub record Paths (W : Type 0) : Type 0 where
  pub dir : Text → Text
  pub join_path : Text → Text → Text
  pub mkdir_all : Text → W → Option Error × W
  pub glob_files : Text → W → Result (List Text)

pub record FileWriteInput : Type 0 where
  pub path : Text
  pub content : Text

pub record GlobInput : Type 0 where
  pub pattern : Text
  pub path : Text

abbrev glob_result : Result (List Text) → ToolResult
glob_result (err e) = err_result (text "glob error: " ++ message e)
glob_result (ok matches) =
    if is_empty matches
    then good_result (text "no matches found")
    else good_result (join matches (b'\n' ∷ []))

module _ {W : Type 0} (files : Files W) (paths : Paths W) where
  abbrev written : FileWriteInput → Option Error × W → ToolResult × W
  written inp (some e, w) = (err_result (text "write error: " ++ message e), w)
  written inp (none, w) = (
    good_result (text "wrote " ++ (itoa (length inp.content) ++ (text " bytes to " ++ inp.path))),
    w,
  )

  abbrev after_mkdir : FileWriteInput → Option Error × W → ToolResult × W
  after_mkdir inp (some e, w) = (err_result (text "cannot create directory: " ++ message e), w)
  after_mkdir inp (none, w) = written inp (files.write_file inp.path inp.content w)

  abbrev write_checked : FileWriteInput → Option ToolResult → W → ToolResult × W
  write_checked inp (some refused) w = (refused, w)
  write_checked inp none w = after_mkdir inp (paths.mkdir_all (paths.dir inp.path) w)

  unfoldable pub write : FileWriteInput → W → ToolResult × W
  write inp w = write_checked inp (require_field (text "path") inp.path) w

  abbrev on_write : Result FileWriteInput → W → Result ToolResult × W
  on_write (err e) w = (err e, w)
  on_write (ok inp) w = let (r, w') = write inp w in (ok r, w')

  unfoldable pub file_write_tool : (Text → Result FileWriteInput) → Tool W
  file_write_tool unmarshal = record {
    name = text "file_write";
    execute = λ ctx input w. on_write (parse_input (unmarshal input)) w;
  }

  abbrev glob_checked : GlobInput → Option ToolResult → W → ToolResult
  glob_checked inp (some refused) w = refused
  glob_checked inp none w =
      let base = if is_empty inp.path then text "." else inp.path in
      glob_result (paths.glob_files (paths.join_path base inp.pattern) w)

  unfoldable pub glob : GlobInput → W → ToolResult
  glob inp w = glob_checked inp (require_field (text "pattern") inp.pattern) w

  abbrev on_glob : Result GlobInput → W → Result ToolResult × W
  on_glob (err e) w = (err e, w)
  on_glob (ok inp) w = (ok (glob inp w), w)

  unfoldable pub glob_tool : (Text → Result GlobInput) → Tool W
  glob_tool unmarshal = record {
    name = text "glob";
    execute = λ ctx input w. on_glob (parse_input (unmarshal input)) w;
  }
