-- ===== src/Builtin.antt =====
-- tools/parse.go, and what the built-in tools of tools/ use of encoding/json and of the file system.
pub mod FileEdit
pub mod FileRead
pub mod FileWrite
pub mod Commands
pub mod WebFetch
pub mod Defaults
pub mod RoundTrip
use emberbox.Prelude.{Text, text, ◌++◌, true, false, Option, none, some, is_empty, if◌then◌else◌}
use emberbox.Errors.{Result, ok, err, Error, wrap}
use emberbox.Tool.{ToolResult}

-- os: ReadFile, WriteFile, and Open with the reads that follow, which deliver bytes and then the
-- end of the file or an error.
pub record Files (W : Type 0) : Type 0 where
  pub read_file : Text → W → Result Text
  pub write_file : Text → Text → W → Option Error × W
  pub open_file : Text → W → Result (Text × Option Error)

-- parseInput, where `r` is the result of Unmarshal.
unfoldable pub parse_input {ℓ} : {A : Type ℓ} → Result A → Result A
parse_input (ok a) = ok a
parse_input (err e) = err (wrap (text "invalid input: ") e)

-- errResult, once the message is formatted.
abbrev pub err_result : Text → ToolResult
err_result m = record { content = m; is_error = true }

abbrev pub good_result : Text → ToolResult
good_result m = record { content = m; is_error = false }

unfoldable pub require_field : Text → Text → Option ToolResult
require_field name value =
    if is_empty value then some (err_result (name ++ text " is required")) else none
