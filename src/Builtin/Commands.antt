-- ===== src/Builtin/Commands.antt =====
-- tools/bash.go and tools/grep.go: the tools that run a command.
pub mod CommandLine
use emberbox.Prelude.{
  Option, none, some, itoa_ℤ, Text, text, ◌++◌, ◌∷◌, [], ◌&&◌, List, Bool, is_empty, if◌then◌else◌,
}
use emberbox.Prelude.Int.{ℤ, pos, ltb_ℤ, eqb_ℤ, in_seconds}
use emberbox.Errors.{Result, ok, err}
use emberbox.Context.{Context, with_timeout}
use emberbox.Tool.{Tool, ToolResult}
use emberbox.Builtin.{parse_input, require_field, err_result, good_result}

-- os/exec: what a command left when Run returned. `has_state` says that cmd.ProcessState is set;
-- `exit_code` is that of the state, or -1.
pub record Ran : Type 0 where
  pub stdout : Text
  pub stderr : Text
  pub failed : Bool
  pub has_state : Bool
  pub exit_code : ℤ

pub record Commands (W : Type 0) : Type 0 where
  pub now : W → ℤ
  pub run : Context → Text → List Text → W → Ran × W

pub record BashInput : Type 0 where
  pub command : Text
  pub timeout : ℤ

pub record GrepInput : Type 0 where
  pub pattern : Text
  pub path : Text
  pub glob : Text
  pub type_filter : Text

unfoldable pub bash_timeout : BashInput → ℤ
bash_timeout inp = if ltb_ℤ (pos 0) inp.timeout then in_seconds inp.timeout else pos 120000000000

abbrev pub bash_result : Ran → ToolResult
bash_result r =
    let output = r.stdout ++ (if is_empty r.stderr then [] else b'\n' ∷ r.stderr) in
    if r.failed
    then err_result (text "exit code " ++ (itoa_ℤ r.exit_code ++ (b'\n' ∷ output)))
    else good_result output

abbrev pub search_path : GrepInput → Text
search_path inp = if is_empty inp.path then text "." else inp.path

-- The arguments of rg.
unfoldable pub grep_args : GrepInput → List Text
grep_args inp =
    (text "--color=never" ∷ text "-n" ∷ text "--max-count=100" ∷ [])
    ++ ((if is_empty inp.glob then [] else text "--glob" ∷ inp.glob ∷ [])
        ++ ((if is_empty inp.type_filter then [] else text "--type" ∷ inp.type_filter ∷ [])
            ++ (inp.pattern ∷ search_path inp ∷ [])))

abbrev grep_result : Ran → ToolResult
grep_result r =
    if r.failed
    then (if r.has_state && eqb_ℤ r.exit_code (pos 1)
        then good_result (text "no matches found")
        else err_result (text "grep error: " ++ r.stderr))
    else good_result r.stdout

module _ {W : Type 0} (cmds : Commands W) where
  -- The context that the command of the bash tool runs under.
  unfoldable pub bash_context : Context → BashInput → W → Context
  bash_context ctx inp w = with_timeout ctx (cmds.now w) (bash_timeout inp)

  abbrev bash_checked : Context → BashInput → Option ToolResult → W → ToolResult × W
  bash_checked ctx inp (some refused) w = (refused, w)
  bash_checked ctx inp none w =
      let (r, w') =
        cmds.run (bash_context ctx inp w) (text "bash") (text "-c" ∷ inp.command ∷ []) w in
      (bash_result r, w')

  unfoldable pub bash : Context → BashInput → W → ToolResult × W
  bash ctx inp w = bash_checked ctx inp (require_field (text "command") inp.command) w

  abbrev grep_checked : Context → GrepInput → Option ToolResult → W → ToolResult × W
  grep_checked ctx inp (some refused) w = (refused, w)
  grep_checked ctx inp none w =
      let (r, w') = cmds.run ctx (text "rg") (grep_args inp) w in (grep_result r, w')

  unfoldable pub grep : Context → GrepInput → W → ToolResult × W
  grep ctx inp w = grep_checked ctx inp (require_field (text "pattern") inp.pattern) w

  abbrev on_bash : Context → Result BashInput → W → Result ToolResult × W
  on_bash ctx (err e) w = (err e, w)
  on_bash ctx (ok inp) w = let (r, w') = bash ctx inp w in (ok r, w')

  abbrev on_grep : Context → Result GrepInput → W → Result ToolResult × W
  on_grep ctx (err e) w = (err e, w)
  on_grep ctx (ok inp) w = let (r, w') = grep ctx inp w in (ok r, w')

  unfoldable pub bash_tool : (Text → Result BashInput) → Tool W
  bash_tool unmarshal = record {
    name = text "bash";
    execute = λ ctx input w. on_bash ctx (parse_input (unmarshal input)) w;
  }

  unfoldable pub grep_tool : (Text → Result GrepInput) → Tool W
  grep_tool unmarshal = record {
    name = text "grep";
    execute = λ ctx input w. on_grep ctx (parse_input (unmarshal input)) w;
  }
