-- ===== src/Examples/Greet.antt =====
-- The greet tool of examples/customtool/main.go, which examples/firecrackerbackend/agent/main.go
-- repeats.
use emberbox.Prelude.{Text, text, ◌++◌, is_empty, false, if◌then◌else◌}
use emberbox.Errors.{Result, ok, err, wrap}
use emberbox.Tool.{Tool, ToolResult}

-- The input, as Unmarshal leaves it; a missing name is empty.
pub record GreetInput : Type 0 where
  pub name : Text

unfoldable pub name_or_world : GreetInput → Text
name_or_world args = if is_empty args.name then text "world" else args.name

module _ {W : Type 0} where
  abbrev pub greet : Result GreetInput → W → Result ToolResult × W
  greet (err e) w = (err (wrap (text "invalid input: ") e), w)
  greet (ok args) w =
      (ok (record { content = text "hello, " ++ name_or_world args; is_error = false }), w)

  -- `unmarshal` is json.Unmarshal at the type of the input.
  unfoldable pub greet_tool : (Text → Result GreetInput) → Tool W
  greet_tool unmarshal = record {
    name = text "greet";
    execute = λ ctx input w. greet (unmarshal input) w;
  }
