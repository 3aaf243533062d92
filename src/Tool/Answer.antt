-- ===== src/Tool/Answer.antt =====
-- What a sandbox promises of one tool call, whichever backend makes it: the specification that
-- sandbox/host.go and agent/agent.go are both held to.
use emberbox.Prelude.{Bool, true, Text, text, ◌++◌, Option, none, some}
use emberbox.Errors.{Result, ok, err, message}
use emberbox.Context.{Context}
use emberbox.Tool.{Tool, ToolResult, Tools, get}

pub record Answer : Type 0 where
  pub content : Text
  pub is_error : Bool

-- The wording of the two failures, shut in proofs.
unfoldable pub unknown_tool : Text → Text
unknown_tool name = text "unknown tool: " ++ name

unfoldable pub tool_error : Text → Text
tool_error reason = text "tool error: " ++ reason

abbrev pub of_result : Result ToolResult → Answer
of_result (ok r) = record { content = r.content; is_error = r.is_error }
of_result (err e) = record { content = tool_error (message e); is_error = true }

module _ {W : Type 0} where
  abbrev pub answer_with : Context → Text → Text → W → Option (Tool W) → Answer × W
  answer_with ctx name input w none = (record { content = unknown_tool name; is_error = true }, w)
  answer_with ctx name input w (some t) = let (r, w') = t.execute ctx input w in (of_result r, w')

  -- The tool registered under the name answers; an unknown name and a failing tool give an answer
  -- that is marked as an error.
  abbrev pub answer : Tools W → Context → Text → Text → W → Answer × W
  answer r ctx name input w = answer_with ctx name input w (get r name)
