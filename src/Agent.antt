-- ===== src/Agent.antt =====
-- agent/agent.go: the agent inside a microVM. A connection is the bytes that the peer sends and
-- what the agent writes back; the world `W` is what the tools may change, and holds the clock.
pub mod Wire
pub mod Laws
pub mod Serve
pub mod Vsock
pub mod Program
use emberbox.Prelude.{Text, true, Option, none, some, if◌then◌else◌}
use emberbox.Prelude.Int.{in_seconds, ℤ, pos, ◌-ℤ◌, ltb_ℤ, milliseconds}
use emberbox.Errors.{Result, ok, err, message}
use emberbox.Context.{Context, with_timeout}
use emberbox.Tool.{Tool, ToolResult, Tools, get}
use emberbox.Tool.Answer.{unknown_tool, tool_error}
use emberbox.Agent.Wire.{Request, Response, Json}

pub record Agent (W : Type 0) : Type 0 where
  pub tools : Tools W
  pub workdir : Text

-- The timeout of a request: a minute unless it asks for a positive number of seconds.
unfoldable pub timeout_of : Request → ℤ
timeout_of req =
    if ltb_ℤ (pos 0) req.timeout_seconds then in_seconds req.timeout_seconds else pos 60000000000

-- The response to what a tool returned, before its duration is filled in.
unfoldable pub respond : Result ToolResult → Response
respond (ok r) = record { output = r.content; is_error = r.is_error; duration_ms = pos 0 }
respond (err e) = record { output = tool_error (message e); is_error = true; duration_ms = pos 0 }

module _ {W : Type 0} where
  unfoldable pub new_agent : Tools W → Text → Agent W
  new_agent tools workdir = record { tools = tools; workdir = workdir }

  abbrev pub run_tool : Context → Request → W → Option (Tool W) → Response × W
  run_tool ctx req w none =
      (record { output = unknown_tool req.tool_name; is_error = true; duration_ms = pos 0 }, w)
  run_tool ctx req w (some t) = let (r, w') = t.execute ctx req.input w in (respond r, w')

  -- executeTool.
  unfoldable pub execute_tool : Agent W → Context → Request → W → Response × W
  execute_tool a ctx req w = run_tool ctx req w (get a.tools req.tool_name)

  module _ (j : Json) (now : W → ℤ) where
    -- The response with its duration.
    unfoldable pub timed : Agent W → Context → Request → W → Response × W
    timed a ctx req w =
        let (resp, w') = execute_tool a (with_timeout ctx (now w) (timeout_of req)) req w in
        (record resp { duration_ms = milliseconds (now w' -ℤ now w) }, w')

    abbrev pub written : Result Text → Option Text
    written (ok bytes) = some bytes
    written (err _) = none

    -- What becomes of a request once it is read, or is not.
    abbrev pub after_decode : Agent W → Context → Result Request → W → Option Text × W
    after_decode a ctx (err _) w = (none, w)
    after_decode a ctx (ok req) w =
        let (resp, w') = timed a ctx req w in (written (j.encode_response resp), w')

    -- HandleConnection: what it writes back, if anything, before it closes the connection.
    unfoldable pub handle_connection : Agent W → Context → Text → W → Option Text × W
    handle_connection a ctx received w = after_decode a ctx (j.decode_request received) w
