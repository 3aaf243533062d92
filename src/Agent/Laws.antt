-- ===== src/Agent/Laws.antt =====
-- What the agent of agent/agent.go promises: its answers, and the time it gives a tool.
use emberbox.Prelude.{inr, inl, ◌⊎◌, ◌≡◌, refl, ℕ, ◌*◌, ◌<◌, ◌≤◌, Text, Option, none, some, arith}
use emberbox.Prelude.Int.{wrap64, wrap64_fits, ℤ, pos, neg_part}
use emberbox.Context.{Context, with_timeout}
use emberbox.Errors.{Result-cases, Error, Result, ok, err}
use emberbox.Tool.{Tool, get, ToolResult}
use emberbox.Tool.Answer.{Answer, answer, of_result, answer_with}
use emberbox.Agent.Wire.{Request, Response, Json}
use emberbox.Agent.{
  written, timed, Agent, timeout_of, execute_tool, run_tool, respond, handle_connection,
}

-- The answer in a response, without the time.
abbrev pub response_answer : Response → Answer
response_answer r = record { content = r.output; is_error = r.is_error }

respond-answer : (r : Result ToolResult) → response_answer (respond r) ≡ of_result r
unfolding respond
respond-answer (ok r) = refl
respond-answer (err e) = refl

module _ {W : Type 0} where
  run_tool-answer :
      (ctx : Context) (req : Request) (w : W) (t : Option (Tool W))
      → (response_answer (run_tool ctx req w t).0 ≡ (answer_with ctx req.tool_name req.input w t).0)
        × ((run_tool ctx req w t).1 ≡ (answer_with ctx req.tool_name req.input w t).1)
  run_tool-answer ctx req w none = (refl, refl)
  run_tool-answer ctx req w (some t) = (respond-answer (t.execute ctx req.input w).0, refl)

  -- executeTool returns the answer of the tool that the request names, in the given context, and
  -- leaves the world as the tool does.
  pub execute_tool-answer :
      (a : Agent W) (ctx : Context) (req : Request) (w : W)
      → (response_answer (execute_tool a ctx req w).0
          ≡ (answer a.tools ctx req.tool_name req.input w).0)
        × ((execute_tool a ctx req w).1 ≡ (answer a.tools ctx req.tool_name req.input w).1)
  unfolding execute_tool
  execute_tool-answer a ctx req w = run_tool-answer ctx req w (get a.tools req.tool_name)

  module _ (j : Json) (now : W → ℤ) where
    pub handle_connection-decoded :
        (a : Agent W) (ctx : Context) (received : Text) (w : W) (req : Request)
        → j.decode_request received ≡ ok req
        → let said =
            answer a.tools (with_timeout ctx (now w) (timeout_of req)) req.tool_name req.input w in
          (resp : Response) × (response_answer resp ≡ said.0)
          × (handle_connection j now a ctx received w
              ≡ (written j now (j.encode_response resp), said.1))
    unfolding handle_connection timed
    handle_connection-decoded a ctx received w req e =
        let same = execute_tool-answer a (with_timeout ctx (now w) (timeout_of req)) req w in
        ((timed j now a ctx req w).0, same.0, rw (e, same.1) refl)

    -- A connection that brings no request gets no reply and runs no tool; one that brings a
    -- request gets the encoding of a response with the answer of the tool, which was given the
    -- timeout of the request.
    pub handle_connection_lem :
        (a : Agent W) (ctx : Context) (received : Text) (w : W)
        → ((e : Error) × (j.decode_request received ≡ err e)
            × (handle_connection j now a ctx received w ≡ (none, w)))
          ⊎ ((req : Request) × (resp : Response) × (j.decode_request received ≡ ok req)
              × let a' =
                  answer a.tools
                    (with_timeout ctx (now w) (timeout_of req))
                    req.tool_name
                    req.input
                    w in
                (response_answer resp ≡ a'.0)
                × (handle_connection j now a ctx received w
                    ≡ (written j now (j.encode_response resp), a'.1)))
    unfolding handle_connection
    handle_connection_lem a ctx received w = elim (Result-cases (j.decode_request received)) [
      | inl (req, e) ↦
          let (resp, same, out) = handle_connection-decoded a ctx received w req e in
          inr (req, resp, e, (same, out))
      | inr (x, e) ↦ inl (x, e, rw e refl)
    ]

-- A request for `s` seconds, up to the largest number that a duration holds, gets `s` seconds.
pub timeout_of-fits :
    (req : Request) (s : ℕ)
    → req.timeout_seconds ≡ pos s
    → 0 < s
    → s ≤ 9223372036
    → timeout_of req ≡ pos (s * 1000000000)
unfolding timeout_of
timeout_of-fits req s e positive fits = rw e (ground (arith, wrap64_fits (s * 1000000000)))

-- The multiplication by a second wraps around: a request for more seconds than a duration holds,
-- and at most twice as many, gets a negative timeout, one that has passed before the tool starts.
pub timeout_of-overflows :
    (req : Request) (s : ℕ)
    → req.timeout_seconds ≡ pos s
    → 9223372036 < s
    → s ≤ 18446744073
    → 0 < neg_part (timeout_of req)
unfolding timeout_of wrap64
timeout_of-overflows req s e above fits = rw e (ground arith)
