-- ===== src/Tests/HostTests.antt =====
-- The registry, the host backend, the agent and its client at concrete inputs.
use emberbox.Prelude.Tally.{tally}
use emberbox.Agent.Serve.Drain.{serve_drains}
use emberbox.Agent.Serve.{
  ServeEvent, accepts, runs, cancels, accept_fails, waited, serve, take_event, listening, pick,
}
use emberbox.Sandbox.Pool.Methods.{allocate}
use emberbox.Sandbox.Pool.Sections.{find_active, Allocation, add_warm, default_request, Pool}
use emberbox.Prelude.{
  true, List, ltb, Text, ℕ, suc, ◌+◌, ◌<◌, ◌≤◌, ◌++◌, ◌∷◌, [], Option, none, some, replicate, ◌≡◌,
  refl, ◌⊎◌, if◌then◌else◌, arith,
}
use emberbox.Prelude.Int.{pos, neg_part}
use emberbox.Errors.{ok, err, Error, sentinel, eof, deadline_exceeded}
use emberbox.Context.{background, with_timeout}
use emberbox.Tool.{Tool}
use emberbox.Tool.Answer.{answer}
use emberbox.Agent.{written, execute_tool, timeout_of, handle_connection}
use emberbox.Agent.Laws.{
  response_answer, execute_tool-answer, handle_connection_lem, timeout_of-fits,
  timeout_of-overflows,
}
use emberbox.Agent.Wire.{Request, Response}
use emberbox.Sandbox.{AllocRequest, ExecResult}
use emberbox.Sandbox.Handles.{HostHandle, of_host}
use emberbox.Sandbox.Host.{tool_context, exec, boot, host_backend}
use emberbox.Sandbox.Host.Laws.{answer_of, exec-answer, warm-env}
use emberbox.Sandbox.Polling.{poll, poll_lem, AllFail, probed, tick, done}
use emberbox.Sandbox.AgentClient.{dial_agent_vsock_uds, request_for}
use emberbox.Sandbox.AgentClient.Laws.{EndsClosed, dial_agent_vsock_uds-EndsClosed, request_for_lem}
use emberbox.Tests.Counting.{plain_request, two_warm}
use emberbox.Tests.Toys.{
  toy_tools, toy_world, toy_host, toy_agent, toy_clock, toy_json, Link, toy_transport,
}

abbrev e_name : Text
e_name = b'e' ∷ []

-- A tool under the same name that fails.
abbrev broken : Tool ℕ
broken = record { name = e_name; execute = λ ctx input w. (err (sentinel eof), w) }

abbrev with_vars : HostHandle
with_vars = record { id = b'h' ∷ []; env = (b'K' ∷ [], b'v' ∷ []) ∷ [] }

exec-answer_example :
    (r : ExecResult) × ((exec toy_world toy_host background (of_host with_vars) e_name (7 ∷ []) 3).0
      ≡ ok r)
    × (answer_of r
        ≡ (answer toy_tools
            (tool_context toy_world toy_host background with_vars)
            e_name
            (7 ∷ [])
            3).0)
    × ((exec toy_world toy_host background (of_host with_vars) e_name (7 ∷ []) 3).1
        ≡ (answer toy_tools
            (tool_context toy_world toy_host background with_vars)
            e_name
            (7 ∷ [])
            3).1)
exec-answer_example = exec-answer toy_world toy_host background with_vars e_name (7 ∷ []) 3

abbrev vars_request : AllocRequest
vars_request = record plain_request { env = with_vars.env }

abbrev toy_pool : Pool (host_backend toy_world toy_host)
toy_pool = record { cfg = two_warm; warm = []; active = [] }

warm-env_example :
    (h : HostHandle) × ((boot toy_world toy_host background (default_request two_warm) 0).0
      ≡ ok (of_host h))
    × let out =
        allocate
          (host_backend toy_world toy_host)
          (add_warm (host_backend toy_world toy_host) toy_pool (of_host h))
          background
          vars_request
          1 in
      (a : Allocation (host_backend toy_world toy_host)) × (out.result ≡ ok h.id)
      × (find_active (host_backend toy_world toy_host) out.pool h.id ≡ some a)
      × (a.handle ≡ of_host h)
      × (a.req.env ≡ with_vars.env)
      × (tool_context toy_world toy_host background h ≡ background)
warm-env_example = warm-env toy_world toy_host toy_pool background background vars_request 0 1

abbrev asks : ℕ → Request
asks s = record { tool_name = e_name; input = 7 ∷ []; timeout_seconds = pos s }

answer_of_a_tool :
    (response_answer (execute_tool toy_agent background (asks 5) 3).0
      ≡ (answer toy_tools background e_name (7 ∷ []) 3).0)
    × ((execute_tool toy_agent background (asks 5) 3).1
        ≡ (answer toy_tools background e_name (7 ∷ []) 3).1)
answer_of_a_tool = execute_tool-answer toy_agent background (asks 5) 3

-- The bytes of `asks 5`.
abbrev asked : Text
asked = 1 ∷ 5 ∷ 0 ∷ b'e' ∷ 7 ∷ []

handle_connection_example :
    ((e : Error) × (toy_json.decode_request asked ≡ err e)
      × (handle_connection toy_json toy_clock toy_agent background asked 3 ≡ (none, 3)))
    ⊎ ((req : Request) × (resp : Response) × (toy_json.decode_request asked ≡ ok req)
        × let said =
            answer toy_tools
              (with_timeout background (toy_clock 3) (timeout_of req))
              req.tool_name
              req.input
              3 in
          (response_answer resp ≡ said.0)
          × (handle_connection toy_json toy_clock toy_agent background asked 3
              ≡ (written toy_json toy_clock (toy_json.encode_response resp), said.1)))
handle_connection_example = handle_connection_lem toy_json toy_clock toy_agent background asked 3

short_request_fits : timeout_of (asks 90) ≡ pos 90000000000
short_request_fits = timeout_of-fits (asks 90) 90 refl (omega arith) (omega arith)

long_request_wraps : 0 < neg_part (timeout_of (asks 9300000000))
long_request_wraps =
    timeout_of-overflows (asks 9300000000) 9300000000 refl (omega arith) (omega arith)

-- A probe of a service that comes up at 5.
abbrev up_at_5 : ℕ → Option Error × ℕ
up_at_5 w = (if ltb w 5 then some (sentinel eof) else none, suc w)

poll_lem_example :
    let expired = λ (e : Error). e in
    let ended =
      poll up_at_5 expired (replicate 4 tick ++ done (sentinel deadline_exceeded) ∷ []) 3 in
    ((i : ℕ) × (i ≤ 4)
      × AllFail up_at_5 expired i 3
      × ((up_at_5 (probed up_at_5 expired i 3)).0 ≡ none)
      × (ended ≡ some (none, probed up_at_5 expired (suc i) 3)))
    ⊎ (AllFail up_at_5 expired 5 3
        × (ended ≡ some (some (sentinel deadline_exceeded), probed up_at_5 expired 5 3)))
poll_lem_example = poll_lem up_at_5 (λ e. e) 4 (sentinel deadline_exceeded) [] 3

abbrev idle : Link
idle = record { sent = []; guest = 3 }

closes_example : EndsClosed toy_transport tt (
    dial_agent_vsock_uds toy_transport toy_json
      (λ s. s)
      background
      []
      10000
      e_name
      (7 ∷ [])
      (pos 0)
      idle)
closes_example =
    dial_agent_vsock_uds-EndsClosed toy_transport toy_json (λ s. s) background [] 10000 e_name
      (7 ∷ []) (pos 0) idle tt refl

request_for_lem_example :
    ((1000000000 ≤ 300000000)
      × (left : ℕ) × (timeout_of (request_for e_name [] (pos 300000000)) ≡ pos left)
      × (left ≤ 300000000)
      × (300000000 < left + 1000000000))
    ⊎ ((300000000 < 1000000000)
        × (timeout_of (request_for e_name [] (pos 300000000)) ≡ pos 60000000000))
request_for_lem_example = request_for_lem e_name [] 300000000 (omega arith)

-- Two connections, handled before and after the end of the context.
abbrev two_conns : List ServeEvent
two_conns =
    accepts asked
    ∷ accepts []
    ∷ runs 1
    ∷ cancels
    ∷ accept_fails (sentinel eof)
    ∷ waited
    ∷ runs 0
    ∷ waited
    ∷ []

serve_drains_example :
    let s =
      serve toy_json toy_clock toy_agent background
        (listening toy_json toy_clock toy_agent background 3)
        two_conns in
    (s.cancelled ≡ true)
    × (s.open_conns ≡ [])
    × ((t : Text) → tally t s.accepted ≡ tally t s.handled)
unfolding serve take_event listening pick
serve_drains_example = serve_drains toy_json toy_clock toy_agent background 3 two_conns refl
