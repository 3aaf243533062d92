-- ===== src/Sandbox/Firecracker/EndToEnd.antt =====
-- A tool call on a microVM from end to end: Exec of sandbox/firecracker.go, the handshake and the
-- round trip of sandbox/agentclient.go, and the agent of agent/agent.go in the guest.
use mathlib.Core.Path.{subst}
use emberbox.Prelude.{◌≡◌, refl, ◌∙◌, Text, ℕ, true, none, trim_right}
use emberbox.Prelude.Int.{ℤ}
use emberbox.Context.{Context, with_timeout}
use emberbox.Errors.{ok}
use emberbox.Tool.Answer.{answer}
use emberbox.Agent.{Agent, timeout_of, handle_connection}
use emberbox.Agent.Wire.{RoundTrips}
use emberbox.Sandbox.{ExecResult}
use emberbox.Sandbox.Handles.{FirecrackerHandle, of_firecracker, assert_firecracker}
use emberbox.Sandbox.Host.Laws.{answer_of}
use emberbox.Sandbox.AgentClient.{
  agent_round_trip, Transport, request_for, connect_line, accepts, is_newline, dial_agent_vsock_uds,
  limit,
}
use emberbox.Sandbox.AgentClient.EndToEnd.{Reaches, agent_round_trip-answer, guest-limit}
use emberbox.Sandbox.Firecracker.{FirecrackerConfig}
use emberbox.Sandbox.Firecracker.Machine.{Vms}
use emberbox.Sandbox.Firecracker.Boot.{Host, exec, time_left}

-- What Firecracker's multiplexer does at a socket when an agent listens on the port: it takes
-- every connection and everything that is sent, and its first line accepts. The guest sees none of
-- it.
pub record Accepts {W G : Type 0} (t : Transport W) (guest : W → G) (uds : Text) (port : ℕ)
    : Type 0 where
  pub conn : t.Conn
  pub dials :
      (ctx : Context) (w : W)
      → ((t.dial ctx none uds w).0 ≡ ok conn) × (guest (t.dial ctx none uds w).1 ≡ guest w)
  pub sends : (bytes : Text) (w : W) → (t.send conn bytes w).0 ≡ none
  pub connects : (w : W) → guest (t.send conn (connect_line port) w).1 ≡ guest w
  pub line : Text
  pub line_accepts : accepts (trim_right is_newline line) ≡ true
  pub replies :
      (w : W) → ((t.read_line conn w).0 ≡ ok line) × (guest (t.read_line conn w).1 ≡ guest w)

module _ {W G : Type 0} (host : Host W) (cfg : FirecrackerConfig) (laws : RoundTrips host.json)
    (now : G → ℤ) (a : Agent G) (actx : Context) (guest : W → G)
    (link : Reaches host.transport (handle_connection host.json now a actx) guest)
    (h : FirecrackerHandle) (socket : Accepts host.transport guest h.uds_path cfg.agent_port) where
  -- The world after the handshake.
  abbrev greeted : Context → W → W
  greeted ctx w =
      let w1 = limit host.transport ctx socket.conn (host.transport.dial ctx none h.uds_path w).1 in
      let w2 = (host.transport.send socket.conn (connect_line cfg.agent_port) w1).1 in
      (host.transport.read_line socket.conn w2).1

  guest-greeted : (ctx : Context) (w : W) → guest (greeted ctx w) ≡ guest w
  guest-greeted ctx w =
      (socket.replies _).1
      ∙ socket.connects _
      ∙ guest-limit host.transport host.json laws now a actx guest link ctx socket.conn _
      ∙ (socket.dials ctx w).1

  dial-greeted :
      (ctx : Context) (tool input : Text) (timeout : ℤ) (w : W)
      → dial_agent_vsock_uds host.transport host.json host.quote ctx h.uds_path cfg.agent_port tool
          input timeout w
        ≡ agent_round_trip host.transport host.json ctx socket.conn tool input timeout
            (greeted ctx w)
  unfolding dial_agent_vsock_uds
  dial-greeted ctx tool input timeout w =
      rw
        (
          (socket.dials ctx w).0,
          socket.sends (connect_line cfg.agent_port)
              (limit host.transport ctx socket.conn (host.transport.dial ctx none h.uds_path w).1),
          (socket.replies _).0,
          socket.line_accepts,
        )
        refl

  -- What the round trip after the handshake returns, for a guest in the state `g`.
  abbrev AnswersIn : Context → Text → Text → ℤ → W → G → Type 0
  AnswersIn ctx tool input timeout w g =
      let budget = timeout_of (request_for tool input timeout) in
      let said = answer a.tools (with_timeout actx (now g) budget) tool input g in
      let out =
        agent_round_trip host.transport host.json ctx socket.conn tool input timeout
          (greeted ctx w) in
      laws.IsUtf8 said.0.content
      → (r : ExecResult) × (out.0 ≡ ok r) × (answer_of r ≡ said.0) × (guest out.1 ≡ said.1)

  round_trip-AnswersIn :
      (ctx : Context) (tool input : Text) (timeout : ℤ) (w : W)
      → laws.IsUtf8 tool
      → laws.IsCompact input
      → AnswersIn ctx tool input timeout w (guest w)
  round_trip-AnswersIn ctx tool input timeout w named compact =
      subst (AnswersIn ctx tool input timeout w) (guest-greeted ctx w) (λ utf8.
        agent_round_trip-answer host.transport host.json laws now a actx guest link ctx socket.conn
          tool input timeout (greeted ctx w) (λ bytes. socket.sends bytes _) named compact utf8)

  -- A tool call on a microVM of the Firecracker backend returns the answer that the tool gives in
  -- the guest, with the timeout made of the time that the context of the caller has left, and
  -- leaves the guest as the tool does: if the agent listens on the port, the input is compact JSON,
  -- and the name and the output are UTF-8.
  pub exec-answer_in_guest :
      (ctx : Context) (tool input : Text) (v : Vms W)
      → laws.IsUtf8 tool
      → laws.IsCompact input
      → let g = guest v.host in
        let budget = timeout_of (request_for tool input (time_left host cfg ctx.deadline v.host)) in
        let said = answer a.tools (with_timeout actx (now g) budget) tool input g in
        laws.IsUtf8 said.0.content
        → let out = exec host cfg ctx (of_firecracker h) tool input v in
          (r : ExecResult) × (out.0 ≡ ok r) × (answer_of r ≡ said.0) × (guest out.1.host ≡ said.1)
  unfolding exec assert_firecracker
  exec-answer_in_guest ctx tool input v named compact utf8 =
      let left = time_left host cfg ctx.deadline v.host in
      rw (dial-greeted ctx tool input left v.host)
        (round_trip-AnswersIn ctx tool input left v.host named compact utf8)
