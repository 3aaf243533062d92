-- ===== src/Sandbox/AgentClient/EndToEnd.antt =====
-- The protocol from end to end: sandbox/agentclient.go on the host, agent/agent.go in the guest.
use mathlib.Core.Path.{◌∙◌, sym, subst}
use emberbox.Agent.Laws.{handle_connection-decoded}
use emberbox.Sandbox.Host.Laws.{answer_of}
use emberbox.Prelude.{sym, ap, inr, inl, ◌≡◌, refl, Text, Option, none, some, Option-cases}
use emberbox.Prelude.Int.{ℤ}
use emberbox.Context.{Context, with_timeout}
use emberbox.Errors.{ok}
use emberbox.Tool.Answer.{Answer, answer}
use emberbox.Sandbox.{ExecResult}
use emberbox.Sandbox.AgentClient.{result_of, limit, Transport, agent_round_trip, request_for}
use emberbox.Agent.{Agent, timeout_of, handle_connection}
use emberbox.Agent.Wire.{Json, RoundTrips}

-- What the client relies on of the socket when the peer is an agent: the reply to what was sent is
-- what the agent writes back, and only the agent changes the guest. `guest` is the part of the
-- world that the guest sees.
pub record Reaches {W G : Type 0} (t : Transport W) (peer : Text → G → Option Text × G)
    (guest : W → G) : Type 0 where
  pub limit_keeps : (c : t.Conn) (d : ℤ) (w : W) → guest (t.set_deadline c d w) ≡ guest w
  pub close_keeps : (c : t.Conn) (w : W) → guest (t.close c w) ≡ guest w
  pub send_receive :
      (c : t.Conn) (bytes reply : Text) (w : W)
      → (t.send c bytes w).0 ≡ none
      → (peer bytes (guest w)).0 ≡ some reply
      → ((t.receive c (t.send c bytes w).1).0 ≡ ok reply)
        × (guest (t.receive c (t.send c bytes w).1).1 ≡ (peer bytes (guest w)).1)

module _ {W G : Type 0} (t : Transport W) (j : Json) (laws : RoundTrips j) (now : G → ℤ)
    (a : Agent G) (actx : Context) (guest : W → G)
    (link : Reaches t (handle_connection j now a actx) guest) where
  pub guest-limit : (ctx : Context) (c : t.Conn) (w : W) → guest (limit t ctx c w) ≡ guest w
  unfolding limit
  guest-limit ctx c w = elim (Option-cases ctx.deadline) [
    | inl e ↦ rw e refl
    | inr (d, e) ↦ rw e (link.limit_keeps c d w)
  ]

  -- A tool call that goes through the agent returns the answer of the tool in the guest, made
  -- with the timeout that was sent, and leaves the guest as the tool does: if the connection takes
  -- the request, the input is compact JSON, and the name and the output are UTF-8.
  pub agent_round_trip-answer :
      (ctx : Context) (conn : t.Conn) (tool input : Text) (timeout : ℤ) (w : W)
      → ((bytes : Text) → (t.send conn bytes (limit t ctx conn w)).0 ≡ none)
      → laws.IsUtf8 tool
      → laws.IsCompact input
      → let g = guest w in
        let budget = timeout_of (request_for tool input timeout) in
        let said = answer a.tools (with_timeout actx (now g) budget) tool input g in
        laws.IsUtf8 said.0.content
        → let out = agent_round_trip t j ctx conn tool input timeout w in
          (r : ExecResult) × (out.0 ≡ ok r) × (answer_of r ≡ said.0) × (guest out.1 ≡ said.1)
  unfolding agent_round_trip request_for result_of
  agent_round_trip-answer ctx conn tool input timeout w sends named compact utf8 =
      let (bytes, sent, read) = laws.request (request_for tool input timeout) named compact in
      let (resp, same, out) =
        handle_connection-decoded j now a actx bytes (guest w) (request_for tool input timeout)
          read in
      let valid : laws.IsUtf8 resp.output =
        subst laws.IsUtf8 (sym (ap (λ (x : Answer). x.content) same)) utf8 in
      let (reply, replied, got) = laws.response resp valid in
      let kept = guest-limit ctx conn w in
      let (heard, after) =
        link.send_receive conn bytes reply (limit t ctx conn w) (sends bytes)
          (rw (kept, out, replied) refl) in
      (
        record { content = resp.output; is_error = resp.is_error; duration_ms = resp.duration_ms },
        rw (sent, sends bytes, heard, got) refl,
        same,
        rw (sent, sends bytes) (link.close_keeps conn _ ∙ after ∙ rw (kept, out) refl),
      )
