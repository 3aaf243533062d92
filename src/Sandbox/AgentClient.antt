-- ===== src/Sandbox/AgentClient.antt =====
-- sandbox/agentclient.go: the host's end of the agent protocol, over Firecracker's socket.
pub mod Laws
pub mod Probe
pub mod Buffered
pub mod EndToEnd
use emberbox.Prelude.{
  Text, text, ℕ, ◌++◌, ◌∷◌, [], ◌==◌, ◌||◌, Bool, Option, none, some, has_prefix, trim_right, itoa,
  if◌then◌else◌,
}
use emberbox.Prelude.Int.{ℤ, pos, quot_ℤ, ltb_ℤ}
use emberbox.Errors.{Result, ok, err, Error, plain, wrap}
use emberbox.Context.{Context}
use emberbox.Agent.Wire.{Json, AgentRequest, AgentResponse}
use emberbox.Sandbox.{ExecResult}

-- A Unix-domain socket. `read_line` is ReadString('\n') of the buffered reader, `receive` the bytes
-- of the JSON value that follows in the same buffer, or the error of the read.
pub record Transport (W : Type 0) : Type 1 where
  pub Conn : Type 0
  pub dial : Context → Option ℤ → Text → W → Result Conn × W
  pub set_deadline : Conn → ℤ → W → W
  pub send : Conn → Text → W → Option Error × W
  pub read_line : Conn → W → Result Text × W
  pub receive : Conn → W → Result Text × W
  pub close : Conn → W → W

-- int(timeout.Seconds()), which drops the fraction. The code computes it in float64, with this
-- result below 2^23 seconds, about 97 days.
abbrev whole_seconds : ℤ → ℤ
whole_seconds timeout = quot_ℤ timeout 1000000000

unfoldable pub request_for : Text → Text → ℤ → AgentRequest
request_for tool input timeout = record {
  tool_name = tool;
  input = input;
  timeout_seconds = if ltb_ℤ (pos 0) timeout then whole_seconds timeout else pos 0;
}

-- "CONNECT %d\n"
unfoldable pub connect_line : ℕ → Text
connect_line port = text "CONNECT " ++ (itoa port ++ b'\n' ∷ [])

abbrev pub is_newline : ℕ → Bool
is_newline a = (a == b'\r') || (a == b'\n')

unfoldable pub accepts : Text → Bool
accepts line = has_prefix line (text "OK ")

-- The result in a response.
unfoldable pub result_of : Result AgentResponse → Result ExecResult
result_of (ok r) =
    ok (record { content = r.output; is_error = r.is_error; duration_ms = r.duration_ms })
result_of (err e) = err (wrap (text "decode response: ") e)

module _ {W : Type 0} (t : Transport W) where
  -- if dl, ok := ctx.Deadline(); ok { conn.SetDeadline(dl) }
  unfoldable pub limit : Context → t.Conn → W → W
  limit ctx conn w = elim ctx.deadline [ none ↦ w | some d ↦ t.set_deadline conn d w ]

  module _ (j : Json) where
    abbrev pub of_reply : Result Text → Result ExecResult
    of_reply (ok bytes) = result_of (j.decode_response bytes)
    of_reply (err e) = err (wrap (text "decode response: ") e)

    abbrev pub after_request : t.Conn → Option Error × W → Result ExecResult × W
    after_request conn (some e, w) = (err (wrap (text "encode request: ") e), t.close conn w)
    after_request conn (none, w) = let (r, w') = t.receive conn w in (of_reply r, t.close conn w')

    abbrev pub after_encode : t.Conn → Result Text → W → Result ExecResult × W
    after_encode conn (err e) w = (err (wrap (text "encode request: ") e), t.close conn w)
    after_encode conn (ok bytes) w = after_request conn (t.send conn bytes w)

    -- agentRoundTrip.
    unfoldable pub agent_round_trip : Context → t.Conn → Text → Text → ℤ → W → Result ExecResult × W
    agent_round_trip ctx conn tool input timeout w =
        after_encode conn (j.encode_request (request_for tool input timeout)) (limit ctx conn w)

    module _ (quote : Text → Text) where
      -- Once Firecracker has replied to CONNECT; `quote` is %q.
      abbrev pub after_line :
          Context → t.Conn → Text → Text → ℤ → Result Text × W → Result ExecResult × W
      after_line ctx conn tool input timeout (err e, w) =
          (err (wrap (text "read vsock CONNECT reply: ") e), t.close conn w)
      after_line ctx conn tool input timeout (ok raw, w) =
          let line = trim_right is_newline raw in
          let rest = agent_round_trip ctx conn tool input timeout w in
          if accepts line
          then rest
          else (err (plain (text "vsock CONNECT refused: " ++ quote line)), t.close conn w)

      abbrev pub after_connect :
          Context → t.Conn → Text → Text → ℤ → Option Error × W → Result ExecResult × W
      after_connect ctx conn tool input timeout (some e, w) =
          (err (wrap (text "send vsock CONNECT: ") e), t.close conn w)
      after_connect ctx conn tool input timeout (none, w) =
          after_line ctx conn tool input timeout (t.read_line conn w)

      abbrev pub after_dial :
          Context → Text → ℕ → Text → Text → ℤ → Result t.Conn × W → Result ExecResult × W
      after_dial ctx uds port tool input timeout (err e, w) =
          (err (wrap (text "dial vsock uds " ++ (uds ++ text ": ")) e), w)
      after_dial ctx uds port tool input timeout (ok conn, w) =
          after_connect ctx conn tool input timeout
            (t.send conn (connect_line port) (limit ctx conn w))

      -- dialAgentVsockUDS.
      unfoldable pub dial_agent_vsock_uds :
          Context → Text → ℕ → Text → Text → ℤ → W → Result ExecResult × W
      dial_agent_vsock_uds ctx uds port tool input timeout w =
          after_dial ctx uds port tool input timeout (t.dial ctx none uds w)
