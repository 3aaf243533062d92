-- ===== src/Sandbox/AgentClient/Probe.antt =====
-- sandbox/agentclient.go: vsockProbe, and the loop waitForVsockAgent around it. The clock is an
-- argument: `now` in nanoseconds, at the time of the probe.
use emberbox.Prelude.{Text, text, ℕ, ◌++◌, Option, none, some, trim_space, itoa, if◌then◌else◌}
use emberbox.Prelude.Int.{ℤ, pos, ◌+ℤ◌}
use emberbox.Errors.{Result, ok, err, Error, plain, wrap}
use emberbox.Context.{Context}
use emberbox.Sandbox.Polling.{poll_until}
use emberbox.Sandbox.AgentClient.{Transport, connect_line, accepts}

module _ {W : Type 0} (t : Transport W) (quote : Text → Text) (now : W → ℤ) where
  abbrev pub probe_deadline : Option ℤ → W → ℤ
  probe_deadline none w = now w +ℤ pos 500000000
  probe_deadline (some d) w = d

  abbrev pub verdict : Text → Option Error
  verdict line =
      if accepts line
      then none
      else some (plain (text "vsock probe refused: " ++ quote (trim_space line)))

  abbrev pub probe_line : t.Conn → Result Text × W → Option Error × W
  probe_line conn (err e, w) = (some e, t.close conn w)
  probe_line conn (ok line, w) = (verdict line, t.close conn w)

  abbrev pub probe_sent : t.Conn → Option Error × W → Option Error × W
  probe_sent conn (some e, w) = (some e, t.close conn w)
  probe_sent conn (none, w) = probe_line conn (t.read_line conn w)

  abbrev pub probe_dialled : Context → ℕ → Result t.Conn × W → Option Error × W
  probe_dialled ctx port (err e, w) = (some e, w)
  probe_dialled ctx port (ok conn, w) =
      probe_sent conn
        (t.send conn (connect_line port) (t.set_deadline conn (probe_deadline ctx.deadline w) w))

  unfoldable pub vsock_probe : Context → Text → ℕ → W → Option Error × W
  vsock_probe ctx uds port w = probe_dialled ctx port (t.dial ctx (some (pos 200000000)) uds w)

  abbrev pub expired : Text → ℕ → Error → Error
  expired uds port =
      wrap (text "waitForVsockAgent " ++ (uds ++ (text " port=" ++ (itoa port ++ text ": "))))

  -- The loop, under a context that ends with `cause` at wait number `n`. Its interval is the
  -- ticker's affair.
  unfoldable pub wait_for_vsock_agent : Context → Text → ℕ → ℕ → Error → W → Option Error × W
  wait_for_vsock_agent ctx uds port n cause w =
      poll_until (vsock_probe ctx uds port) (expired uds port) n cause w
