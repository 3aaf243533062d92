-- ===== src/Agent/Program.antt =====
-- cmd/emberbox-agent/main.go: the agent's process, from its flags to its exit status.
pub mod Laws
use emberbox.Prelude.{ℕ, ◌%◌, ◌^◌, ◌==◌, Text, Option, none, some, if◌then◌else◌}
use emberbox.Errors.{Result, ok, err}
use emberbox.Tool.{Tools, new_registry}
use emberbox.Builtin.{Files}
use emberbox.Builtin.FileWrite.{Paths}
use emberbox.Builtin.Commands.{Commands}
use emberbox.Builtin.WebFetch.{Web}
use emberbox.Builtin.Defaults.{Inputs, register_defaults}
use emberbox.Agent.{Agent, new_agent}
use emberbox.Agent.Serve.{Phase, accepting, draining, returned}
use emberbox.Agent.Vsock.{Kernel, VsockListener, listen_vsock}

-- The flags. --vsock-port is a uint, so of 64 bits on the targets of the agent.
pub record Flags : Type 0 where
  pub vsock_port : ℕ
  pub workdir : Text

-- The process up to its call of Serve: it ends with a status, or serves.
pub data Process (W : Type 0) : Type 0 where
  exits : ℕ → Process W
  serves : Agent W → VsockListener → Process W

-- uint32(p).
abbrev pub to_uint32 : ℕ → ℕ
to_uint32 p = p % 2 ^ 32

-- The exit status once Serve has returned, if it has.
unfoldable pub exit_status : Phase → Option ℕ
exit_status accepting = none
exit_status draining = none
exit_status (returned none) = some 0
exit_status (returned (some e)) = some 1

module _ {K W : Type 0} (kern : Kernel K) where
  abbrev pub bound : Agent W → Result VsockListener × K → Process W × K
  bound a (err e, k) = (exits 1, k)
  bound a (ok ln, k) = (serves a ln, k)

  -- main, with the registry that it fills.
  unfoldable pub main : Tools W → Flags → K → Process W × K
  main tools flags k =
      if flags.vsock_port == 0
      then (exits 1, k)
      else bound (new_agent tools flags.workdir) (listen_vsock kern (to_uint32 flags.vsock_port) k)

-- r := tool.NewRegistry(); tools.RegisterDefaults(r)
unfoldable pub agent_tools :
    {W : Type 0} → Inputs → Files W → Paths W → Commands W → Web W → Tools W
agent_tools {W} inputs files paths cmds web =
    register_defaults inputs files paths cmds web (new_registry W)
