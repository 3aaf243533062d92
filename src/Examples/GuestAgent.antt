-- ===== src/Examples/GuestAgent.antt =====
-- examples/firecrackerbackend/agent/main.go: an agent with one more tool, which may run as the
-- first process of its guest.
pub mod Laws
use emberbox.Agent.Serve.{Phase}
use emberbox.Prelude.{Option, ℕ, Text, text, [], Option, none, some, is_empty, if◌then◌else◌}
use emberbox.Prelude.Dict
use emberbox.Prelude.Dict.{Dict}
use emberbox.Errors.{Result}
use emberbox.Tool.{Tool, Tools, register, new_registry}
use emberbox.Builtin.{Files}
use emberbox.Builtin.FileWrite.{Paths}
use emberbox.Builtin.Commands.{Commands}
use emberbox.Builtin.WebFetch.{Web}
use emberbox.Builtin.Defaults.{Inputs, register_defaults}
use emberbox.Agent.{new_agent}
use emberbox.Agent.Vsock.{Kernel, listen_vsock}
use emberbox.Agent.Program.{exit_status, Flags, Process, bound, to_uint32}
use emberbox.Examples.Greet.{GreetInput, greet_tool}

-- os.Getenv.
abbrev pub getenv_of : Option Text → Text
getenv_of none = []
getenv_of (some v) = v

abbrev pub getenv : Dict Text → Text → Text
getenv env name = getenv_of (Dict.lookup name env)

abbrev pub default_path : Text
default_path = text "/usr/local/sbin:/usr/local/bin:/usr/sbin:/usr/bin:/sbin:/bin"

-- The default for PATH, in the environment of the process.
unfoldable pub plant_path : Dict Text → Dict Text
plant_path env =
    if is_empty (getenv env (text "PATH")) then Dict.insert (text "PATH") default_path env else env

-- Its greet tool is that of examples/customtool.
abbrev pub guest_greet_tool : {W : Type 0} → (Text → Result GreetInput) → Tool W
guest_greet_tool unmarshal = greet_tool unmarshal

-- The registry that main fills.
unfoldable pub guest_tools :
    {W : Type 0}
    → Inputs
    → (Text → Result GreetInput)
    → Files W
    → Paths W
    → Commands W
    → Web W
    → Tools W
guest_tools {W} inputs unmarshal files paths cmds web =
    register (register_defaults inputs files paths cmds web (new_registry W))
      (guest_greet_tool unmarshal)

-- main after that, up to its call of Serve.
unfoldable pub guest_main : {K W : Type 0} → Kernel K → Tools W → Flags → K → Process W × K
guest_main kern tools flags k =
    bound kern (new_agent tools flags.workdir) (listen_vsock kern (to_uint32 flags.vsock_port) k)

-- The end of main, once Serve has returned.
abbrev pub guest_exit : Phase → Option ℕ
guest_exit r = exit_status r
