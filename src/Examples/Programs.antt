-- ===== src/Examples/Programs.antt =====
-- The whole of examples/lifecycle/main.go, examples/customtool/main.go and
-- examples/firecrackerbackend/main.go, from their registries and New on.
pub mod Laws
use emberbox.Prelude.{Text, ℕ, length, [], none, some}
use emberbox.Prelude.Int.{ℤ, pos}
use emberbox.Errors.{Result, err}
use emberbox.Tool.{Tools, register, new_registry}
use emberbox.Sandbox.{Backend}
use emberbox.Sandbox.Pool.Sections.{PoolConfig}
use emberbox.Sandbox.New.{Config, Choice, NewPool, failed, made, new_pool, mode_host}
use emberbox.Sandbox.Firecracker.{FirecrackerConfig}
use emberbox.Builtin.{Files}
use emberbox.Builtin.FileWrite.{Paths}
use emberbox.Builtin.Commands.{Commands}
use emberbox.Builtin.WebFetch.{Web}
use emberbox.Builtin.Defaults.{Inputs, register_defaults}
use emberbox.Examples.Greet.{GreetInput, greet_tool}
use emberbox.Examples.Session.{Session, Run}
use emberbox.Examples.HostPrograms.{lifecycle, custom_tool}
use emberbox.Examples.Firecracker.{Variables, Start, exits, goes_on, configure, session}

-- How a program ends: a panic is an error. `warm` and `active` are the sandboxes that its pool is
-- left with.
pub record Ended : Type 0 where
  pub result : Result (Unit {0})
  pub out : Text
  pub warm : ℕ
  pub active : ℕ

abbrev pub ended : {B : Backend} → Result (Unit {0}) × Session B → Ended
ended (r, s) = record {
  result = r;
  out = s.out;
  warm = length s.pool.warm;
  active = length s.pool.active;
}

-- The pool that New returns, or panic(err), and what is done with it.
abbrev pub on_pool : NewPool → ((B : Backend) → Run B (Unit {0})) → Ended
on_pool (failed e) m = record { result = err e; out = []; warm = 0; active = 0 }
on_pool (made B p w) m = ended (m B (record { out = []; pool = p; world = w }))

-- A Config with nothing but a default timeout for its pool.
abbrev pub with_timeout_only : ℤ → PoolConfig
with_timeout_only timeout = record {
  pool_size = pos 0;
  default_memory_mb = pos 0;
  default_vcpus = pos 0;
  default_timeout = timeout;
}

abbrev pub host_config : {W : Type 0} → Tools W → ℤ → Config W
host_config tools timeout = record {
  backend = none;
  mode = mode_host;
  kernel_path = [];
  rootfs_path = [];
  tools = some tools;
  pool = with_timeout_only timeout;
}

-- The exit status, or the end of the program.
pub data Exit : Type 0 where
  status : ℕ → Exit
  returns : Ended → Exit

module _ {W : Type 0} (getwd temp_dir : Text) (quote : Text → Text)
    (realize : Choice W → (B : Backend) × B.World) where
  -- examples/firecrackerbackend, where `backend_of` is the backend with a configuration.
  abbrev pub start_vms : (FirecrackerConfig → Backend) → ℤ × ℤ → ℤ × ℤ → Start → Exit
  start_vms backend_of first second (exits n) = status n
  start_vms backend_of first second (goes_on cfg) = returns (
      on_pool
        (new_pool getwd temp_dir quote realize (record {
          backend = some (backend_of cfg);
          mode = [];
          kernel_path = [];
          rootfs_path = [];
          tools = none;
          pool = with_timeout_only (pos 30000000000);
        }))
        (λ B. session first second))

  unfoldable pub firecracker_main : (FirecrackerConfig → Backend) → Variables → ℤ × ℤ → ℤ × ℤ → Exit
  firecracker_main backend_of vars first second =
      start_vms backend_of first second (configure temp_dir vars)

  module _ (inputs : Inputs) (files : Files W) (paths : Paths W) (cmds : Commands W)
      (web : Web W) where
    abbrev pub lifecycle_tools : Tools W
    lifecycle_tools = register_defaults inputs files paths cmds web (new_registry W)

    unfoldable pub lifecycle_main : ℤ → ℤ → Ended
    lifecycle_main now elapsed =
        on_pool
          (new_pool getwd temp_dir quote realize (host_config lifecycle_tools (pos 30000000000)))
          (λ B. lifecycle now elapsed)

    abbrev pub custom_tools : (Text → Result GreetInput) → Tools W
    custom_tools unmarshal = register lifecycle_tools (greet_tool unmarshal)

    unfoldable pub custom_tool_main : (Text → Result GreetInput) → ℤ → ℤ → Ended
    custom_tool_main unmarshal now elapsed =
        on_pool
          (new_pool getwd temp_dir quote realize
            (host_config (custom_tools unmarshal) (pos 5000000000)))
          (λ B. custom_tool now elapsed)
