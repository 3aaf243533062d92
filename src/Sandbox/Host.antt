-- ===== src/Sandbox/Host.antt =====
-- sandbox/host.go: tools run in the host process. The world `W` is what the tools may change; it
-- holds the clock, and the source of the identifiers of github.com/google/uuid.
pub mod Laws
pub mod Identities
pub mod Deadlines
use emberbox.Prelude.{true, Text, text, Option, none, some, [], ◌++◌, take, is_empty, if◌then◌else◌}
use emberbox.Prelude.Int.{milliseconds, ℤ, pos, ◌-ℤ◌}
use emberbox.Prelude.Dict.{Dict}
use emberbox.Errors.{Result, ok, err, Error, message}
use emberbox.Context.{Context, with_env}
use emberbox.Tool.{Tool, ToolResult, Tools, get}
use emberbox.Tool.Answer.{unknown_tool, tool_error}
use emberbox.Sandbox.{Backend, AllocRequest, ExecResult}
use emberbox.Sandbox.Handles.{AnyHandle, HostHandle, of_host, handle_id, assert_host}

-- `new_uuid w` is uuid.New().String(); `now w` reads the clock, in nanoseconds.
pub record HostWorld (W : Type 0) : Type 0 where
  pub new_uuid : W → Text × W
  pub now : W → ℤ

pub record HostBackend (W : Type 0) : Type 0 where
  pub tools : Tools W
  pub workdir : Text

-- EnvFromContext.
unfoldable pub env_from_context : Context → Dict Text
env_from_context ctx = elim ctx.env [ none ↦ [] | some env ↦ env ]

module _ {W : Type 0} where
  unfoldable pub new_host_backend : Tools W → Text → HostBackend W
  new_host_backend r workdir = record { tools = r; workdir = workdir }

  module _ (env : HostWorld W) (b : HostBackend W) where
    unfoldable pub boot : Context → AllocRequest → W → Result AnyHandle × W
    boot ctx req w =
        let (u, w') = env.new_uuid w in
        (ok (of_host (record { id = text "host-" ++ take 8 u; env = req.env })), w')

    -- The context that a tool is called with.
    unfoldable pub tool_context : Context → HostHandle → Context
    tool_context ctx h = if is_empty h.env then ctx else with_env ctx h.env

    -- The result of a tool, with the time that it took.
    unfoldable pub finish : ℤ → Result ToolResult → ExecResult
    finish took (ok r) = record { content = r.content; is_error = r.is_error; duration_ms = took }
    finish took (err e) = record {
      content = tool_error (message e);
      is_error = true;
      duration_ms = took;
    }

    unfoldable pub run_tool : Context → Text → W → Option (Tool W) → Text → ExecResult × W
    unfolding finish
    run_tool ctx input w none name =
        (record { content = unknown_tool name; is_error = true; duration_ms = pos 0 }, w)
    run_tool ctx input w (some t) name =
        let (r, w') = t.execute ctx input w in
        (finish (milliseconds (env.now w' -ℤ env.now w)) r, w')

    unfoldable pub exec : Context → AnyHandle → Text → Text → W → Result ExecResult × W
    unfolding run_tool tool_context
    exec ctx h name input w = elim (assert_host h) [
      | err e ↦ (err e, w)
      | ok hh ↦
          let (r, w') = run_tool (tool_context ctx hh) input w (get b.tools name) name in (ok r, w')
    ]

    unfoldable pub destroy : Context → AnyHandle → W → Option Error × W
    destroy ctx h w = (none, w)

    abbrev pub host_backend : Backend
    host_backend = record {
      Handle = AnyHandle;
      World = W;
      name = text "host";
      id = handle_id;
      boot = boot;
      exec = exec;
      destroy = destroy;
    }
