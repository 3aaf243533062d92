-- ===== src/Sandbox/Host/Laws.antt =====
-- What the host backend of sandbox/host.go promises.
use emberbox.Prelude.Dict.{Dict}
use emberbox.Prelude.Int.{ℤ}
use emberbox.Sandbox.Pool.Calls.{insert_found}
use emberbox.Sandbox.Pool.Sections.{
  with_defaults, Allocation, find_active, Allocation, Pool, find_active, default_request, take_warm,
  add_warm,
}
use emberbox.Sandbox.Pool.Methods.{allocate}
use emberbox.Prelude.{[], ◌∷◌, ◌∷◌, Option, ◌≡◌, refl, Text, none, some, is_empty, if◌then◌else◌}
use emberbox.Context.{background, Context, with_env}
use emberbox.Errors.{Result, ok, err, Error}
use emberbox.Tool.{ToolResult, Tool, get}
use emberbox.Tool.Answer.{of_result, answer_with, Answer, answer}
use emberbox.Sandbox.{AllocRequest, ExecResult}
use emberbox.Sandbox.Handles.{HostHandle, of_host, foreign, assert_host}
use emberbox.Sandbox.Host.{
  host_backend, env_from_context, run_tool, finish, boot, HostWorld, HostBackend, tool_context,
  exec,
}

-- The answer in a result, without the time.
abbrev pub answer_of : ExecResult → Answer
answer_of r = record { content = r.content; is_error = r.is_error }

module _ {W : Type 0} (env : HostWorld W) (b : HostBackend W) where
  finish-answer : (took : ℤ) (r : Result ToolResult) → answer_of (finish env b took r) ≡ of_result r
  unfolding finish
  finish-answer took (ok r) = refl
  finish-answer took (err e) = refl

  run_tool-answer :
      (ctx : Context) (input name : Text) (w : W) (t : Option (Tool W))
      → (answer_of (run_tool env b ctx input w t name).0 ≡ (answer_with ctx name input w t).0)
        × ((run_tool env b ctx input w t name).1 ≡ (answer_with ctx name input w t).1)
  unfolding run_tool
  run_tool-answer ctx input name w none = (refl, refl)
  run_tool-answer ctx input name w (some t) = (finish-answer _ (t.execute ctx input w).0, refl)

  -- On a handle of its own the host backend never fails: it returns the answer of the tool, made
  -- in the context of the handle, and leaves the world as the tool does.
  pub exec-answer :
      (ctx : Context) (h : HostHandle) (name input : Text) (w : W)
      → (r : ExecResult) × ((exec env b ctx (of_host h) name input w).0 ≡ ok r)
        × (answer_of r ≡ (answer b.tools (tool_context env b ctx h) name input w).0)
        × ((exec env b ctx (of_host h) name input w).1
            ≡ (answer b.tools (tool_context env b ctx h) name input w).1)
  unfolding exec assert_host
  exec-answer ctx h name input w =
      let same = run_tool-answer (tool_context env b ctx h) input name w (get b.tools name) in
      (_, refl, same.0, same.1)

  -- The host backend refuses a handle of another backend before any tool runs.
  exec-foreign :
      (ctx : Context) (i kind name input : Text) (w : W)
      → (e : Error) × (exec env b ctx (foreign i kind) name input w ≡ (err e, w))
  unfolding exec assert_host
  exec-foreign ctx i kind name input w = (_, refl)

  tool_context-env :
      (ctx : Context) (i : Text) (vars : Dict Text)
      → let seen = tool_context env b ctx (record { id = i; env = vars }) in
        (env_from_context seen ≡ (if is_empty vars then env_from_context ctx else vars))
        × (seen.deadline ≡ ctx.deadline)
  unfolding tool_context env_from_context with_env
  tool_context-env ctx i [] = (refl, refl)
  tool_context-env ctx i (v ∷ vars) = (refl, refl)

  -- A tool that runs in a sandbox booted by the host backend reads the variables of the request
  -- from its context, and without variables those of the context of the caller; the deadline is
  -- that of the caller.
  boot-env :
      (ctx ctx' : Context) (req : AllocRequest) (w : W)
      → (h : HostHandle) × ((boot env b ctx req w).0 ≡ ok (of_host h))
        × (env_from_context (tool_context env b ctx' h)
            ≡ (if is_empty req.env then env_from_context ctx' else req.env))
        × ((tool_context env b ctx' h).deadline ≡ ctx'.deadline)
  unfolding boot
  boot-env ctx ctx' req w = let seen = tool_context-env ctx' _ req.env in (_, refl, seen.0, seen.1)

  -- An Allocate that takes a warm sandbox of the host backend records the variables of the
  -- request, and yet the tools in that sandbox read those of the caller's context alone.
  pub warm-env :
      (p : Pool (host_backend env b)) (ctx ctx' : Context) (req : AllocRequest) (w w' : W)
      → (h : HostHandle) × ((boot env b background (default_request p.cfg) w).0 ≡ ok (of_host h))
        × let out =
            allocate
              (host_backend env b)
              (add_warm (host_backend env b) p (of_host h))
              ctx
              req
              w' in
          (a : Allocation (host_backend env b)) × (out.result ≡ ok h.id)
          × (find_active (host_backend env b) out.pool h.id ≡ some a)
          × (a.handle ≡ of_host h)
          × (a.req.env ≡ req.env)
          × (tool_context env b ctx' h ≡ ctx')
  unfolding boot allocate add_warm take_warm default_request tool_context with_defaults
  warm-env p ctx ctx' req w w' =
      (_, refl, (_, refl, insert_found (host_backend env b) _ _ _, refl, refl, refl))
