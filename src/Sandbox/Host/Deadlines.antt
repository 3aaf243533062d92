-- ===== src/Sandbox/Host/Deadlines.antt =====
-- sandbox/sandbox.go, sandbox/host.go and tools/bash.go together: the time and the environment that
-- a command gets which is run through a pool.
use emberbox.Sandbox.Pool.Methods.{execute, stamped, exec_context}
use emberbox.Sandbox.Pool.Sections.{Pool, Allocation, find_active}
use emberbox.Sandbox.Host.Laws.{answer_of}
use emberbox.Sandbox.Handles.{HostHandle, of_host, assert_host}
use emberbox.Sandbox.{AllocRequest, ExecResult}
use emberbox.Tool.Answer.{of_result}
use emberbox.Tool.{ToolResult, get}
use emberbox.Errors.{Result, ok}
use emberbox.Builtin.{parse_input, require_field, require_field, parse_input}
use emberbox.Sandbox.Host.{
  HostWorld, HostBackend, exec, finish, run_tool, tool_context, host_backend, tool_context,
  HostBackend, HostWorld,
}
use emberbox.Prelude.{
  ◌∙◌, is_empty-filled, inr, inl, is_empty, Bool-cases, Text, text, [], ◌∷◌, ◌≡◌, ◌≢◌, some, true,
  refl, inl, inr, is_empty, Bool-cases, is_empty-filled,
}
use emberbox.Prelude.Int.{milliseconds, eqb_ℤ, ◌-ℤ◌, ℤ, pos, ◌+ℤ◌, ltb_ℤ}
use emberbox.Context.{with_env, with_env, Context, EndsBy, with_timeout-EndsBy, with_timeout_keeps}
use emberbox.Sandbox.Pool.Calls.{execute-active, exec_context-EndsBy, exec_context_keeps}
use emberbox.Builtin.Commands.{
  bash, bash, bash_tool, bash_result, bash_context, bash_timeout, BashInput, Ran, Commands,
}

module _ {W : Type 0} (env : HostWorld W) (b : HostBackend W) (cmds : Commands W)
    (unmarshal : Text → Result BashInput) where
  abbrev bash_run : Context → BashInput → W → Ran × W
  bash_run ctx inp w =
      cmds.run (bash_context cmds ctx inp w) (text "bash") (text "-c" ∷ inp.command ∷ []) w

  bash_tool-runs :
      (ctx : Context) (inp : BashInput) (input : Text) (w : W)
      → unmarshal input ≡ ok inp
      → inp.command ≢ []
      → (bash_tool cmds unmarshal).execute ctx input w
        ≡ (ok (bash_result (bash_run ctx inp w).0), (bash_run ctx inp w).1)
  unfolding bash_tool bash parse_input require_field
  bash_tool-runs ctx inp input w parsed given = rw (parsed, is_empty-filled inp.command given) refl

  tool_context_keeps :
      (ctx : Context) (h : HostHandle) (d : ℤ) → EndsBy ctx d → EndsBy (tool_context env b ctx h) d
  unfolding tool_context with_env
  tool_context_keeps ctx h d ends = elim (Bool-cases (is_empty h.env)) [
    | inl e ↦ rw e ends
    | inr e ↦ rw e ends
  ]

  exec-bash :
      (ctx : Context) (h : HostHandle) (inp : BashInput) (input : Text) (w : W)
      → get b.tools (text "bash") ≡ some (bash_tool cmds unmarshal)
      → unmarshal input ≡ ok inp
      → inp.command ≢ []
      → let ran = bash_run (tool_context env b ctx h) inp w in
        exec env b ctx (of_host h) (text "bash") input w ≡ (
          ok (finish env b (milliseconds (env.now ran.1 -ℤ env.now w)) (ok (bash_result ran.0))),
          ran.1,
        )
  unfolding exec assert_host run_tool bash_tool
  exec-bash ctx h inp input w installed parsed given =
      rw (installed, bash_tool-runs (tool_context env b ctx h) inp input w parsed given) refl

  -- What Execute makes of a result leaves its answer as it is.
  stamped-answer :
      (elapsed took : ℤ) (r : ToolResult)
      → (s : ExecResult) × (stamped elapsed (ok (finish env b took (ok r))) ≡ ok s)
        × (answer_of s ≡ of_result (ok r))
  unfolding finish
  stamped-answer elapsed took r = elim (Bool-cases (eqb_ℤ took (pos 0))) [
    | inl e ↦ (_, refl, rw e refl)
    | inr e ↦ (_, refl, rw e refl)
  ]

  -- A bash command that a pool over the host backend executes in an active sandbox is run once, and
  -- its answer is returned. The context that it runs under has the deadline of the caller at the
  -- latest, ends within the timeout of the allocation, counted from the call of Execute, and within
  -- the timeout of the tool's input, counted from when the command starts. The bash tool is in the
  -- registry of the backend, the input is decoded and names a command, the timeout of the
  -- allocation is positive and the caller has a deadline.
  pub execute-bash :
      (p : Pool (host_backend env b)) (ctx : Context) (now elapsed d : ℤ) (i input : Text) (w : W)
      (h : HostHandle) (req : AllocRequest) (inp : BashInput)
      → get b.tools (text "bash") ≡ some (bash_tool cmds unmarshal)
      → unmarshal input ≡ ok inp
      → inp.command ≢ []
      → find_active (host_backend env b) p i ≡ some (record { handle = of_host h; req = req })
      → ltb_ℤ (pos 0) req.timeout ≡ true
      → EndsBy ctx d
      → let out = execute (host_backend env b) p ctx now elapsed i (text "bash") input w in
        (c : Context) × (r : ExecResult) × (out.0 ≡ ok r)
        × (answer_of r
            ≡ of_result
                (ok (bash_result (cmds.run c (text "bash") (text "-c" ∷ inp.command ∷ []) w).0)))
        × (out.1 ≡ (cmds.run c (text "bash") (text "-c" ∷ inp.command ∷ []) w).1)
        × EndsBy c d
        × EndsBy c (now +ℤ req.timeout)
        × EndsBy c (cmds.now w +ℤ bash_timeout inp)
  unfolding bash_context
  execute-bash p ctx now elapsed d i input w h req inp installed parsed given active positive ends =
      let a : Allocation (host_backend env b) = record { handle = of_host h; req = req } in
      let ectx = exec_context (host_backend env b) ctx now a in
      let called =
        execute-active (host_backend env b) p ctx now elapsed i (text "bash") input w a active in
      let tctx = tool_context env b ectx h in
      let (s, stamps, answers) =
        stamped-answer elapsed (milliseconds (env.now (bash_run tctx inp w).1 -ℤ env.now w))
          (bash_result (bash_run tctx inp w).0) in
      let runs = exec-bash ectx h inp input w installed parsed given in
      (
        bash_context cmds tctx inp w,
        s,
        called.0 ∙ rw runs stamps,
        answers,
        called.1 ∙ rw runs refl,
        with_timeout_keeps tctx (cmds.now w) (bash_timeout inp) d (
            tool_context_keeps ectx h d (exec_context_keeps (host_backend env b) ctx now a d ends)),
        with_timeout_keeps tctx (cmds.now w) (bash_timeout inp) (now +ℤ req.timeout) (
            tool_context_keeps ectx h (now +ℤ req.timeout)
              (exec_context-EndsBy (host_backend env b) ctx now a positive)),
        with_timeout-EndsBy tctx (cmds.now w) (bash_timeout inp),
      )
