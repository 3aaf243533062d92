-- ===== src/Examples/HostPrograms/Host.antt =====
-- examples/lifecycle/main.go and examples/customtool/main.go as they run, under the host backend.
use emberbox.Prelude.{
  text_eq, Text, text, ◌++◌, [], ◌≡◌, refl, ap, ◌∙◌, some, Bool-cases, take, inl, inr,
}
use emberbox.Prelude.Int.{ℤ, pos, eqb_ℤ}
use emberbox.Context.{background}
use emberbox.Errors.{Result, ok}
use emberbox.Tool.{Tools, get, register}
use emberbox.Tool.Registry.{get-register}
use emberbox.Sandbox.{Backend, ExecResult}
use emberbox.Sandbox.Handles.{assert_host, of_host, HostHandle}
use emberbox.Sandbox.Host.{
  HostWorld, HostBackend, host_backend, boot, exec, destroy, run_tool, tool_context,
}
use emberbox.Sandbox.Pool.Sections.{empty_pool, PoolConfig, with_defaults}
use emberbox.Sandbox.Pool.Methods.{stamp}
use emberbox.Examples.Greet.{GreetInput, greet_tool, name_or_world}
use emberbox.Examples.Session.Laws.{at_rest}
use emberbox.Examples.HostPrograms.{lifecycle, custom_tool, no_request, line_end}
use emberbox.Examples.HostPrograms.Laws.{
  session_on, the_context, lifecycle_output, lifecycle_runs, custom_tool_runs,
}

stamp-content : (elapsed : ℤ) (r : ExecResult) → (stamp elapsed r).content ≡ r.content
stamp-content elapsed r = elim (Bool-cases (eqb_ℤ r.duration_ms (pos 0))) [
  | inl e ↦ rw e refl
  | inr e ↦ rw e refl
]

module _ {W : Type 0} (env : HostWorld W) (b : HostBackend W) (cfg : PoolConfig) (now elapsed : ℤ)
    (w : W) where
  abbrev host : Backend
  host = host_backend env b

  -- The handle that Boot makes of the request of the programs, and what Execute comes to on it.
  abbrev handle : HostHandle
  handle = record { id = text "host-" ++ take 8 (env.new_uuid w).0; env = [] }

  abbrev ran : Text → Text → ExecResult × W
  ran tool input =
      run_tool env b (tool_context env b (the_context host cfg now (of_host handle)) handle) input
        (env.new_uuid w).1 (get b.tools tool) tool

  boots :
      boot env b background (with_defaults cfg no_request) w
      ≡ (ok (of_host handle), (env.new_uuid w).1)
  unfolding boot with_defaults
  boots = refl

  executes :
      (tool input : Text)
      → exec env b
          (the_context host cfg now (of_host handle))
          (of_host handle)
          tool
          input
          (env.new_uuid w).1
        ≡ (ok (ran tool input).0, (ran tool input).1)
  unfolding exec assert_host
  executes tool input = refl

  -- Under the host backend, with no warm sandboxes asked for, and whatever the clock and the tools
  -- do, examples/lifecycle does not panic: it prints the identity of its sandbox, that one sandbox
  -- is active, the result of the tool, and then that none is, and leaves the pool empty.
  pub lifecycle_lem :
      (id : Text) × (res : ExecResult) × (w' : W) × (lifecycle now elapsed (session_on host cfg w)
        ≡ (ok tt, at_rest host cfg (lifecycle_output host cfg id res) w'))
  unfolding run_tool destroy
  lifecycle_lem =
      let r = ran (text "bash") (text "{\"command\":\"uname -a\"}") in
      (
        handle.id,
        stamp elapsed r.0,
        r.1,
        lifecycle_runs host cfg now elapsed (of_host handle) r.0 w (env.new_uuid w).1 r.1 boots
            (executes _ _),
      )

  greets :
      (r : Tools W) (unmarshal : Text → Result GreetInput) (input : Text)
      → b.tools ≡ register r (greet_tool unmarshal)
      → unmarshal input ≡ ok (record { name = text "emberbox" })
      → (ran (text "greet") input).0.content ≡ text "hello, emberbox"
  unfolding run_tool greet_tool name_or_world text_eq text
  greets r unmarshal input registers reads =
      let found : get b.tools (text "greet") ≡ some (greet_tool unmarshal) =
        rw registers (get-register r (greet_tool unmarshal) (text "greet")) in
      rw (found, reads) refl

  -- Under the host backend examples/customtool prints the greeting of its own tool, if Unmarshal
  -- finds the name in the input, whatever else is registered, and leaves the pool empty.
  pub custom_tool_lem :
      (r : Tools W) (unmarshal : Text → Result GreetInput)
      → b.tools ≡ register r (greet_tool unmarshal)
      → unmarshal (text "{\"name\":\"emberbox\"}") ≡ ok (record { name = text "emberbox" })
      → let o = custom_tool now elapsed (session_on host cfg w) in
        (o.0 ≡ ok tt) × (o.1.out ≡ text "hello, emberbox\n") × (o.1.pool ≡ empty_pool host cfg)
  unfolding text
  custom_tool_lem r unmarshal registers reads =
      let input = text "{\"name\":\"emberbox\"}" in
      let ends =
        custom_tool_runs host cfg now elapsed (of_host handle) (ran (text "greet") input).0 w
          (env.new_uuid w).1 (ran (text "greet") input).1 boots (executes (text "greet") input) in
      (
        ap (λ o. o.0) ends,
        ap (λ o. o.1.out) ends
            ∙ ap (λ t. t ++ line_end)
                (stamp-content elapsed (ran (text "greet") input).0
                  ∙ greets r unmarshal input registers reads),
        ap (λ o. o.1.pool) ends,
      )
