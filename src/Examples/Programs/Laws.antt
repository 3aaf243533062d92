-- ===== src/Examples/Programs/Laws.antt =====
-- What the programs under examples/ print and leave, from main on.
use emberbox.Examples.Firecracker.Laws.{configure_lem}
use emberbox.Prelude.{text_eq, Text, text, [], ◌≡◌, ◌⊎◌, inl, inr, refl, ap, ◌∙◌, length}
use emberbox.Prelude.Int.{ℤ, pos}
use emberbox.Errors.{Result, ok}
use emberbox.Tool.{Tools}
use emberbox.Sandbox.{Backend, ExecResult}
use emberbox.Sandbox.Host.{HostWorld, HostBackend, host_backend, new_host_backend}
use emberbox.Sandbox.Pool.Sections.{take_all, empty_pool}
use emberbox.Sandbox.Pool.Methods.{shutdown, start, fill}
use emberbox.Sandbox.New.{
  Choice, host_choice, NewPool, failed, made, new_pool, select_backend, mode_host,
}
use emberbox.Sandbox.Firecracker.{FirecrackerConfig}
use emberbox.Builtin.{Files}
use emberbox.Builtin.FileWrite.{Paths}
use emberbox.Builtin.Commands.{Commands}
use emberbox.Builtin.WebFetch.{Web}
use emberbox.Builtin.Defaults.{Inputs}
use emberbox.Examples.Greet.{GreetInput}
use emberbox.Examples.Session.{Session}
use emberbox.Examples.HostPrograms.{lifecycle, custom_tool}
use emberbox.Examples.HostPrograms.Laws.{lifecycle_output}
use emberbox.Examples.HostPrograms.Host.{lifecycle_lem, custom_tool_lem}
use emberbox.Examples.Firecracker.{session, Variables}
use emberbox.Examples.Programs.{
  start_vms, Ended, ended, on_pool, with_timeout_only, host_config, status, returns,
  firecracker_main, lifecycle_main, custom_tool_main, lifecycle_tools, custom_tools,
}

module _ {W : Type 0} (getwd temp_dir : Text) (quote : Text → Text) (env : HostWorld W) (w : W)
    (other : Choice W → (B : Backend) × B.World) where
  -- A host backend runs in the world that the program starts in.
  abbrev pub on_host : Choice W → (B : Backend) × B.World
  on_host (host_choice b) = (host_backend env b, w)
  on_host c = other c

  abbrev pub host_of : Tools W → HostBackend W
  host_of tools = new_host_backend tools getwd

  new_pool-host :
      (tools : Tools W) (timeout : ℤ)
      → new_pool getwd temp_dir quote on_host (host_config tools timeout)
        ≡ made
            (host_backend env (host_of tools))
            (empty_pool (host_backend env (host_of tools)) (with_timeout_only timeout))
            w
  unfolding new_pool select_backend mode_host text text_eq start fill
  new_pool-host tools timeout = refl

  module _ (inputs : Inputs) (files : Files W) (paths : Paths W) (cmds : Commands W) (web : Web W)
      (now elapsed : ℤ) where
    -- The program of examples/customtool on its own, from main to its last line: with a host
    -- backend in its world it does not panic, prints the greeting of the tool that it registers
    -- beside the built-in ones, and leaves no sandbox. Unmarshal finds the name in the input.
    pub custom_tool_main_lem :
        (unmarshal : Text → Result GreetInput)
        → unmarshal (text "{\"name\":\"emberbox\"}") ≡ ok (record { name = text "emberbox" })
        → custom_tool_main getwd temp_dir quote on_host inputs files paths cmds web unmarshal now
            elapsed
          ≡ record { result = ok tt; out = text "hello, emberbox\n"; warm = 0; active = 0 }
    unfolding custom_tool_main empty_pool new_host_backend
    custom_tool_main_lem unmarshal reads =
        let tools =
          custom_tools getwd temp_dir quote on_host inputs files paths cmds web unmarshal in
        let (ran, printed, emptied) =
          custom_tool_lem env (host_of tools) (with_timeout_only (pos 5000000000)) now elapsed w
            (lifecycle_tools getwd temp_dir quote on_host inputs files paths cmds web) unmarshal
            refl reads in
        ap (λ made_pool. on_pool made_pool (λ B. custom_tool now elapsed))
          (new_pool-host tools (pos 5000000000))
        ∙ rw (ran, printed, emptied) refl

    -- The program of examples/lifecycle likewise does not panic, prints what lifecycle_output says
    -- of one sandbox and one result, and leaves no sandbox.
    lifecycle_main_lem :
        (id : Text) × (res : ExecResult) × (lifecycle_main getwd temp_dir quote on_host inputs files
            paths cmds web now elapsed
          ≡ record {
            result = ok tt;
            out =
                lifecycle_output
                  (host_backend env (
                    host_of
                      (lifecycle_tools getwd temp_dir quote on_host inputs files paths cmds web)))
                  (with_timeout_only (pos 30000000000))
                  id
                  res;
            warm = 0;
            active = 0;
          })
    unfolding lifecycle_main empty_pool
    lifecycle_main_lem =
        let tools = lifecycle_tools getwd temp_dir quote on_host inputs files paths cmds web in
        let (id, res, w', runs) =
          lifecycle_lem env (host_of tools) (with_timeout_only (pos 30000000000)) now elapsed w in
        (
          id,
          res,
          ap (λ made_pool. on_pool made_pool (λ B. lifecycle now elapsed))
                (new_pool-host tools (pos 30000000000))
              ∙ ap ended runs,
        )

module _ {W : Type 0} (getwd temp_dir : Text) (quote : Text → Text)
    (realize : Choice W → (B : Backend) × B.World) where
  -- Whatever Boot and the tools of a microVM do, and also when the program panics, its deferred
  -- Shutdown leaves no sandbox in its pool.
  session_empties :
      (B : Backend) (first second : ℤ × ℤ) (s : Session B)
      → ((session first second s).1.pool.warm ≡ []) × ((session first second s).1.pool.active ≡ [])
  unfolding session shutdown take_all
  session_empties B first second s = (refl, refl)

  pool_empties :
      (p : NewPool) (first second : ℤ × ℤ)
      → ((on_pool p (λ B. session first second)).warm ≡ 0)
        × ((on_pool p (λ B. session first second)).active ≡ 0)
  pool_empties (failed e) first second = (refl, refl)
  pool_empties (made B p w) first second =
      let (warm, active) =
        session_empties B first second (record { out = []; pool = p; world = w }) in
      (ap length warm, ap length active)

  -- examples/firecrackerbackend ends with status 2 exactly when the path of the kernel or of the
  -- root file system is missing; else it returns or panics, and no sandbox is left in its pool,
  -- whatever Boot and the tools do.
  firecracker_main_lem :
      (backend_of : FirecrackerConfig → Backend) (vars : Variables) (first second : ℤ × ℤ)
      → let o = firecracker_main getwd temp_dir quote realize backend_of vars first second in
        ((o ≡ status 2) × ((vars.kernel ≡ []) ⊎ (vars.rootfs ≡ [])))
        ⊎ ((e : Ended) × (o ≡ returns e) × (e.warm ≡ 0) × (e.active ≡ 0))
  unfolding firecracker_main
  firecracker_main_lem backend_of vars first second = elim (configure_lem temp_dir vars) [
    | inl (stops, missing) ↦ inl (rw stops refl, missing)
    | inr (cfg, goes, valid) ↦
        let (warm, active) = pool_empties _ first second in
        inr (
          _,
          ap (start_vms getwd temp_dir quote realize backend_of first second) goes,
          warm,
          active,
        )
  ]
