-- ===== src/Examples/HostPrograms/Laws.antt =====
-- What examples/lifecycle/main.go and examples/customtool/main.go print.
use emberbox.Examples.Session.Laws.{
  shutdown-at_rest, release-with_one, release-with_one, shutdown-at_rest, do_execute-with_one,
  do_allocate-at_rest, at_rest,
}
use emberbox.Sandbox.Pool.Methods.{stamp, exec_context}
use emberbox.Context.{background, Context}
use emberbox.Prelude.{Text, text, ◌++◌, [], itoa_ℤ, ◌≡◌, refl}
use emberbox.Prelude.Int.{ℤ}
use emberbox.Errors.{ok}
use emberbox.Sandbox.{Backend, ExecResult}
use emberbox.Sandbox.Pool.Sections.{with_defaults, PoolConfig, empty_pool, status}
use emberbox.Examples.Session.{Session}
use emberbox.Examples.HostPrograms.{
  audit_round, lifecycle, custom_tool, status_line, line_end, no_request,
}

module _ (B : Backend) (cfg : PoolConfig) where
  abbrev pub session_on : B.World → Session B
  session_on w = record { out = []; pool = empty_pool B cfg; world = w }

  -- The context of the one Execute.
  abbrev pub the_context : ℤ → B.Handle → Context
  the_context now h =
      exec_context B background now (record { handle = h; req = with_defaults cfg no_request })

  -- The output up to the Execute, up to the Release, and all of it.
  abbrev started_output : Text → Text
  started_output id =
      (text "allocated sandbox: " ++ (id ++ line_end)) ++ (text "status: " ++ status_line 0 1)

  abbrev run_output : Text → ExecResult → Text
  run_output id res =
      started_output id
      ++ (text "output (" ++ (itoa_ℤ res.duration_ms ++ (text "ms): " ++ res.content)))

  abbrev pub lifecycle_output : Text → ExecResult → Text
  lifecycle_output id res = run_output id res ++ (text "after release: " ++ status_line 0 0)

  pub lifecycle_runs :
      (now elapsed : ℤ) (h : B.Handle) (r : ExecResult) (w w' w'' : B.World)
      → B.boot background (with_defaults cfg no_request) w ≡ (ok h, w')
      → B.exec (the_context now h) h (text "bash") (text "{\"command\":\"uname -a\"}") w'
        ≡ (ok r, w'')
      → lifecycle now elapsed (session_on w) ≡ (
        ok tt,
        at_rest B cfg (lifecycle_output (B.id h) (stamp elapsed r)) (B.destroy background h w'').1,
      )
  unfolding lifecycle status empty_pool
  lifecycle_runs now elapsed h r w w' w'' boots executes =
      let req = with_defaults cfg no_request in
      rw
        (
          do_allocate-at_rest B cfg [] no_request h w w' boots,
          do_execute-with_one B cfg (started_output (B.id h)) now elapsed (text "bash")
              (text "{\"command\":\"uname -a\"}") req h r w' w'' executes,
          release-with_one B cfg (run_output (B.id h) (stamp elapsed r)) req h w'',
          shutdown-at_rest B cfg [] (B.destroy background h w'').1,
        )
        refl

  pub custom_tool_runs :
      (now elapsed : ℤ) (h : B.Handle) (r : ExecResult) (w w' w'' : B.World)
      → B.boot background (with_defaults cfg no_request) w ≡ (ok h, w')
      → B.exec (the_context now h) h (text "greet") (text "{\"name\":\"emberbox\"}") w'
        ≡ (ok r, w'')
      → custom_tool now elapsed (session_on w) ≡ (
        ok tt,
        at_rest B cfg ((stamp elapsed r).content ++ line_end) (B.destroy background h w'').1,
      )
  unfolding custom_tool empty_pool
  custom_tool_runs now elapsed h r w w' w'' boots executes =
      let req = with_defaults cfg no_request in
      rw
        (
          do_allocate-at_rest B cfg [] no_request h w w' boots,
          do_execute-with_one B cfg [] now elapsed (text "greet") (text "{\"name\":\"emberbox\"}")
              req h r w' w'' executes,
          release-with_one B cfg ((stamp elapsed r).content ++ line_end) req h w'',
          shutdown-at_rest B cfg [] (B.destroy background h w'').1,
        )
        refl

  pub audit_round_runs :
      (now elapsed : ℤ) (out : Text) (h : B.Handle) (r : ExecResult) (w w' w'' : B.World)
      → B.boot background (with_defaults cfg no_request) w ≡ (ok h, w')
      → B.exec (the_context now h) h (text "bash") (text "{\"command\":\"echo hi\"}") w'
        ≡ (ok r, w'')
      → audit_round now elapsed (at_rest B cfg out w) ≡ (
        ok tt,
        at_rest B cfg
            (out ++ (text "  " ++ (B.id h ++ (text ": " ++ (stamp elapsed r).content))))
            (B.destroy background h w'').1,
      )
  unfolding audit_round
  audit_round_runs now elapsed out h r w w' w'' boots executes =
      let req = with_defaults cfg no_request in
      rw
        (
          do_allocate-at_rest B cfg out no_request h w w' boots,
          do_execute-with_one B cfg out now elapsed (text "bash") (text "{\"command\":\"echo hi\"}")
              req h r w' w'' executes,
          release-with_one B cfg out req h w'',
        )
        refl
