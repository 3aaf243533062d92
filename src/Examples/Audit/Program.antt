-- ===== src/Examples/Audit/Program.antt =====
-- The program of examples/custombackend/main.go, and what it prints over the host backend.
use emberbox.Prelude.{
  append_assoc, append-nil, sym, ℕ, zero, suc, Text, text, ◌++◌, [], itoa_ℤ, ◌≡◌, refl, ap, ◌∙◌,
  take,
}
use emberbox.Prelude.Int.{ℤ, pos, wrap64}
use emberbox.Errors.{ok}
use emberbox.Tool.{get}
use emberbox.Sandbox.{Backend}
use emberbox.Sandbox.Handles.{assert_host, of_host, HostHandle}
use emberbox.Sandbox.Host.{
  HostWorld, HostBackend, host_backend, boot, exec, destroy, run_tool, tool_context,
}
use emberbox.Sandbox.Pool.Sections.{PoolConfig, with_defaults}
use emberbox.Sandbox.Pool.Methods.{stamp}
use emberbox.Examples.Session.{deferred_after, Run, ◌>>◌, print, done, deferred, do_shutdown}
use emberbox.Examples.Session.Laws.{at_rest, shutdown-at_rest, >>=-ok}
use emberbox.Examples.HostPrograms.{audit_round}
use emberbox.Examples.HostPrograms.Laws.{audit_round_runs, the_context}
use emberbox.Examples.Audit.{AuditHandle, AuditWorld, audit, fresh, add_one}

module _ (C : Backend) where
  -- for range 3: `clock n` is now and the time taken, n rounds before the last.
  abbrev pub rounds_of : (ℕ → ℤ × ℤ) → ℕ → Run (audit C) (Unit {0})
  rounds_of clock zero = done tt
  rounds_of clock (suc n) = audit_round (clock n).0 (clock n).1 >> rounds_of clock n

  -- The value of an atomic.Int64.
  abbrev load : ℕ → Text
  load n = itoa_ℤ (wrap64 (pos n))

  abbrev pub summary : ℕ → ℕ → ℕ → Text
  summary boots execs destroys =
      text "backend="
      ++ ((audit C).name
          ++ (text " boots="
              ++ (load boots
                  ++ (text " execs="
                      ++ (load execs ++ (text " destroys=" ++ (load destroys ++ text "\n")))))))

  abbrev pub print_summary : Run (audit C) (Unit {0})
  print_summary s = print (summary s.world.boots s.world.execs s.world.destroys) s

  unfoldable pub audit_main : (ℕ → ℤ × ℤ) → Run (audit C) (Unit {0})
  audit_main clock = deferred do_shutdown (rounds_of clock 3 >> print_summary)

-- n more calls on a counter.
abbrev count_on : ℕ → ℕ → ℕ
count_on zero c = c
count_on (suc n) c = count_on n (add_one c)

module _ {W : Type 0} (env : HostWorld W) (b : HostBackend W) (cfg : PoolConfig)
    (clock : ℕ → ℤ × ℤ) where
  abbrev host : Backend
  host = host_backend env b

  abbrev handle : W → HostHandle
  handle w = record { id = text "host-" ++ take 8 (env.new_uuid w).0; env = [] }

  abbrev audited_handle : W → AuditHandle host
  audited_handle w = record { id = (handle w).id; inner = of_host (handle w) }

  abbrev counted : ℕ → AuditWorld host → W → AuditWorld host
  counted n w inner = record {
    inner = inner;
    boots = count_on n w.boots;
    execs = count_on n w.execs;
    destroys = count_on n w.destroys;
  }

  round_runs :
      (now elapsed : ℤ) (out : Text) (w : AuditWorld host)
      → (line : Text) × (inner : W) × (audit_round now elapsed (at_rest (audit host) cfg out w)
          ≡ (ok tt, at_rest (audit host) cfg (out ++ line) (counted 1 w inner)))
  unfolding boot exec destroy with_defaults assert_host
  round_runs now elapsed out w =
      let h = audited_handle w.inner in
      let ran =
        run_tool env b (tool_context env b (the_context (audit host) cfg now h) (handle w.inner))
          (text "{\"command\":\"echo hi\"}") (env.new_uuid w.inner).1 (get b.tools (text "bash"))
          (text "bash") in
      (
        text "  " ++ ((handle w.inner).id ++ (text ": " ++ (stamp elapsed ran.0).content)),
        ran.1,
        audit_round_runs (audit host) cfg now elapsed out h ran.0 w
            (record w { inner = (env.new_uuid w.inner).1; boots = add_one w.boots })
            (record w { inner = ran.1; boots = add_one w.boots; execs = add_one w.execs }) refl
            refl,
      )

  rounds_run :
      (n : ℕ) (out : Text) (w : AuditWorld host)
      → (lines : Text) × (inner : W) × (rounds_of host clock n (at_rest (audit host) cfg out w)
          ≡ (ok tt, at_rest (audit host) cfg (out ++ lines) (counted n w inner)))
  rounds_run zero out w =
      ([], w.inner, ap (λ t. (ok tt, at_rest (audit host) cfg t w)) (sym (append-nil out)))
  rounds_run (suc n) out w =
      let (line, inner, first) = round_runs (clock n).0 (clock n).1 out w in
      let (lines, last, rest) = rounds_run n (out ++ line) (counted 1 w inner) in
      (
        line ++ lines,
        last,
        >>=-ok (audit_round (clock n).0 (clock n).1) (λ _. rounds_of host clock n)
              (at_rest (audit host) cfg out w) first
            ∙ (rest
                ∙ ap (λ t. (ok tt, at_rest (audit host) cfg t (counted n (counted 1 w inner) last)))
                    (append_assoc out line lines)),
      )

  printed : summary host 3 3 3 ≡ text "backend=audit(host) boots=3 execs=3 destroys=3\n"
  unfolding text itoa_ℤ wrap64
  printed = refl

  -- Over the host backend and with no warm sandboxes asked for, whatever the clock and the tools
  -- do, the program of examples/custombackend does not panic: after the lines of its three rounds
  -- it prints the name of the wrapping backend and that each of the three counters stands at 3,
  -- and it leaves the pool empty.
  audit_main_lem :
      (w : W)
      → (lines : Text) × (w' : AuditWorld host) × (audit_main host clock
            (at_rest (audit host) cfg [] (fresh host w))
          ≡ (
            ok tt,
            at_rest
                (audit host)
                cfg
                (lines ++ text "backend=audit(host) boots=3 execs=3 destroys=3\n")
                w',
          ))
  unfolding audit_main
  audit_main_lem w =
      let (lines, inner, ran) = rounds_run 3 [] (fresh host w) in
      (
        lines,
        counted 3 (fresh host w) inner,
        ap (deferred_after do_shutdown) (
              >>=-ok (rounds_of host clock 3) (λ _. print_summary host)
                (at_rest (audit host) cfg [] (fresh host w)) ran)
            ∙ (ap
                  (λ r. (
                    ok tt,
                    record (at_rest (audit host) cfg (lines ++ summary host 3 3 3) r.1) {
                      pool = r.0;
                    },
                  ))
                  (shutdown-at_rest (audit host) cfg [] (counted 3 (fresh host w) inner))
                ∙ ap
                    (λ t. (
                      ok tt,
                      at_rest (audit host) cfg (lines ++ t) (counted 3 (fresh host w) inner),
                    ))
                    printed),
      )
