-- ===== src/Examples/HostPrograms.antt =====
-- examples/lifecycle/main.go, examples/customtool/main.go and the loop of
-- examples/custombackend/main.go, from the pool that New returns on.
pub mod Laws
pub mod Host
use emberbox.Prelude.{ℕ, Text, text, ◌++◌, [], itoa, itoa_ℤ, false}
use emberbox.Prelude.Int.{ℤ, pos}
use emberbox.Sandbox.{Backend, AllocRequest}
use emberbox.Examples.Session.{
  ◌>>=◌, ◌>>◌, do_shutdown, deferred, Run, print, do_allocate, do_execute, do_release, do_status,
}

-- sandbox.AllocRequest{}
abbrev pub no_request : AllocRequest
no_request = record {
  memory_mb = pos 0;
  vcpus = pos 0;
  timeout = pos 0;
  network_access = false;
  control_plane_access = false;
  env = [];
}

abbrev pub line_end : Text
line_end = text "\n"

-- "warm_pool=%d active=%d\n"
abbrev pub status_line : ℕ → ℕ → Text
status_line warm active =
    text "warm_pool=" ++ (itoa warm ++ (text " active=" ++ (itoa active ++ line_end)))

module _ {B : Backend} where
  abbrev pub print_status : Text → ℕ × ℕ → Run B (Unit {0})
  print_status title (warm, active) = print (title ++ status_line warm active)

  -- examples/lifecycle: `now` and `elapsed` are the clock's at the one Execute.
  unfoldable pub lifecycle : ℤ → ℤ → Run B (Unit {0})
  lifecycle now elapsed = deferred do_shutdown (do
    id ← do_allocate no_request
    print (text "allocated sandbox: " ++ (id ++ line_end))
    st ← do_status
    print_status (text "status: ") st
    res ← do_execute now elapsed id (text "bash") (text "{\"command\":\"uname -a\"}")
    print (text "output (" ++ (itoa_ℤ res.duration_ms ++ (text "ms): " ++ res.content)))
    do_release id
    after_release ← do_status
    print_status (text "after release: ") after_release)

  -- examples/customtool.
  unfoldable pub custom_tool : ℤ → ℤ → Run B (Unit {0})
  custom_tool now elapsed = deferred do_shutdown (do
    id ← do_allocate no_request
    deferred (do_release id) (do
      res ← do_execute now elapsed id (text "greet") (text "{\"name\":\"emberbox\"}")
      print (res.content ++ line_end)))

  -- One round of the loop of examples/custombackend.
  unfoldable pub audit_round : ℤ → ℤ → Run B (Unit {0})
  audit_round now elapsed = do
    id ← do_allocate no_request
    res ← do_execute now elapsed id (text "bash") (text "{\"command\":\"echo hi\"}")
    print (text "  " ++ (id ++ (text ": " ++ res.content)))
    do_release id
