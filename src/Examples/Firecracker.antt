-- ===== src/Examples/Firecracker.antt =====
-- examples/firecrackerbackend/main.go.
pub mod Laws
use emberbox.Prelude.{Text, text, ◌++◌, is_empty, ◌||◌, itoa_ℤ, ℕ, if◌then◌else◌}
use emberbox.Prelude.Int.{ℤ, pos}
use emberbox.Sandbox.{Backend, ExecResult}
use emberbox.Sandbox.Firecracker.{FirecrackerConfig, new_firecracker_backend}
use emberbox.Sandbox.New.{unset}
use emberbox.Examples.Session.{
  ◌>>=◌, ◌>>◌, Run, ◌>>◌, print, deferred, do_allocate, do_execute, do_release, do_shutdown,
}
use emberbox.Examples.HostPrograms.{no_request, line_end}

-- EMBERBOX_FIRECRACKER_BIN, _KERNEL and _ROOTFS; a variable that is not set is empty.
pub record Variables : Type 0 where
  pub bin : Text
  pub kernel : Text
  pub rootfs : Text

-- The program up to sandbox.New: it ends with a status, or goes on with a backend.
pub data Start : Type 0 where
  exits : ℕ → Start
  goes_on : FirecrackerConfig → Start

abbrev pub chosen : Text → Variables → FirecrackerConfig
chosen temp_dir v = new_firecracker_backend temp_dir (record unset {
  firecracker_binary = v.bin;
  kernel_path = v.kernel;
  rootfs_path = v.rootfs;
  boot_timeout = pos 45000000000;
})

unfoldable pub configure : Text → Variables → Start
configure temp_dir v =
    if is_empty v.kernel || is_empty v.rootfs then exits 2 else goes_on (chosen temp_dir v)

-- What is printed of the results of the two tool calls.
abbrev pub greet_line : ExecResult → Text
greet_line res =
    text "greet (" ++ (itoa_ℤ res.duration_ms ++ (text "ms): " ++ (res.content ++ line_end)))

abbrev pub bash_line : ExecResult → Text
bash_line res = text "bash (" ++ (itoa_ℤ res.duration_ms ++ (text "ms): " ++ res.content))

module _ {B : Backend} where
  -- One call of a tool, and the line that is printed of its result.
  abbrev pub tool_call : ℤ × ℤ → Text → Text → Text → (ExecResult → Text) → Run B (Unit {0})
  tool_call clock id tool input line = do
    res ← do_execute clock.0 clock.1 id tool input
    print (line res)

  -- The two calls, with the clock's now and time taken at each.
  abbrev pub calls : ℤ × ℤ → ℤ × ℤ → Text → Run B (Unit {0})
  calls first second id =
      tool_call first id (text "greet") (text "{\"name\":\"emberbox\"}") greet_line
      >> tool_call second id (text "bash") (text "{\"command\":\"uname -a\"}") bash_line

  -- main, from the pool that New returns on.
  unfoldable pub session : ℤ × ℤ → ℤ × ℤ → Run B (Unit {0})
  session first second = deferred do_shutdown (do
    id ← do_allocate no_request
    deferred (do_release id)
        (do print (text "microVM booted: " ++ (id ++ line_end)); calls first second id))
