-- ===== src/Sandbox/Handles.antt =====
-- sandbox/backend.go: the handles of the built-in backends behind the interface Handle, and
-- assertHandle, which narrows one.
use emberbox.Prelude.{ℕ, Text, text, ◌++◌, Option}
use emberbox.Prelude.Int.{ℤ}
use emberbox.Prelude.Dict.{Dict}
use emberbox.Errors.{Result, ok, err, Error, plain}

-- sandbox/host.go: hostHandle.
pub record HostHandle : Type 0 where
  pub id : Text
  pub env : Dict Text

-- sandbox/firecracker.go: firecrackerHandle. `pid` is that of `cmd.Process`, if there is one, and an
-- open log file is named by a number; the fields that change, `stopOnce` and `stopErr`, are in the
-- state of Sandbox/Firecracker/Machine.antt, and `bootedAt` is only logged.
pub record FirecrackerHandle : Type 0 where
  pub id : Text
  pub work_dir : Text
  pub uds_path : Text
  pub api_path : Text
  pub pid : Option ℕ
  pub log_file : ℕ
  pub memory_mb : ℤ
  pub vcpus : ℤ
  pub env : Dict Text

-- The dynamic type of a handle. A handle of another backend shows its identity and the name of its
-- type.
pub data AnyHandle : Type 0 where
  of_host : HostHandle → AnyHandle
  of_firecracker : FirecrackerHandle → AnyHandle
  foreign : Text → Text → AnyHandle

abbrev pub handle_id : AnyHandle → Text
handle_id (of_host h) = h.id
handle_id (of_firecracker h) = h.id
handle_id (foreign i name) = i

-- %T.
abbrev type_name : AnyHandle → Text
type_name (of_host h) = text "*sandbox.hostHandle"
type_name (of_firecracker h) = text "*sandbox.firecrackerHandle"
type_name (foreign i name) = name

abbrev mismatch : Text → AnyHandle → Error
mismatch backend h =
    plain (
      text "emberbox/sandbox: " ++ (backend ++ (text "Backend got handle of type " ++ type_name h)))

-- assertHandle[*hostHandle](h, "Host").
unfoldable pub assert_host : AnyHandle → Result HostHandle
assert_host (of_host h) = ok h
assert_host h = err (mismatch (text "Host") h)

-- assertHandle[*firecrackerHandle](h, "Firecracker").
unfoldable pub assert_firecracker : AnyHandle → Result FirecrackerHandle
assert_firecracker (of_firecracker h) = ok h
assert_firecracker h = err (mismatch (text "Firecracker") h)
