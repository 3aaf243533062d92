-- ===== src/Sandbox.antt =====
-- sandbox/types.go and sandbox/backend.go: what passes between the pool and a backend.
pub mod Wrapping
pub mod Retiring
pub mod Pool
pub mod Handles
pub mod Host
pub mod AgentClient
pub mod Polling
pub mod FirecrackerApi
pub mod Firecracker
pub mod New
use emberbox.Prelude.{Bool, Text, Option, ◌≡◌}
use emberbox.Prelude.Int.{ℤ}
use emberbox.Prelude.Dict.{Dict}
use emberbox.Errors.{Result, ok, Error}
use emberbox.Context.{Context}

pub record AllocRequest : Type 0 where
  pub memory_mb : ℤ
  pub vcpus : ℤ
  pub timeout : ℤ
  pub network_access : Bool
  pub control_plane_access : Bool
  pub env : Dict Text

pub record ExecResult : Type 0 where
  pub content : Text
  pub is_error : Bool
  pub duration_ms : ℤ

-- The interface Backend. `World` is all that its methods may change; `Handle` is the type of the
-- tokens that Boot returns, and `id` their method ID.
pub record Backend : Type 1 where
  pub Handle : Type 0
  pub World : Type 0
  pub name : Text
  pub id : Handle → Text
  pub boot : Context → AllocRequest → World → Result Handle × World
  pub exec : Context → Handle → Text → Text → World → Result ExecResult × World
  pub destroy : Context → Handle → World → Option Error × World

-- What the pool relies on: an identity that Boot returns was never returned before. `Issued w i`
-- says that some earlier Boot returned a handle with identity `i`.
pub record IssuesFreshIds (B : Backend) : Type 1 where
  pub Issued : B.World → Text → Type 0
  pub boot_fresh :
      (c : Context) (r : AllocRequest) (w : B.World) (h : B.Handle)
      → (B.boot c r w).0 ≡ ok h
      → ¬ Issued w (B.id h)
  pub boot_issues :
      (c : Context) (r : AllocRequest) (w : B.World) (h : B.Handle)
      → (B.boot c r w).0 ≡ ok h
      → Issued (B.boot c r w).1 (B.id h)
  pub boot_keeps :
      (c : Context) (r : AllocRequest) (w : B.World) (i : Text)
      → Issued w i
      → Issued (B.boot c r w).1 i
  pub exec_keeps :
      (c : Context) (h : B.Handle) (tool input : Text) (w : B.World) (i : Text)
      → Issued w i
      → Issued (B.exec c h tool input w).1 i
  pub destroy_keeps :
      (c : Context) (h : B.Handle) (w : B.World) (i : Text)
      → Issued w i
      → Issued (B.destroy c h w).1 i
