-- ===== src/Sandbox/Retiring.antt =====
-- The interface Backend of sandbox/backend.go, with the contract on Destroy.
use emberbox.Prelude.{◌≡◌, ◌≢◌, Text}
use emberbox.Errors.{ok}
use emberbox.Context.{Context}
use emberbox.Sandbox.{Backend, AllocRequest, IssuesFreshIds}

-- What Destroy does: `Live w i` says that the sandbox with the identity `i` was not destroyed yet,
-- `Gone w h` that the destruction of `h` is complete, which nothing undoes. `Sound` is what the
-- backend keeps true of its own state.
pub record Retires (B : Backend) (L : IssuesFreshIds B) : Type 1 where
  pub Live : B.World → Text → Type 0
  pub Gone : B.World → B.Handle → Type 0
  pub Sound : B.World → Type 0
  pub boot_sound : (c : Context) (r : AllocRequest) (w : B.World) → Sound w → Sound (B.boot c r w).1
  pub exec_sound :
      (c : Context) (h : B.Handle) (tool input : Text) (w : B.World)
      → Sound w
      → Sound (B.exec c h tool input w).1
  pub destroy_sound :
      (c : Context) (h : B.Handle) (w : B.World)
      → L.Issued w (B.id h)
      → Sound w
      → Sound (B.destroy c h w).1
  pub boot_live :
      (c : Context) (r : AllocRequest) (w : B.World) (h : B.Handle)
      → Sound w
      → (B.boot c r w).0 ≡ ok h
      → Live (B.boot c r w).1 (B.id h)
  pub boot_keeps_live :
      (c : Context) (r : AllocRequest) (w : B.World) (i : Text)
      → L.Issued w i
      → Live w i
      → Live (B.boot c r w).1 i
  pub exec_keeps_live :
      (c : Context) (h : B.Handle) (tool input : Text) (w : B.World) (i : Text)
      → Live w i
      → Live (B.exec c h tool input w).1 i
  pub destroy_keeps_live :
      (c : Context) (h : B.Handle) (w : B.World) (i : Text)
      → B.id h ≢ i
      → Live w i
      → Live (B.destroy c h w).1 i
  pub boot_keeps_gone :
      (c : Context) (r : AllocRequest) (w : B.World) (g : B.Handle)
      → Gone w g
      → Gone (B.boot c r w).1 g
  pub exec_keeps_gone :
      (c : Context) (h : B.Handle) (tool input : Text) (w : B.World) (g : B.Handle)
      → Gone w g
      → Gone (B.exec c h tool input w).1 g
  pub destroy_keeps_gone :
      (c : Context) (h : B.Handle) (w : B.World) (g : B.Handle)
      → Gone w g
      → Gone (B.destroy c h w).1 g
  pub destroy_gone :
      (c : Context) (h : B.Handle) (w : B.World) → Live w (B.id h) → Gone (B.destroy c h w).1 h
