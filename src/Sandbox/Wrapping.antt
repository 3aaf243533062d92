-- ===== src/Sandbox/Wrapping.antt =====
-- A backend of sandbox/backend.go that wraps another, as examples/custombackend does: it makes each
-- call on the inner backend and passes its result on. `outer` is the handle that it makes of an
-- inner one, `inside` the part of its world that the inner backend sees.
use emberbox.Prelude.{Text, ◌≡◌}
use emberbox.Errors.{map_result}
use emberbox.Context.{Context}
use emberbox.Sandbox.{Backend, AllocRequest}

pub record Wraps (A C : Backend) : Type 0 where
  pub outer : C.Handle → A.Handle
  pub inside : A.World → C.World
  pub outer_id : (h : C.Handle) → A.id (outer h) ≡ C.id h
  pub outer_boot :
      (ctx : Context) (req : AllocRequest) (w : A.World)
      → (A.boot ctx req w).0 ≡ map_result outer (C.boot ctx req (inside w)).0
  pub inside_boot :
      (ctx : Context) (req : AllocRequest) (w : A.World)
      → inside (A.boot ctx req w).1 ≡ (C.boot ctx req (inside w)).1
  pub outer_exec :
      (ctx : Context) (h : C.Handle) (tool input : Text) (w : A.World)
      → (A.exec ctx (outer h) tool input w).0 ≡ (C.exec ctx h tool input (inside w)).0
  pub inside_exec :
      (ctx : Context) (h : C.Handle) (tool input : Text) (w : A.World)
      → inside (A.exec ctx (outer h) tool input w).1 ≡ (C.exec ctx h tool input (inside w)).1
  pub inside_destroy :
      (ctx : Context) (h : C.Handle) (w : A.World)
      → inside (A.destroy ctx (outer h) w).1 ≡ (C.destroy ctx h (inside w)).1
