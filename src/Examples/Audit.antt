-- ===== src/Examples/Audit.antt =====
-- examples/custombackend/main.go: a backend that wraps another and counts the calls.
pub mod Counters
pub mod Transparency
pub mod Program
use emberbox.Prelude.{Option, ℕ, ◌+◌, ◌%◌, ◌^◌, Text, text, ◌++◌, ◌≡◌, refl}
use emberbox.Errors.{map_result, Result, ok, err, Error}
use emberbox.Context.{Context}
use emberbox.Sandbox.{Backend, AllocRequest, ExecResult}
use emberbox.Sandbox.Wrapping.{Wraps}

-- auditHandle: its own copy of the identity, and the handle that it stands for.
pub record AuditHandle (C : Backend) : Type 0 where
  pub id : Text
  pub inner : C.Handle

-- What the methods of an auditBackend change: the world of its inner backend, and the counters.
-- An atomic.Int64 is kept as its 64 bits.
pub record AuditWorld (C : Backend) : Type 0 where
  pub inner : C.World
  pub boots : ℕ
  pub execs : ℕ
  pub destroys : ℕ

-- Int64.Add(1).
abbrev pub add_one : ℕ → ℕ
add_one n = (n + 1) % 2 ^ 64

module _ (C : Backend) where
  abbrev pub audited :
      AuditWorld C → Result C.Handle × C.World → Result (AuditHandle C) × AuditWorld C
  audited w (err e, inner) = (err e, record w { inner = inner })
  audited w (ok h, inner) =
      (ok (record { id = C.id h; inner = h }), record w { inner = inner; boots = add_one w.boots })

  abbrev pub boot : Context → AllocRequest → AuditWorld C → Result (AuditHandle C) × AuditWorld C
  boot ctx req w = audited w (C.boot ctx req w.inner)

  abbrev pub exec :
      Context → AuditHandle C → Text → Text → AuditWorld C → Result ExecResult × AuditWorld C
  exec ctx h tool input w =
      let (r, inner) = C.exec ctx h.inner tool input w.inner in
      (r, record w { inner = inner; execs = add_one w.execs })

  abbrev pub destroy : Context → AuditHandle C → AuditWorld C → Option Error × AuditWorld C
  destroy ctx h w =
      let (e, inner) = C.destroy ctx h.inner w.inner in
      (e, record w { inner = inner; destroys = add_one w.destroys })

  -- &auditBackend{inner: …}
  abbrev pub audit : Backend
  audit = record {
    Handle = AuditHandle C;
    World = AuditWorld C;
    name = text "audit(" ++ (C.name ++ text ")");
    id = λ h. h.id;
    boot = boot;
    exec = exec;
    destroy = destroy;
  }

  -- A new auditBackend.
  abbrev pub fresh : C.World → AuditWorld C
  fresh w = record { inner = w; boots = 0; execs = 0; destroys = 0 }

  pub audited_outer :
      (w : AuditWorld C) (p : Result C.Handle × C.World)
      → (audited w p).0 ≡ map_result (λ h. record { id = C.id h; inner = h }) p.0
  audited_outer w (ok h, inner) = refl
  audited_outer w (err e, inner) = refl

  pub audited_inner :
      (w : AuditWorld C) (p : Result C.Handle × C.World) → (audited w p).1.inner ≡ p.1
  audited_inner w (ok h, inner) = refl
  audited_inner w (err e, inner) = refl

  -- An auditBackend wraps its inner backend.
  abbrev pub audit_Wraps : Wraps audit C
  audit_Wraps = record {
    outer = λ h. record { id = C.id h; inner = h };
    inside = λ w. w.inner;
    outer_id = λ h. refl;
    outer_boot = λ ctx req w. audited_outer w (C.boot ctx req w.inner);
    inside_boot = λ ctx req w. audited_inner w (C.boot ctx req w.inner);
    outer_exec = λ ctx h tool input w. refl;
    inside_exec = λ ctx h tool input w. refl;
    inside_destroy = λ ctx h w. refl;
  }
